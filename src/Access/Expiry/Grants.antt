-- ===== src/Access/Expiry/Grants.antt =====
-- Which live credentials `_lapsed` of services/api/src/nebula_api/access/expiry.py leaves alone, by the
-- rows of the two tables.
use vpn.Prelude.{
  ℕ, ◌<◌, ◌≡◌, ◌⊎◌, ◌↔◌, refl, Bool, true, false, not, ◌&&◌, ◌||◌, Option, none, some, List, [],
  ◌∷◌, inl, inr, arith, ◌==◌,
}
use vpn.Db.{
  AccountState, LifecycleState, CapabilityState, User, Device, VpnCredential, UserServerAssignment,
  UserProtocolPermission, Db, find_user, find_device,
}
use vpn.Access.Revocation.{is_live}
use vpn.Access.Expiry.{
  is_active_account, is_active, is_revoked, is_enabled, lasts, is_over, has_assignment,
  has_permission, lapsed,
}

-- No expiry, or one that is still to come.
abbrev pub IsUnexpired : ℕ → Option ℕ → Type 0
IsUnexpired now none = Unit
IsUnexpired now (some at) = now < at

abbrev pub Any {ℓ} : {A : Type ℓ} → (A → Type 0) → List A → Type 0
Any P [] = ⊥
Any P (x ∷ xs) = P x ⊎ Any P xs

abbrev pub IsAssigned : ℕ → ℕ → ℕ → UserServerAssignment → Type 0
IsAssigned now user_id server_id a =
    (a.user_id ≡ user_id)
    × (a.vpn_server_id ≡ server_id)
    × (a.state ≡ LifecycleState.active)
    × IsUnexpired now a.expires_at

abbrev pub IsPermitted : ℕ → ℕ → ℕ → UserProtocolPermission → Type 0
IsPermitted now user_id profile_id p =
    (p.user_id ≡ user_id)
    × (p.protocol_profile_id ≡ profile_id)
    × (p.state ≡ CapabilityState.enabled)
    × IsUnexpired now p.expires_at

-- An active account that has not expired, an active device, and a row of each table.
abbrev pub IsGranted : ℕ → Db → VpnCredential → Device → User → Type 0
IsGranted now db row device user =
    (user.state ≡ AccountState.active)
    × IsUnexpired now user.expires_at
    × (device.state ≡ LifecycleState.active)
    × Any (IsAssigned now user.id row.vpn_server_id) db.assignments
    × Any (IsPermitted now user.id row.protocol_profile_id) db.permissions

lasts_iff : (now : ℕ) (o : Option ℕ) → (lasts now o ≡ true) ↔ IsUnexpired now o
lasts_iff now none = ((λ h. tt), (λ h. refl))
lasts_iff now (some at) = ((λ h. ground arith), (λ h. ground arith))

over_iff : (now : ℕ) (o : Option ℕ) → (is_over now o ≡ false) ↔ IsUnexpired now o
over_iff now none = ((λ h. tt), (λ h. refl))
over_iff now (some at) = ((λ h. ground arith), (λ h. ground arith))

account_iff : (s : AccountState) → (is_active_account s ≡ true) ↔ (s ≡ AccountState.active)
account_iff AccountState.active = ((λ h. refl), (λ h. refl))
account_iff AccountState.pending_activation = ((λ h. ground arith), (λ h. cc))
account_iff AccountState.suspended = ((λ h. ground arith), (λ h. cc))
account_iff AccountState.disabled = ((λ h. ground arith), (λ h. cc))

active_iff : (s : LifecycleState) → (is_active s ≡ true) ↔ (s ≡ LifecycleState.active)
active_iff LifecycleState.active = ((λ h. refl), (λ h. refl))
active_iff LifecycleState.revoked = ((λ h. ground arith), (λ h. cc))

unrevoked_iff : (s : LifecycleState) → (is_revoked s ≡ false) ↔ (s ≡ LifecycleState.active)
unrevoked_iff LifecycleState.active = ((λ h. refl), (λ h. refl))
unrevoked_iff LifecycleState.revoked = ((λ h. ground arith), (λ h. cc))

enabled_iff : (s : CapabilityState) → (is_enabled s ≡ true) ↔ (s ≡ CapabilityState.enabled)
enabled_iff CapabilityState.enabled = ((λ h. refl), (λ h. refl))
enabled_iff CapabilityState.disabled = ((λ h. ground arith), (λ h. cc))

-- The test of one row, part by part.
row_iff :
    (i j k m : ℕ) (state lasting : Bool) {S L : Type 0}
    → (state ≡ true) ↔ S
    → (lasting ≡ true) ↔ L
    → (((i == j) && (k == m) && state && lasting) ≡ true) ↔ ((i ≡ j) × (k ≡ m) × S × L)
row_iff i j k m state lasting s l = (
  (λ h. (ground arith, ground arith, s.0 (ground arith), l.0 (ground arith))),
  (λ h.
      let (a, b, c, d) = h in
      let on : state ≡ true = s.1 c in let left : lasting ≡ true = l.1 d in ground arith),
)

or_iff : (a b : Bool) {P Q : Type 0} → (a ≡ true) ↔ P → (b ≡ true) ↔ Q → ((a || b) ≡ true) ↔ (P ⊎ Q)
or_iff true b p q = ((λ h. inl (p.0 refl)), (λ h. refl))
or_iff false b p q = (
  (λ h. inr (q.0 h)),
  (λ h. elim h [ inl x ↦ let bad : false ≡ true = p.1 x in ground arith | inr y ↦ q.1 y ]),
)

has_assignment_iff :
    (now user_id server_id : ℕ) (rows : List UserServerAssignment)
    → (has_assignment now user_id server_id rows ≡ true)
      ↔ Any (IsAssigned now user_id server_id) rows
unfolding has_assignment
has_assignment_iff now user_id server_id [] = ((λ h. ground arith), (λ h. elim h [ ]))
has_assignment_iff now user_id server_id (a ∷ rest) =
    or_iff
      ((a.user_id == user_id)
        && (a.vpn_server_id == server_id)
        && is_active a.state
        && lasts now a.expires_at)
      (has_assignment now user_id server_id rest)
      (row_iff a.user_id user_id a.vpn_server_id server_id (is_active a.state)
        (lasts now a.expires_at) (active_iff a.state) (lasts_iff now a.expires_at))
      (has_assignment_iff now user_id server_id rest)

has_permission_iff :
    (now user_id profile_id : ℕ) (rows : List UserProtocolPermission)
    → (has_permission now user_id profile_id rows ≡ true)
      ↔ Any (IsPermitted now user_id profile_id) rows
unfolding has_permission
has_permission_iff now user_id profile_id [] = ((λ h. ground arith), (λ h. elim h [ ]))
has_permission_iff now user_id profile_id (p ∷ rest) =
    or_iff
      ((p.user_id == user_id)
        && (p.protocol_profile_id == profile_id)
        && is_enabled p.state
        && lasts now p.expires_at)
      (has_permission now user_id profile_id rest)
      (row_iff p.user_id user_id p.protocol_profile_id profile_id (is_enabled p.state)
        (lasts now p.expires_at) (enabled_iff p.state) (lasts_iff now p.expires_at))
      (has_permission_iff now user_id profile_id rest)

unrefused_iff :
    (a b c d e : Bool) {A B C D E : Type 0}
    → (a ≡ true) ↔ A
    → (b ≡ false) ↔ B
    → (c ≡ false) ↔ C
    → (d ≡ true) ↔ D
    → (e ≡ true) ↔ E
    → ((not a || b || c || not d || not e) ≡ false) ↔ (A × B × C × D × E)
unrefused_iff a b c d e p q r s t = (
  (λ h. (
    p.0 (ground arith),
    q.0 (ground arith),
    r.0 (ground arith),
    s.0 (ground arith),
    t.0 (ground arith),
  )),
  (λ h.
      let (x, y, z, u, v) = h in
      let pa : a ≡ true = p.1 x in
      let pb : b ≡ false = q.1 y in
      let pc : c ≡ false = r.1 z in
      let pd : d ≡ true = s.1 u in let pe : e ≡ true = t.1 v in ground arith),
)

-- A live credential of a device and a user that exist is left alone by a sweep exactly when the
-- account is active with no expiry or a later one, the device is active, the user has an active
-- assignment to the credential's server and an enabled permission for its protocol, each with no
-- expiry or a later one.
pub lapsed_iff :
    (now : ℕ) (db : Db) (row : VpnCredential) (device : Device) (user : User)
    → is_live row.state ≡ true
    → find_device row.device_id db.devices ≡ some device
    → find_user device.user_id db.users ≡ some user
    → (lapsed now db row ≡ false) ↔ IsGranted now db row device user
unfolding lapsed
lapsed_iff now db row device user live d u =
    rw (live, d, u)
      (unrefused_iff (is_active_account user.state) (is_over now user.expires_at)
        (is_revoked device.state) (has_assignment now user.id row.vpn_server_id db.assignments)
        (has_permission now user.id row.protocol_profile_id db.permissions) (account_iff user.state)
        (over_iff now user.expires_at) (unrevoked_iff device.state)
        (has_assignment_iff now user.id row.vpn_server_id db.assignments)
        (has_permission_iff now user.id row.protocol_profile_id db.permissions))

-- ===== src/Db.antt =====
-- The tables of services/api/src/nebula_api/models that access control and quotas read and write,
-- as lists of rows. Identifiers, texts and timestamps that the code only compares are numbers.
use vpn.Prelude.{ℕ, ◌≡◌, arith, Option, none, some, List, [], ◌∷◌, ◌==◌, if◌then◌else◌}

-- models/types.py
pub data AccountState : Type 0 where
  pending_activation active suspended disabled : AccountState

pub data LifecycleState : Type 0 where
  active revoked : LifecycleState

pub data CapabilityState : Type 0 where
  enabled disabled : CapabilityState

pub data ProvisioningState : Type 0 where
  requested applying active revoking revoked failed : ProvisioningState

-- models/identity.py, the columns that sign-in, expiry and quotas use.
pub record User : Type 0 where
  pub id : ℕ
  pub state : AccountState
  pub password_hash : Option ℕ
  pub device_limit : ℕ
  pub expires_at : Option ℕ
  pub traffic_quota_bytes : Option ℕ
  pub traffic_baseline_bytes : ℕ
  pub quota_exhausted_at : Option ℕ

pub record Device : Type 0 where
  pub id : ℕ
  pub user_id : ℕ
  pub state : LifecycleState
  pub hardware_hash : Option ℕ
  pub hardware_key_version : Option ℕ

-- models/provisioning.py: the columns that `WireGuardPeer` and `XrayClient` share. `public_key` is
-- the peer's; a client's is its credential's secret.
pub record VpnCredential : Type 0 where
  pub id : ℕ
  pub device_id : ℕ
  pub vpn_server_id : ℕ
  pub protocol_profile_id : ℕ
  pub credential_id : ℕ
  pub public_key : ℕ
  pub state : ProvisioningState
  pub updated_at : ℕ

pub record DeviceProtocolCredential : Type 0 where
  pub id : ℕ
  pub state : ProvisioningState
  pub ciphertext : ℕ
  pub key_material_lost_at : Option ℕ

-- models/topology.py
pub record UserServerAssignment : Type 0 where
  pub user_id : ℕ
  pub vpn_server_id : ℕ
  pub state : LifecycleState
  pub expires_at : Option ℕ

pub record UserProtocolPermission : Type 0 where
  pub user_id : ℕ
  pub protocol_profile_id : ℕ
  pub state : CapabilityState
  pub expires_at : Option ℕ

-- The events that the modelled sweeps append (auth/audit.py).
pub data ReasonCode : Type 0 where
  traffic_quota_exhausted access_lapsed : ReasonCode

pub record AuditLog : Type 0 where
  pub target_id : ℕ
  pub reason_code : ReasonCode

pub record Db : Type 0 where
  pub users : List User
  pub devices : List Device
  pub peers : List VpnCredential
  pub clients : List VpnCredential
  pub credentials : List DeviceProtocolCredential
  pub assignments : List UserServerAssignment
  pub permissions : List UserProtocolPermission
  pub audit_logs : List AuditLog

-- `select(User).where(User.id == id)`
abbrev pub find_user : ℕ → List User → Option User
find_user k [] = none
find_user k (u ∷ users) = if u.id == k then some u else find_user k users

abbrev pub find_device : ℕ → List Device → Option Device
find_device k [] = none
find_device k (d ∷ devices) = if d.id == k then some d else find_device k devices

abbrev pub find_credential : ℕ → List DeviceProtocolCredential → Option DeviceProtocolCredential
find_credential k [] = none
find_credential k (c ∷ cs) = if c.id == k then some c else find_credential k cs

-- The write of a locked user row.
abbrev pub put_user : User → List User → List User
put_user new [] = []
put_user new (u ∷ users) = if u.id == new.id then new ∷ users else u ∷ put_user new users

pub find-put_user :
    (k : ℕ) (new : User) (users : List User) {old : User}
    → find_user new.id users ≡ some old
    → find_user k (put_user new users) ≡ (if new.id == k then some new else find_user k users)
find-put_user k new [] h = ground arith
find-put_user k new (u ∷ users) {old} h = ground (arith, find-put_user k new users {old = old})

pub find_user_id : (k : ℕ) (users : List User) {u : User} → find_user k users ≡ some u → u.id ≡ k
find_user_id k [] h = ground arith
find_user_id k (v ∷ users) {u} h = ground (arith, find_user_id k users {u = u})

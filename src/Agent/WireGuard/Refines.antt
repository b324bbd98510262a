-- ===== src/Agent/WireGuard/Refines.antt =====
-- The driver of services/vpn-agent/src/nebula_agent/drivers/wireguard.py, beside what it promises: a
-- map from keys to peers, which the interface and the last-known-good file both hold.
use vpn.Prelude.{
  ℕ, ◌≡◌, ◌∙◌, ap, refl, Bool, true, false, Option, none, some, List, [], ◌∷◌, ◌++◌, inl, inr,
  Bool-cases, Option-cases, arith, ◌&&◌, is_some, ◌==◌, if◌then◌else◌,
}
use vpn.Agent.WireGuard.{
  IpAddress, RenderedPeer, DesiredInterfaceState, without_peer, with_peer, peer,
  WireGuardInterfaceIdentity, Line, read_last_known_good, rollback_text,
}
use vpn.Agent.WireGuard.RoundTrip.{parse-render_wireguard_config}
use vpn.Agent.WireGuard.Driver.{
  Ran, succeeded, failed, timed_out, raised_timeout, apply_delta, DeviceState, Answer, answered,
  raised_rollback, DriverState, server_pubkey, provision_device, revoke_device, enable_device,
  disable_device, generation_of, apply_and_answer, active, revoked, enabled, disabled,
}

peer-without_peer :
    (j key : ℕ) (peers : DesiredInterfaceState)
    → peer j (without_peer key peers) ≡ (if key == j then none else peer j peers)
peer-without_peer j key [] = ground arith
peer-without_peer j key (p ∷ peers) = ground (arith, peer-without_peer j key peers)

peer-append :
    (j : ℕ) (peers : DesiredInterfaceState) (new : RenderedPeer)
    → peer j (peers ++ (new ∷ [])) ≡ (
        if is_some (peer j peers)
        then peer j peers
        else (if new.public_key == j then some new else none))
peer-append j [] new = refl
peer-append j (p ∷ peers) new = elim (Bool-cases (p.public_key == j)) [
  | inl hit ↦ rw hit refl
  | inr miss ↦ rw miss (peer-append j peers new)
]

peer-with_peer :
    (j : ℕ) (new : RenderedPeer) (peers : DesiredInterfaceState)
    → peer j (with_peer new peers) ≡ (if new.public_key == j then some new else peer j peers)
peer-with_peer j new peers =
    peer-append j (without_peer new.public_key peers) new
    ∙ elim (Bool-cases (new.public_key == j)) [
      | inl hit ↦ rw (peer-without_peer j new.public_key peers, hit) refl
      | inr miss ↦ rw (peer-without_peer j new.public_key peers, miss) (found_or (peer j peers))
    ]
  where
    found_or : (o : Option RenderedPeer) → (if is_some o then o else none) ≡ o
    found_or none = refl
    found_or (some p) = refl

pub data Request : Type 0 where
  provisions : Option ℕ → RenderedPeer → Request
  revokes disables : ℕ → ℕ → Request
  enables : ℕ → IpAddress → ℕ → Request

-- The contract: a map from keys to peers.
abbrev pub Peers : Type 0
Peers = ℕ → Option RenderedPeer

abbrev pub target : Request → ℕ
target (provisions printed p) = p.public_key
target (revokes key desired_generation) = key
target (disables key desired_generation) = key
target (enables key address desired_generation) = key

abbrev pub desired_generation_of : Request → ℕ
desired_generation_of (provisions printed p) = p.generation
desired_generation_of (revokes key desired_generation) = desired_generation
desired_generation_of (disables key desired_generation) = desired_generation
desired_generation_of (enables key address desired_generation) = desired_generation

abbrev pub goal_state : Request → DeviceState
goal_state (provisions printed p) = active
goal_state (revokes key desired_generation) = revoked
goal_state (disables key desired_generation) = disabled
goal_state (enables key address desired_generation) = enabled

-- The peer that a key has once a request is carried out.
abbrev pub goal_peer : Request → Option RenderedPeer
goal_peer (provisions printed p) = some p
goal_peer (revokes key desired_generation) = none
goal_peer (disables key desired_generation) = none
goal_peer (enables key address desired_generation) = some (record {
  public_key = key;
  assigned_address = address;
  persistent_keepalive_seconds = none;
  generation = desired_generation;
})

-- What a request promises: success carries it out; a failure that is rolled back changes nothing and
-- reports the key's own generation; a failure of both changes nothing and is raised; so is the end of
-- the time of either, and then nothing is rolled back any more.
abbrev pub promised : Ran → Ran → Request → Peers → Answer × Peers
promised succeeded again request v = (
  answered (record {
    state = goal_state request;
    applied_generation = desired_generation_of request;
    error_code = false;
  }),
  λ k. if target request == k then goal_peer request else v k,
)
promised (failed left) succeeded request v = (
  answered (record {
    state = DeviceState.failed;
    applied_generation = generation_of (v (target request));
    error_code = true;
  }),
  v,
)
promised (failed left) (failed left_again) request v = (raised_rollback, v)
promised (failed left) (timed_out left_again) request v = (raised_timeout, v)
promised (timed_out left) again request v = (raised_timeout, v)

-- What the interface has when a call ends, by the text that it should have.
abbrev pub left_on : Ran → Ran → List Line → List Line
left_on succeeded again good = good
left_on (failed left) succeeded good = good
left_on (failed left) (failed left_again) good = left_again
left_on (failed left) (timed_out left_again) good = left_again
left_on (timed_out left) again good = left

abbrev pub view : DriverState → Peers
view d k = peer k (read_last_known_good d.host)

module _ (identity : WireGuardInterfaceIdentity) (in_pool : IpAddress → Bool) where
  unfoldable pub call : Ran → Ran → Request → DriverState → Answer × DriverState
  call ran again (provisions printed p) d = provision_device identity in_pool ran again printed p d
  call ran again (revokes key desired_generation) d =
      revoke_device identity in_pool ran again key desired_generation d
  call ran again (disables key desired_generation) d =
      disable_device identity in_pool ran again key desired_generation d
  call ran again (enables key address desired_generation) d =
      enable_device identity in_pool ran again key address desired_generation d

  -- A request that reaches `_apply_delta`: its address is in the pool, and the server's key is known.
  abbrev pub is_admitted : Request → DriverState → Bool
  is_admitted (provisions printed p) d =
      in_pool p.assigned_address && is_some (server_pubkey d.server_public_key printed)
  is_admitted (revokes key desired_generation) d = true
  is_admitted (disables key desired_generation) d = true
  is_admitted (enables key address desired_generation) d = in_pool address

  -- The application of a desired state that has the request's peer at its key, and the others.
  applied_as :
      (ran again : Ran) (request : Request) (desired : DesiredInterfaceState) (d : DriverState)
      (k : ℕ)
      → peer k desired ≡ (if target request == k then goal_peer request else view d k)
      → let (answer, d') =
          apply_and_answer identity in_pool ran again
            (goal_state request)
            (target request)
            (desired_generation_of request)
            desired
            d in
        (answer ≡ (promised ran again request (view d)).0)
        × (view d' k ≡ (promised ran again request (view d)).1 k)
        × (d'.host.interface ≡ left_on ran again (rollback_text identity d'.host))
  unfolding apply_delta read_last_known_good rollback_text
  applied_as succeeded again request desired d k h =
      (refl, ap (peer k) (parse-render_wireguard_config desired (some identity)) ∙ h, refl)
  applied_as (failed left) succeeded request desired d k h = (refl, refl, refl)
  applied_as (failed left) (failed left_again) request desired d k h = (refl, refl, refl)
  applied_as (failed left) (timed_out left_again) request desired d k h = (refl, refl, refl)
  applied_as (timed_out left) again request desired d k h = (refl, refl, refl)

  -- Every admitted request does what the contract promises, whether `wg syncconf` and that of the
  -- rollback succeed, exit with an error or run out of time: the answer, and the peer of each key.
  -- The interface has the text of the last-known-good file, except after the first one ran out of
  -- time, which is not rolled back, or the rollback's did not succeed: then it is as the last one left
  -- it.
  pub call-refines :
      (ran again : Ran) (request : Request) (d : DriverState) (k : ℕ)
      → is_admitted request d ≡ true
      → let (answer, d') = call ran again request d in
        (answer ≡ (promised ran again request (view d)).0)
        × (view d' k ≡ (promised ran again request (view d)).1 k)
        × (d'.host.interface ≡ left_on ran again (rollback_text identity d'.host))
  unfolding call provision_device revoke_device enable_device disable_device
  call-refines ran again (provisions printed p) d k ok =
      elim (Option-cases (server_pubkey d.server_public_key printed)) [
        | inl unknown ↦
            let bad : in_pool p.assigned_address && false ≡ true = rw unknown at ok in ground arith
        | inr (key, known) ↦
            let inside : in_pool p.assigned_address ≡ true = ground (arith, ok) in
            let d' : DriverState = record d { server_public_key = some key } in
            rw (inside, known)
              (applied_as ran again (provisions printed p)
                (with_peer p (read_last_known_good d.host)) d' k
                (peer-with_peer k p (read_last_known_good d.host)))
      ]
  call-refines ran again (revokes key g) d k ok =
      applied_as ran again (revokes key g) (without_peer key (read_last_known_good d.host)) d k
        (peer-without_peer k key (read_last_known_good d.host))
  call-refines ran again (disables key g) d k ok =
      applied_as ran again (disables key g) (without_peer key (read_last_known_good d.host)) d k
        (peer-without_peer k key (read_last_known_good d.host))
  call-refines ran again (enables key address g) d k ok =
      let p : RenderedPeer = record {
        public_key = key;
        assigned_address = address;
        persistent_keepalive_seconds = none;
        generation = g;
      } in
      rw ok (
        applied_as ran again (enables key address g) (with_peer p (read_last_known_good d.host)) d k
          (peer-with_peer k p (read_last_known_good d.host)))

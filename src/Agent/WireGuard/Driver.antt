-- ===== src/Agent/WireGuard/Driver.antt =====
-- NativeWireGuardDriver of services/vpn-agent/src/nebula_agent/drivers/wireguard.py. What the `wg`
-- program does is an argument of each call.
use vpn.Prelude.{ℕ, Bool, true, false, ◌&&◌, Option, none, some, List, [], ◌∷◌, ◌==◌, if◌then◌else◌}
use vpn.Agent.WireGuard.{
  IpAddress, v4, v6, host_prefix, RenderedPeer, DesiredInterfaceState, without_peer, with_peer,
  peer, WireGuardInterfaceIdentity, Line, render_wireguard_config, Host, read_last_known_good,
  write_candidate_atomically, promote_candidate_to_last_known_good, rollback_text,
}

-- How `wg syncconf` ends: the interface has the file's configuration, or the given lines after an
-- exit with an error or after it is killed when its time is over.
pub data Ran : Type 0 where
  succeeded : Ran
  failed timed_out : List Line → Ran

-- How `run_fixed_argv` ends: with the return code 0, with another, or with `SubprocessTimeoutError`.
pub data Completed : Type 0 where
  zero_code error_code_left timeout_error : Completed

abbrev pub syncconf : Ran → List Line → Host → Completed × Host
syncconf succeeded text h = (zero_code, record h { interface = text })
syncconf (failed left) text h = (error_code_left, record h { interface = left })
syncconf (timed_out left) text h = (timeout_error, record h { interface = left })

-- How `_apply_delta` ends: it returns, or raises `ApplyError`, `RollbackFailedError` or
-- `SubprocessTimeoutError`.
pub data Applied : Type 0 where
  applied apply_error rollback_failed subprocess_timeout : Applied

abbrev pub rolled_back : Completed × Host → Applied × Host
rolled_back (zero_code, h) = (apply_error, h)
rolled_back (error_code_left, h) = (rollback_failed, h)
rolled_back (timeout_error, h) = (subprocess_timeout, h)

-- `_rollback`
abbrev pub rollback : WireGuardInterfaceIdentity → Ran → Host → Applied × Host
rollback identity ran h =
    let text = rollback_text identity h in
    rolled_back (syncconf ran text (write_candidate_atomically text h))

abbrev pub after_sync : WireGuardInterfaceIdentity → Ran → Completed × Host → Applied × Host
after_sync identity again (zero_code, h) = (applied, promote_candidate_to_last_known_good h)
after_sync identity again (error_code_left, h) = rollback identity again h
after_sync identity again (timeout_error, h) = (subprocess_timeout, h)

-- `_apply_delta`, with the ends of its call of `wg syncconf` and of the rollback's.
unfoldable pub apply_delta :
    WireGuardInterfaceIdentity → Ran → Ran → DesiredInterfaceState → Host → Applied × Host
apply_delta identity ran again desired h =
    let text = render_wireguard_config desired (some identity) in
    after_sync identity again (syncconf ran text (write_candidate_atomically text h))

abbrev pub generation_of : Option RenderedPeer → ℕ
generation_of none = 0
generation_of (some p) = p.generation

-- `_last_applied_generation`
abbrev pub last_applied_generation : DesiredInterfaceState → ℕ → ℕ
last_applied_generation current key = generation_of (peer key current)

pub data DeviceState : Type 0 where
  active revoked enabled disabled failed : DeviceState

-- `error_code` is whether it is "apply_failed"; the columns that come from the settings are left out.
pub record Response : Type 0 where
  pub state : DeviceState
  pub applied_generation : ℕ
  pub error_code : Bool

-- How an operation ends: with a response, or with the error that it raises.
pub data Answer : Type 0 where
  answered : Response → Answer
  raised_validation raised_apply raised_rollback raised_timeout : Answer

-- `except (ValidationError, ApplyError)` around the application.
abbrev pub answer_of : DeviceState → ℕ → ℕ → Applied → Answer
answer_of state desired previous applied =
    answered (record { state = state; applied_generation = desired; error_code = false })
answer_of state desired previous apply_error =
    answered
      (record { state = DeviceState.failed; applied_generation = previous; error_code = true })
answer_of state desired previous rollback_failed = raised_rollback
answer_of state desired previous subprocess_timeout = raised_timeout

-- The driver's cached key, and the host.
pub record DriverState : Type 0 where
  pub server_public_key : Option ℕ
  pub host : Host

-- `_server_pubkey`, with what `wg pubkey` prints, `none` where it exits with an error. That the key
-- file cannot be read, or that `wg pubkey` runs out of time, is left out.
abbrev pub server_pubkey : Option ℕ → Option ℕ → Option ℕ
server_pubkey (some cached) printed = some cached
server_pubkey none printed = printed

module _ (identity : WireGuardInterfaceIdentity) (in_pool : IpAddress → Bool) where
  -- The application, its answer, and the driver afterwards.
  abbrev pub apply_and_answer :
      Ran → Ran → DeviceState → ℕ → ℕ → DesiredInterfaceState → DriverState → Answer × DriverState
  apply_and_answer ran again state key desired_generation desired d =
      let current = read_last_known_good d.host in
      let (result, host) = apply_delta identity ran again desired d.host in
      (
        answer_of state desired_generation (last_applied_generation current key) result,
        record d { host = host },
      )

  abbrev pub provision_with :
      Ran → Ran → RenderedPeer → Option ℕ → DriverState → Answer × DriverState
  provision_with ran again p none d = (raised_apply, d)
  provision_with ran again p (some server_public_key) d =
      apply_and_answer ran again active p.public_key p.generation
        (with_peer p (read_last_known_good d.host))
        (record d { server_public_key = some server_public_key })

  -- `provision_device`, by the peer of the request.
  unfoldable pub provision_device :
      Ran → Ran → Option ℕ → RenderedPeer → DriverState → Answer × DriverState
  provision_device ran again printed p d =
      if in_pool p.assigned_address
      then provision_with ran again p (server_pubkey d.server_public_key printed) d
      else (raised_validation, d)

  -- `revoke_device`
  unfoldable pub revoke_device : Ran → Ran → ℕ → ℕ → DriverState → Answer × DriverState
  revoke_device ran again key desired_generation d =
      apply_and_answer ran again revoked key desired_generation
        (without_peer key (read_last_known_good d.host)) d

  -- `enable_device`, by the peer of the request, which has no keepalive.
  unfoldable pub enable_device : Ran → Ran → ℕ → IpAddress → ℕ → DriverState → Answer × DriverState
  enable_device ran again key address desired_generation d =
      let p : RenderedPeer = record {
        public_key = key;
        assigned_address = address;
        persistent_keepalive_seconds = none;
        generation = desired_generation;
      } in
      if in_pool address
      then apply_and_answer ran again enabled key desired_generation
          (with_peer p (read_last_known_good d.host)) d
      else (raised_validation, d)

  -- `disable_device`
  unfoldable pub disable_device : Ran → Ran → ℕ → ℕ → DriverState → Answer × DriverState
  disable_device ran again key desired_generation d =
      apply_and_answer ran again disabled key desired_generation
        (without_peer key (read_last_known_good d.host)) d

pub data Outcome : Type 0 where
  in_sync drift_detected ambiguous : Outcome

-- The allowed addresses of a row of `wg show dump`: one address with its prefix, or another text.
pub data AllowedIps : Type 0 where
  cidr : IpAddress → ℕ → AllowedIps
  text : ℕ → AllowedIps

abbrev pub later_or : ℕ → ℕ → AllowedIps → Option AllowedIps → Option AllowedIps
later_or key k ips none = if k == key then some ips else none
later_or key k ips (some later) = some later

-- `parse_show_dump(...).get(...)`, over the rows; the last one of a key counts.
abbrev pub live_allowed_ips : ℕ → List (ℕ × AllowedIps) → Option AllowedIps
live_allowed_ips key [] = none
live_allowed_ips key ((k, ips) ∷ rows) = later_or key k ips (live_allowed_ips key rows)

abbrev pub same_address : IpAddress → IpAddress → Bool
same_address (v4 a) (v4 b) = a == b
same_address (v4 a) (v6 b) = false
same_address (v6 a) (v4 b) = false
same_address (v6 a) (v6 b) = a == b

-- `live_allowed_ips == expected_allowed_ips(...)`
abbrev pub is_expected : IpAddress → AllowedIps → Bool
is_expected address (cidr a prefix) = same_address a address && (prefix == host_prefix address)
is_expected address (text t) = false

pub record ReconcileResponse : Type 0 where
  pub outcome : Outcome
  pub observed_generation : Option ℕ

abbrev pub compared : IpAddress → Option AllowedIps → Option RenderedPeer → ReconcileResponse
compared address none recorded = record { outcome = drift_detected; observed_generation = none }
compared address (some ips) none = record { outcome = drift_detected; observed_generation = none }
compared address (some ips) (some p) =
    let outcome =
      if is_expected address ips && same_address p.assigned_address address
      then in_sync
      else ambiguous in
    record { outcome = outcome; observed_generation = some p.generation }

-- `reconcile`, with the rows that `wg show dump` prints, `none` where it fails.
unfoldable pub reconcile :
    Option (List (ℕ × AllowedIps)) → ℕ → IpAddress → DriverState → ReconcileResponse
reconcile none key address d = record { outcome = ambiguous; observed_generation = none }
reconcile (some rows) key address d =
    compared address (live_allowed_ips key rows) (peer key (read_last_known_good d.host))

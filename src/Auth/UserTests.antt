-- ===== src/Auth/UserTests.antt =====
-- Two sessions for services/api/src/nebula_api/auth/user_service.py, and the theorems at them.
use vpn.Prelude.{Option, ℕ, ◌+◌, ◌*◌, ◌≤◌, ◌≡◌, refl, true, none, some, List, [], ◌∷◌}
use vpn.Db.{AccountState, LifecycleState, User, Device, Db}
use vpn.Auth.Redis.{replied}
use vpn.Auth.OpaqueTokens.{OpaqueTokenDigest}
use vpn.Auth.Users.{TokenState, UserSession, RefreshToken, AuthDb, find_session, find_token}
use vpn.Auth.Users.Refresh.{
  accepted, rejected, UserTokenPair, new_refresh_token, refresh, load_principal, AuthenticatedUser,
}
use vpn.Auth.Users.Revoke.{revoke_session, revoke_active_device_sessions}
use vpn.Auth.Users.Passwords.{change_password}
use vpn.Auth.Users.Devices.{active_devices}
use vpn.Auth.Users.Login.{open_session, Fresh, login}
use vpn.Auth.Users.Limit.{login-limit}
use vpn.Auth.Users.Rows.{holds, has_ended}
use vpn.Auth.Users.Runs.{Op, opens, refreshes, changes_password, step, run}
use vpn.Auth.Users.Ended.{run-ended}
use vpn.Auth.Users.Reuse.{refresh-reuse}
use vpn.Auth.Users.OneActive.{OneActive, IsFresh, starts, steps, Reaches-OneActive}

abbrev digest : ℕ → OpaqueTokenDigest
digest value = record { key_version = 1; value = value }

abbrev user : User
user = record {
  id = 1;
  state = AccountState.active;
  password_hash = some 77;
  device_limit = 3;
  expires_at = none;
  traffic_quota_bytes = none;
  traffic_baseline_bytes = 0;
  quota_exhausted_at = none;
}

abbrev device : ℕ → Device
device id = record {
  id = id;
  user_id = 1;
  state = LifecycleState.active;
  hardware_hash = none;
  hardware_key_version = none;
}

abbrev tables : Db
tables = record {
  users = user ∷ [];
  devices = device 5 ∷ device 6 ∷ [];
  peers = [];
  clients = [];
  credentials = [];
  assignments = [];
  permissions = [];
  audit_logs = [];
}

abbrev session : ℕ → ℕ → LifecycleState → UserSession
session id device_id state = record {
  id = id;
  user_id = 1;
  device_id = device_id;
  state = state;
  expires_at = 900;
  last_seen_at = some 10;
  revoked_at = none;
}

-- A session that is over, on device 5, and one that goes on, on device 6.
abbrev db : AuthDb
db = record {
  tables = tables;
  sessions = session 20 5 LifecycleState.revoked ∷ session 21 6 LifecycleState.active ∷ [];
  tokens = new_refresh_token 30 20 (digest 300) 800 ∷ new_refresh_token 31 21 (digest 310) 800 ∷ [];
  resets = [];
  events = [];
}

abbrev principal : AuthenticatedUser
principal = record { user_id = 1; session_id = 21; device_id = 6 }

abbrev ops : List Op
ops =
    refreshes (replied true) (some (digest 310)) 100 9 32 (digest 320)
    ∷ refreshes (replied true) (some (digest 300)) 110 9 33 (digest 330)
    ∷ changes_password (replied true) principal true 88 9 120
    ∷ []

abbrev pair : UserTokenPair
pair = record {
  user_id = 1;
  session_id = 21;
  refresh_token = new_refresh_token 32 21 (digest 320) 800;
}

-- A token that is refused leaves its row, with the time of the revocation.
abbrev ended_token : RefreshToken
ended_token = record (new_refresh_token 30 20 (digest 300) 800) {
  state = TokenState.revoked;
  revoked_at = some 110;
}

ended_token_found : find_token (digest 300) (run ops db).tokens ≡ some ended_token
unfolding run step refresh revoke_session change_password
ended_token_found = refl

run-ended_example :
    let db' = run ops db in
    ((refresh (replied true) (some (digest 300)) 200 9 34 (digest 340) db').0 ≡ rejected)
    × (load_principal 1 20 200 db' ≡ rejected)
run-ended_example =
    run-ended 20 1 200 9 34 (digest 300) (digest 340) ended_token ops db refl ended_token_found refl

refreshed : (refresh (replied true) (some (digest 310)) 100 9 32 (digest 320) db).0 ≡ accepted pair
unfolding refresh
refreshed = refl

refresh-reuse_example :
    let later =
      run
        (refreshes (replied true) (some (digest 320)) 110 9 33 (digest 330) ∷ [])
        (refresh (replied true) (some (digest 310)) 100 9 32 (digest 320) db).1 in
    let (reply, db') = refresh (replied true) (some (digest 310)) 120 9 34 (digest 340) later in
    (reply ≡ rejected) × (holds has_ended (find_session 21 db'.sessions) ≡ true)
refresh-reuse_example =
    refresh-reuse (digest 310) (digest 320) (digest 340) 100 120 9 9 32 34 pair
      (refreshes (replied true) (some (digest 320)) 110 9 33 (digest 330) ∷ []) db refreshed

abbrev no_sessions : AuthDb
no_sessions = record { tables = tables; sessions = []; tokens = []; resets = []; events = [] }

abbrev signs_in : Op
signs_in = opens 1 5 20 30 (digest 300) 30 100

abbrev signs_in_again : Op
signs_in_again = opens 1 5 21 31 (digest 310) 30 200

signs_in_again-IsFresh : IsFresh signs_in_again (step signs_in no_sessions)
unfolding step open_session revoke_active_device_sessions
signs_in_again-IsFresh = refl

abbrev signed_in_twice : AuthDb
signed_in_twice = step signs_in_again (step signs_in no_sessions)

Reaches-OneActive_example : OneActive signed_in_twice.sessions signed_in_twice.tokens
Reaches-OneActive_example = Reaches-OneActive signed_in_twice (
    steps signs_in_again (step signs_in no_sessions)
      (steps signs_in no_sessions (starts no_sessions refl refl) refl) signs_in_again-IsFresh)

abbrev hmac : ℕ → ℕ → ℕ
hmac key hardware_id = key + hardware_id

abbrev peppers : ℕ → Option ℕ
peppers version = some (version * 100)

abbrev fresh : Fresh
fresh = record { device_id = 7; session_id = 22; token_id = 35; digest = digest 350 }

-- A phone that was never seen registers the account's third device.
login-limit_example :
    let after =
      (login hmac peppers 1 30
        (replied true)
        (replied true)
        (some user)
        true
        none
        (some 9)
        (some 4)
        fresh
        9
        200
        db).1 in
    active_devices 1 after.tables.devices ≤ 3
login-limit_example =
    login-limit hmac peppers 1 30 1 9 200 (replied true) (replied true) user true none (some 9)
      (some 4) fresh db

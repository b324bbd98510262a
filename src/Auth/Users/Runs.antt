-- ===== src/Auth/Users/Runs.antt =====
-- Runs of the operations on users' sessions of services/api/src/nebula_api/auth/user_service.py, in
-- any order.
use vpn.Prelude.{ℕ, Bool, Option, List, [], ◌∷◌}
use vpn.Auth.Redis.{Reply}
use vpn.Auth.OpaqueTokens.{OpaqueTokenDigest}
use vpn.Auth.Users.{AuthDb}
use vpn.Auth.Users.Refresh.{refresh, logout, AuthenticatedUser}
use vpn.Auth.Users.Passwords.{confirm_password_reset, change_password}
use vpn.Auth.Users.Login.{open_session}

pub data Op : Type 0 where
  opens : ℕ → ℕ → ℕ → ℕ → OpaqueTokenDigest → ℕ → ℕ → Op
  refreshes : Reply Bool → Option OpaqueTokenDigest → ℕ → ℕ → ℕ → OpaqueTokenDigest → Op
  logs_out : Option OpaqueTokenDigest → ℕ → Op
  resets_password : Reply Bool → Reply Bool → Option OpaqueTokenDigest → ℕ → ℕ → Op
  changes_password : Reply Bool → AuthenticatedUser → Bool → ℕ → ℕ → ℕ → Op

unfoldable pub step : Op → AuthDb → AuthDb
step (opens user_id device_id session_id token_id digest days now) db =
    (open_session user_id device_id session_id token_id digest days now db).1
step (refreshes limit d now request_id successor_id digest) db =
    (refresh limit d now request_id successor_id digest db).1
step (logs_out d now) db = logout d now db
step (resets_password by_token by_network d new_hash now) db =
    (confirm_password_reset by_token by_network d new_hash now db).1
step (changes_password limit principal valid new_hash request_id now) db =
    (change_password limit principal valid new_hash request_id now db).1

unfoldable pub run : List Op → AuthDb → AuthDb
run [] db = db
run (op ∷ ops) db = run ops (step op db)

-- ===== src/Auth/Redis/Keyed.antt =====
-- A Redis that is a function of the key.
use vpn.Prelude.{ℕ, Option, none, some, ◌==◌, if◌then◌else◌, refl}
use vpn.Auth.Redis.{Redis, Entry, aged}

abbrev pub keyed : (V : Type 0) → Redis V
keyed V = record {
  Store = ℕ → Option (Entry V);
  get = λ k s. s k;
  put = λ k e s j. if k == j then some e else s j;
  del = λ k s j. if k == j then none else s j;
  pass = λ t s j. aged t (s j);
  get-put = λ j k e s. refl;
  get-del = λ j k s. refl;
  get-pass = λ k t s. refl;
}

abbrev pub no_keys : {V : Type 0} → ℕ → Option (Entry V)
no_keys k = none

-- ===== src/SecretManager/Calls.antt =====
-- internal/secretmanager/store.go: a history of the store, as the calls that may write.
use blitzy_localgcp.Base.{ℕ, List, [], ◌∷◌, Str, Dict}
use blitzy_localgcp.SecretManager.Data.{Store}
use blitzy_localgcp.SecretManager.{
  create_secret, delete_secret, add_secret_version, enable_secret_version, disable_secret_version,
  destroy_secret_version,
}

-- A call of the store that may write.
pub data Call : Type 0 where
  create : ℕ → Str → Str → Dict Str → Call
  delete : Str → Call
  add_version : ℕ → Str → List ℕ → Call
  enable disable : Str → Str → Call
  destroy : ℕ → Str → Str → Call

abbrev pub step : Store → Call → Store
step s (create now parent id labels) = (create_secret s now parent id labels).1
step s (delete name) = (delete_secret s name).1
step s (add_version now name payload) = (add_secret_version s now name payload).1
step s (enable name id) = (enable_secret_version s name id).1
step s (disable name id) = (disable_secret_version s name id).1
step s (destroy now name id) = (destroy_secret_version s now name id).1

abbrev pub run : Store → List Call → Store
run s [] = s
run s (c ∷ cs) = run (step s c) cs

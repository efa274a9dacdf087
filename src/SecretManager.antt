-- ===== src/SecretManager.antt =====
-- internal/secretmanager/store.go: the operations of the store. Each takes the time where the
-- source reads the clock, and returns its result and the new store.
pub mod Data
pub mod Persistence
pub mod Versions
mod Pointers
pub mod Calls
pub mod Invariant
pub mod Preservation
pub mod Access
pub mod Numbers
pub mod Destroyed
pub mod Finality
pub mod Service
pub mod Examples
use blitzy_localgcp.Base.{
  ℕ, suc, zero, ◌+◌, ◌-◌, ◌^◌, ◌%◌, List, [], ◌∷◌, ◌++◌, length, Option, none, some, Bool, true,
  false, Str, bytes, str_eq, has_prefix, ltb, ◌&&◌, Dict, lookup, insert, erase, alter, has_key,
  if◌then◌else◌, Result, ok, err, ◌>>=◌, format_decimal, sort_by_name,
}
use blitzy_localgcp.SecretManager.Data.{
  VersionState, enabled, disabled, destroyed, SecretVersion, VersionData, Secret, SecretData, Store,
}
use blitzy_localgcp.SecretManager.Persistence.{persist}
use blitzy_localgcp.SecretManager.Versions.{
  version_name, secret_path, not_found, already_exists, new_version, append_version, resolve_in,
  readable, versions_of, write_at, with_state, is_destroyed, destroyed_at,
}

-- The result of a call, with the store that it leaves.
abbrev pub Outcome : Type 0 → Type 0
Outcome A = Result Str A × Store

pub create_secret : Store → ℕ → Str → Str → Dict Str → Outcome Secret
create_secret s now parent secret_id labels =
    let name = secret_path parent secret_id in
    let secret : Secret = record { name = name; create_time = now; labels = labels } in
    let data_of : SecretData = record { secret = secret; versions = []; next_version = 1 } in
    if has_key name s.secrets
    then (err (already_exists name), s)
    else (ok secret, persist (record s { secrets = insert name data_of s.secrets }))

pub get_secret : Store → Str → Result Str Secret
get_secret s name = elim (lookup name s.secrets) [
  | none ↦ err (not_found name)
  | some sd ↦ ok sd.secret
]

-- The secrets whose key is longer than the prefix and begins with it.
secrets_under : Str → Dict SecretData → List Secret
secrets_under prefix [] = []
secrets_under prefix ((name, sd) ∷ m) =
    if ltb (length prefix) (length name) && has_prefix name prefix
    then sd.secret ∷ secrets_under prefix m
    else secrets_under prefix m

pub list_secrets : Store → Str → List Secret
unfolding secrets_under
list_secrets s parent =
    sort_by_name (λ secret. secret.name) (secrets_under (parent ++ bytes "/secrets/") s.secrets)

pub delete_secret : Store → Str → Outcome (Unit {0})
delete_secret s name =
    if has_key name s.secrets
    then (ok tt, persist (record s { secrets = erase name s.secrets }))
    else (err (not_found name), s)

pub add_secret_version : Store → ℕ → Str → List ℕ → Outcome SecretVersion
unfolding append_version
add_secret_version s now secret_name payload = elim (lookup secret_name s.secrets) [
  | none ↦ (err (not_found secret_name), s)
  | some sd ↦ (
    ok (new_version secret_name sd.next_version now),
    persist (record s {
      secrets = alter secret_name (append_version now secret_name payload) s.secrets;
    }),
  )
]

-- A pointer to a version is its place in the slice of its secret.
pub resolve_version : Store → Str → Str → Result Str (ℕ × VersionData)
unfolding resolve_in
resolve_version s secret_name version_id = elim (lookup secret_name s.secrets) [
  | none ↦ err (not_found secret_name)
  | some sd ↦ resolve_in secret_name version_id sd.versions
]

pub get_secret_version : Store → Str → Str → Result Str SecretVersion
get_secret_version s secret_name version_id = do
  (i, vd) ← resolve_version s secret_name version_id
  ok vd.version

pub access_secret_version : Store → Str → Str → Result Str (SecretVersion × Option (List ℕ))
unfolding readable
access_secret_version s secret_name version_id = do
  (i, vd) ← resolve_version s secret_name version_id
  readable vd vd.version.state

pub list_secret_versions : Store → Str → Result Str (List SecretVersion)
unfolding versions_of
list_secret_versions s secret_name = elim (lookup secret_name s.secrets) [
  | none ↦ err (not_found secret_name)
  | some sd ↦ ok (versions_of sd.versions)
]

store_version : Store → Str → ℕ → VersionData → Store
unfolding write_at
store_version s secret_name i vd = persist (record s {
  secrets = alter secret_name (λ sd. record sd { versions = write_at i vd sd.versions }) s.secrets;
})

-- Enable and disable: refused on a destroyed version.
set_state : VersionState → Store → Str → ℕ → VersionData → VersionState → Outcome SecretVersion
unfolding store_version with_state
set_state state s secret_name i vd destroyed = (err (is_destroyed vd.version.name), s)
set_state state s secret_name i vd _ =
    ((ok (with_state state vd).version), store_version s secret_name i (with_state state vd))

pub enable_secret_version : Store → Str → Str → Outcome SecretVersion
unfolding set_state
enable_secret_version s secret_name version_id = elim (resolve_version s secret_name version_id) [
  | err e ↦ (err e, s)
  | ok (i, vd) ↦ set_state enabled s secret_name i vd vd.version.state
]

pub disable_secret_version : Store → Str → Str → Outcome SecretVersion
unfolding set_state
disable_secret_version s secret_name version_id = elim (resolve_version s secret_name version_id) [
  | err e ↦ (err e, s)
  | ok (i, vd) ↦ set_state disabled s secret_name i vd vd.version.state
]

pub destroy_secret_version : Store → ℕ → Str → Str → Outcome SecretVersion
unfolding store_version destroyed_at
destroy_secret_version s now secret_name version_id =
    elim (resolve_version s secret_name version_id) [
      | err e ↦ (err e, s)
      | ok (i, vd) ↦
          ((ok (destroyed_at now vd).version), store_version s secret_name i (destroyed_at now vd))
    ]

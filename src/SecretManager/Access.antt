-- ===== src/SecretManager/Access.antt =====
-- internal/secretmanager/store.go: reading a version after it was added.
use blitzy_localgcp.Base.{
  ℕ, suc, ◌+◌, ◌≡◌, refl, ◌∙◌, List, [], ◌∷◌, ◌++◌, length, some, arith, Str, bytes, str_eq_refl,
  lookup, lookup-alter, ok,
}
use blitzy_localgcp.SecretManager.Data.{VersionData, SecretData, Store}
use blitzy_localgcp.SecretManager.Versions.{
  new_version, append_version, resolve_in, last_version, readable,
}
use blitzy_localgcp.SecretManager.Invariant.{secrets-persist}
use blitzy_localgcp.SecretManager.{add_secret_version, access_secret_version, resolve_version}

last_version-append :
    (i : ℕ) (x : VersionData) (xs : List VersionData) (vd : VersionData)
    → last_version i x (xs ++ vd ∷ []) ≡ (i + 1 + length xs, vd)
unfolding last_version
last_version-append i x [] vd = λ k. (suc_eq k, vd)
  where
    suc_eq : suc i ≡ i + 1 + 0
    suc_eq = omega arith
last_version-append i x (y ∷ xs) vd = last_version-append (suc i) y xs vd ∙ (λ k. (suc_eq k, vd))
  where
    suc_eq : suc i + 1 + length xs ≡ i + 1 + suc (length xs)
    suc_eq = omega arith

latest_in :
    (name : Str) (vds : List VersionData) (vd : VersionData)
    → resolve_in name (bytes "latest") (vds ++ vd ∷ []) ≡ ok (length vds, vd)
unfolding resolve_in
latest_in name [] vd = rw (str_eq_refl (bytes "latest")) (unfold last_version in refl)
latest_in name (x ∷ xs) vd =
    rw (str_eq_refl (bytes "latest"), last_version-append 0 x xs vd) (λ k. ok (n_eq k, vd))
  where
    n_eq : 0 + 1 + length xs ≡ suc (length xs)
    n_eq = omega arith

-- The secret after the call that adds a version to it.
lookup-add :
    (s : Store) (now : ℕ) (name : Str) (payload : List ℕ) (sd : SecretData)
    → lookup name s.secrets ≡ some sd
    → lookup name (add_secret_version s now name payload).1.secrets
      ≡ some (append_version now name payload sd)
unfolding add_secret_version
lookup-add s now name payload sd found = rw (
  found,
  add_secret_version,
  secrets-persist,
  lookup-alter name name _ s.secrets,
  str_eq_refl name,
  found,
)

-- `latest` is the version that was added last, with the payload that was given, whatever versions
-- the secret has.
pub access-add_latest :
    (s : Store) (now : ℕ) (name : Str) (payload : List ℕ) (sd : SecretData)
    → lookup name s.secrets ≡ some sd
    → access_secret_version (add_secret_version s now name payload).1 name (bytes "latest")
      ≡ ok (new_version name sd.next_version now, some payload)
unfolding access_secret_version resolve_version append_version
access-add_latest s now name payload sd found =
    rw (lookup-add s now name payload sd found, resolve_version)
      (rw (latest_in name sd.versions _) (unfold readable new_version in refl))

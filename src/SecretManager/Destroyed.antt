-- ===== src/SecretManager/Destroyed.antt =====
-- internal/secretmanager/store.go: what it is for a version to be destroyed.
use mathlib.Core.Option.{some-injective}
use blitzy_localgcp.Base.{
  ℕ, zero, suc, ◌≡◌, ◌≢◌, sym, ap, ◌∙◌, List, [], ◌∷◌, ◌++◌, none, some, Str, str_eq, str_eq_iff,
  lookup, lookup-alter, alter, Bool-cases, inl, inr, get_elem?, ◌⊎◌,
}
use blitzy_localgcp.SecretManager.Data.{destroyed, VersionData, SecretData, Store}
use blitzy_localgcp.SecretManager.Versions.{write_at}

-- The slice has a destroyed version without payload at place `i`.
abbrev pub DestroyedIn : ℕ → List VersionData → Type 0
DestroyedIn i [] = ⊥
DestroyedIn zero (vd ∷ vds) = (vd.version.state ≡ destroyed) × (vd.payload ≡ none)
DestroyedIn (suc i) (vd ∷ vds) = DestroyedIn i vds

-- The version at place `i` of the secret `name` is destroyed.
pub record IsDestroyed (name : Str) (i : ℕ) (s : Store) : Type 0 where
  pub data_of : SecretData
  pub found : lookup name s.secrets ≡ some data_of
  pub gone : DestroyedIn i data_of.versions

pub DestroyedIn-append :
    (i : ℕ) (xs ys : List VersionData) → DestroyedIn i xs → DestroyedIn i (xs ++ ys)
DestroyedIn-append i [] ys h = absurd h
DestroyedIn-append zero (x ∷ xs) ys h = h
DestroyedIn-append (suc i) (x ∷ xs) ys h = DestroyedIn-append i xs ys h

-- A write through a pointer to a version that is not destroyed, or of a destroyed version.
pub DestroyedIn-write :
    (i j : ℕ) (old vd : VersionData) (vds : List VersionData)
    → get_elem? vds j ≡ some old
    → (old.version.state ≢ destroyed) ⊎ ((vd.version.state ≡ destroyed) × (vd.payload ≡ none))
    → DestroyedIn i vds
    → DestroyedIn i (write_at j vd vds)
unfolding write_at
DestroyedIn-write i j old vd [] g o h = h
DestroyedIn-write zero zero old vd (x ∷ xs) g (inl live) h =
    absurd (live (ap (λ (v : VersionData). v.version.state) (sym (some-injective _ _ g)) ∙ h.0))
DestroyedIn-write zero zero old vd (x ∷ xs) g (inr d) h = d
DestroyedIn-write (suc i) zero old vd (x ∷ xs) g o h = h
DestroyedIn-write zero (suc j) old vd (x ∷ xs) g o h = h
DestroyedIn-write (suc i) (suc j) old vd (x ∷ xs) g o h = DestroyedIn-write i j old vd xs g o h

-- A change of one secret that keeps its destroyed versions.
pub alter-IsDestroyed :
    (s t : Store) (name key : Str) (i : ℕ) (f : SecretData → SecretData)
    → t.secrets ≡ alter key f s.secrets
    → ((sd : SecretData)
        → lookup key s.secrets ≡ some sd
        → DestroyedIn i sd.versions
        → DestroyedIn i (f sd).versions)
    → IsDestroyed name i s
    → IsDestroyed name i t
alter-IsDestroyed s t name key i f e keep d = elim (Bool-cases (str_eq key name)) [
  | inl same ↦ record {
    data_of = f d.data_of;
    found = rw (e, lookup-alter key name f s.secrets, same, d.found);
    gone = keep d.data_of (rw ((str_eq_iff key name).0 same) d.found) d.gone;
  }
  | inr other ↦ record {
    data_of = d.data_of;
    found = rw (e, lookup-alter key name f s.secrets, other) d.found;
    gone = d.gone;
  }
]

-- ===== src/SecretManager/Invariant.antt =====
-- internal/secretmanager/store.go: the form of a store, and of its parts.
use blitzy_localgcp.Base.{
  format_int32, ℕ, zero, suc, ◌+◌, ◌^◌, ◌%◌, ◌<◌, ◌∙◌, ◌≡◌, sym, get_elem?, refl, ap, List, [], ◌∷◌,
  ◌++◌, length, length-append, Option, none, subst, some, arith, Str, Everywhere,
}
use mathlib.Core.Option.{some-injective}
use blitzy_localgcp.SecretManager.Data.{VersionState, destroyed, VersionData, SecretData, Store}
use blitzy_localgcp.SecretManager.Persistence.{persist}
use blitzy_localgcp.SecretManager.Versions.{version_name, append_version, new_version, write_at}

-- A destroyed version has no payload, and every other version has one.
abbrev pub PayloadFits : VersionState → Option (List ℕ) → Type 0
PayloadFits destroyed none = Unit {0}
PayloadFits destroyed (some p) = ⊥
PayloadFits _ none = ⊥
PayloadFits _ (some p) = Unit {0}

-- The versions of a secret are numbered one after another, from `n`.
abbrev pub Numbered : Str → ℕ → List VersionData → Type 0
Numbered name n [] = Unit {0}
Numbered name n (vd ∷ vds) =
    (vd.version.name ≡ version_name name (format_int32 n))
    × PayloadFits vd.version.state vd.payload
    × Numbered name ((n + 1) % 2 ^ 32) vds

pub record IsSecret (key : Str) (sd : SecretData) : Type 0 where
  pub named : sd.secret.name ≡ key
  pub next : sd.next_version ≡ (1 + length sd.versions) % 2 ^ 32
  pub numbered : Numbered key 1 sd.versions

-- Every secret is stored under its name, and its versions have the numbers from 1 on.
abbrev pub IsWellFormed : Store → Type 0
IsWellFormed s = Everywhere IsSecret s.secrets

pub secrets-persist : (s : Store) → (persist s).secrets ≡ s.secrets
unfolding persist
secrets-persist s = ground arith

pub Numbered-append :
    (name : Str) (n : ℕ) (vds : List VersionData) (vd : VersionData)
    → n < 2 ^ 32
    → Numbered name n vds
    → vd.version.name ≡ version_name name (format_int32 ((n + length vds) % 2 ^ 32))
    → PayloadFits vd.version.state vd.payload
    → Numbered name n (vds ++ vd ∷ [])
Numbered-append name n [] vd lt h e p =
    (e ∙ ap (λ k. version_name name (format_int32 k)) (omega arith), p, tt)
Numbered-append name n (x ∷ vds) vd lt h e p = (
  h.0,
  h.1,
  Numbered-append name ((n + 1) % 2 ^ 32) vds vd (omega arith) h.2
      (e ∙ ap (λ k. version_name name (format_int32 k)) (omega arith)) p,
)

pub append_version-IsSecret :
    (now : ℕ) (name : Str) (payload : List ℕ) (sd : SecretData)
    → IsSecret name sd
    → IsSecret name (append_version now name payload sd)
unfolding append_version new_version
append_version-IsSecret now name payload sd w = record {
  named = w.named;
  next = omega (
    arith,
    w.next,
    length-append sd.versions
        (record { version = new_version name sd.next_version now; payload = some payload } ∷ []),
  );
  numbered =
      Numbered-append name 1 sd.versions _ (omega arith) w.numbered
        (ap (λ k. version_name name (format_int32 k)) w.next) tt;
}

-- A write through a pointer, of a version of the same name.
pub write_at-Numbered :
    (name : Str) (n i : ℕ) (old vd : VersionData) (vds : List VersionData)
    → get_elem? vds i ≡ some old
    → vd.version.name ≡ old.version.name
    → PayloadFits vd.version.state vd.payload
    → Numbered name n vds
    → Numbered name n (write_at i vd vds)
unfolding write_at
write_at-Numbered name n i old vd [] g e p h = tt
write_at-Numbered name n zero old vd (x ∷ xs) g e p h =
    (e ∙ ap (λ (o : Option VersionData). name_of o) (sym g) ∙ h.0, p, h.2)
  where
    name_of : Option VersionData → Str
    name_of none = []
    name_of (some v) = v.version.name
write_at-Numbered name n (suc i) old vd (x ∷ xs) g e p h =
    (h.0, h.1, write_at-Numbered name ((n + 1) % 2 ^ 32) i old vd xs g e p h.2)

pub length-write_at :
    (i : ℕ) (vd : VersionData) (vds : List VersionData) → length (write_at i vd vds) ≡ length vds
unfolding write_at
length-write_at i vd [] = refl
length-write_at zero vd (x ∷ xs) = refl
length-write_at (suc i) vd (x ∷ xs) = ap suc (length-write_at i vd xs)

pub Numbered-get :
    (name : Str) (n i : ℕ) (vds : List VersionData) (vd : VersionData)
    → Numbered name n vds
    → get_elem? vds i ≡ some vd
    → PayloadFits vd.version.state vd.payload
Numbered-get name n i [] vd h g = cc
Numbered-get name n zero (x ∷ xs) vd h g =
    subst (λ (v : VersionData). PayloadFits v.version.state v.payload) (some-injective _ _ g) h.1
Numbered-get name n (suc i) (x ∷ xs) vd h g = Numbered-get name ((n + 1) % 2 ^ 32) i xs vd h.2 g

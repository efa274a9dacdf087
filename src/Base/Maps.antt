-- ===== src/Base/Maps.antt =====
-- A Go map with string keys, as the list of its entries. The order of the list stands for one
-- order in which `range` may visit the map.
pub mod Invariants
pub mod Distinct
use mathlib.Core.Path.{◌≡◌, refl, ap}
use mathlib.Core.Logic.{◌⊎◌, inl, inr}
use mathlib.Core.Bool.{Bool, true, false}
use mathlib.Core.List.{List, [], ◌∷◌, map}
use mathlib.Core.Option.{Option, none, some}
use native.Mathlib.Omega.{arith}
use blitzy_localgcp.Base.Tests.{if◌then◌else◌, Bool-cases, false→ne}
use blitzy_localgcp.Base.Text.{Str, has_prefix, str_eq, str_eq_iff, str_eq_refl}

abbrev pub Dict {ℓ} : Type ℓ → Type ℓ
Dict V = List (Str × V)

module _ {ℓ} {V : Type ℓ} where
  -- v, ok := m[k]
  unfoldable pub lookup : Str → Dict V → Option V
  lookup k [] = none
  lookup k ((j, v) ∷ m) = if str_eq j k then some v else lookup k m

  -- _, ok := m[k]
  unfoldable pub has_key : Str → Dict V → Bool
  has_key k [] = false
  has_key k ((j, v) ∷ m) = if str_eq j k then true else has_key k m

  -- m[k] = v
  unfoldable pub insert : Str → V → Dict V → Dict V
  insert k v [] = (k, v) ∷ []
  insert k v ((j, w) ∷ m) = if str_eq j k then (k, v) ∷ m else (j, w) ∷ insert k v m

  -- delete(m, k)
  unfoldable pub erase : Str → Dict V → Dict V
  erase k [] = []
  erase k ((j, v) ∷ m) = if str_eq j k then erase k m else (j, v) ∷ erase k m

  -- A write through the pointer that the map holds under `k`.
  unfoldable pub alter : Str → (V → V) → Dict V → Dict V
  alter k f [] = []
  alter k f ((j, v) ∷ m) = if str_eq j k then (j, f v) ∷ m else (j, v) ∷ alter k f m

  -- The values, as `range` visits them.
  unfoldable pub values : Dict V → List V
  values [] = []
  values ((j, v) ∷ m) = v ∷ values m

  -- The keys, as `range` visits them.
  unfoldable pub keys : Dict V → List Str
  keys [] = []
  keys ((j, v) ∷ m) = j ∷ keys m

  -- The values under the keys with a prefix, as `range` visits them.
  unfoldable pub values_under : Str → Dict V → List V
  values_under prefix [] = []
  values_under prefix ((k, v) ∷ m) =
      let rest = values_under prefix m in if has_prefix k prefix then v ∷ rest else rest

  pub lookup-insert :
      (k j : Str) (v : V) (m : Dict V)
      → lookup j (insert k v m) ≡ (if str_eq k j then some v else lookup j m)
  unfolding lookup insert
  lookup-insert k j v [] = refl
  lookup-insert k j v ((i, w) ∷ m) =
      ground (arith, str_eq_iff k j, str_eq_iff i k, str_eq_iff i j, lookup-insert k j v m)

  pub lookup-erase :
      (k j : Str) (m : Dict V) → lookup j (erase k m) ≡ (if str_eq k j then none else lookup j m)
  unfolding lookup erase
  lookup-erase k j [] = ground arith
  lookup-erase k j ((i, w) ∷ m) =
      ground (arith, str_eq_iff k j, str_eq_iff i k, str_eq_iff i j, lookup-erase k j m)

  abbrev pub map_option : (V → V) → Option V → Option V
  map_option f none = none
  map_option f (some v) = some (f v)

  pub lookup-alter :
      (k j : Str) (f : V → V) (m : Dict V)
      → lookup j (alter k f m) ≡ (if str_eq k j then map_option f (lookup j m) else lookup j m)
  unfolding lookup alter
  lookup-alter k j f [] = ground arith
  lookup-alter k j f ((i, w) ∷ m) =
      ground (arith, str_eq_iff k j, str_eq_iff i k, str_eq_iff i j, lookup-alter k j f m)

  pub lookup-insert_self : (k : Str) (v : V) (m : Dict V) → lookup k (insert k v m) ≡ some v
  lookup-insert_self k v m = rw (lookup-insert k k v m, str_eq_refl k) refl

  pub lookup-erase_self : (k : Str) (m : Dict V) → lookup k (erase k m) ≡ none
  lookup-erase_self k m = rw (lookup-erase k k m, str_eq_refl k) refl

  pub has_key-some : (k : Str) (m : Dict V) (v : V) → lookup k m ≡ some v → has_key k m ≡ true
  unfolding lookup has_key
  has_key-some k [] v h = cc
  has_key-some k ((j, w) ∷ m) v h = ground (arith, has_key-some k m v)

  pub has_key-none : (k : Str) (m : Dict V) → lookup k m ≡ none → has_key k m ≡ false
  unfolding lookup has_key
  has_key-none k [] h = refl
  has_key-none k ((j, w) ∷ m) h = ground (arith, has_key-none k m)

  pub has_key-lookup : (k : Str) (m : Dict V) → has_key k m ≡ true → (v : V) × (lookup k m ≡ some v)
  unfolding lookup has_key
  has_key-lookup k [] h = cc
  has_key-lookup k ((j, w) ∷ m) h = elim (Bool-cases (str_eq j k)) [
    | inl e ↦ (w, rw e refl)
    | inr e ↦ rw e (has_key-lookup k m (rw e at h))
  ]

  pub has_key-false : (k : Str) (m : Dict V) → has_key k m ≡ false → lookup k m ≡ none
  unfolding lookup has_key
  has_key-false k [] h = refl
  has_key-false k ((j, w) ∷ m) h = ground (arith, has_key-false k m)

pub ruleset dict_laws = (lookup-insert, lookup-erase, lookup-alter)

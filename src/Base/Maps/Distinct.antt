-- ===== src/Base/Maps/Distinct.antt =====
-- Maps whose entries have distinct keys, and the operations on them.
use mathlib.Core.Path.{◌≡◌, refl, subst}
use mathlib.Core.Logic.{inl, inr}
use mathlib.Core.List.{[], ◌∷◌}
use mathlib.Core.Option.{none}
use native.Mathlib.Omega.{arith}
use blitzy_localgcp.Base.Tests.{Bool-cases}
use blitzy_localgcp.Base.Text.{Str, str_eq, str_eq_iff}
use blitzy_localgcp.Base.Maps.{
  Dict, lookup, insert, erase, alter, lookup-insert, lookup-erase, lookup-alter,
}

abbrev pub IsMap {ℓ} : {V : Type ℓ} → Dict V → Type ℓ
IsMap [] = Unit
IsMap ((k, v) ∷ m) = (lookup k m ≡ none) × IsMap m

module _ {ℓ} {V : Type ℓ} where
  pub insert-IsMap : (k : Str) (v : V) (m : Dict V) → IsMap m → IsMap (insert k v m)
  unfolding insert lookup
  insert-IsMap k v [] h = (refl, tt)
  insert-IsMap k v ((j, w) ∷ m) h = elim (Bool-cases (str_eq j k)) [
    | inl e ↦ rw (e, insert) (subst (λ x. lookup x m ≡ none) ((str_eq_iff j k).0 e) h.0, h.1)
    | inr e ↦
        rw (e, insert)
          (
            (ground (arith, lookup-insert k j v m, str_eq_iff j k, str_eq_iff k j, h.0)),
            insert-IsMap k v m h.1,
          )
  ]

  pub erase-IsMap : (k : Str) (m : Dict V) → IsMap m → IsMap (erase k m)
  unfolding erase
  erase-IsMap k [] h = tt
  erase-IsMap k ((j, w) ∷ m) h = elim (Bool-cases (str_eq j k)) [
    | inl e ↦ rw (e, erase) (erase-IsMap k m h.1)
    | inr e ↦ rw (e, erase) ((ground (arith, lookup-erase k j m, h.0)), erase-IsMap k m h.1)
  ]

  pub alter-IsMap : (k : Str) (f : V → V) (m : Dict V) → IsMap m → IsMap (alter k f m)
  unfolding alter
  alter-IsMap k f [] h = tt
  alter-IsMap k f ((j, w) ∷ m) h = elim (Bool-cases (str_eq j k)) [
    | inl e ↦ rw (e, alter) h
    | inr e ↦ rw (e, alter) ((ground (arith, lookup-alter k j f m, h.0)), alter-IsMap k f m h.1)
  ]

-- ===== src/Base/Maps/Invariants.antt =====
-- A predicate that holds at every entry of a map, and the operations on maps.
use mathlib.Core.Path.{◌≡◌, refl, subst}
use mathlib.Core.Logic.{inl, inr}
use mathlib.Core.List.{[]}
use mathlib.Core.Option.{Option, none, some}
use blitzy_localgcp.Base.Tests.{Bool-cases}
use blitzy_localgcp.Base.Text.{Str, str_eq, str_eq_iff, str_eq_refl}
use blitzy_localgcp.Base.Maps.{
  Dict, lookup, insert, erase, alter, lookup-insert, lookup-erase, lookup-alter, map_option,
}

pub record Everywhere {ℓ κ} {V : Type ℓ} (P : Str → V → Type κ) (m : Dict V) : Type (ℓ ⊔ κ) where
  pub at_key : (k : Str) (v : V) → lookup k m ≡ some v → P k v

module _ {ℓ κ} {V : Type ℓ} where
  altered :
      (P : Str → V → Type κ) (k : Str) (f : V → V) (o : Option V)
      → ((v : V) → o ≡ some v → P k (f v))
      → (w : V) → map_option f o ≡ some w
      → P k w
  altered P k f none new w h = cc
  altered P k f (some v) new w h = subst (P k) (cc) (new v refl)

module _ {ℓ κ} {V : Type ℓ} {P : Str → V → Type κ} where
  pub Everywhere-nil : Everywhere P []
  unfolding lookup
  Everywhere-nil = record { at_key = λ k v h. cc }

  pub Everywhere-insert :
      (k : Str) (v : V) (m : Dict V) → P k v → Everywhere P m → Everywhere P (insert k v m)
  Everywhere-insert k v m new old = record {
    at_key = λ j w h. elim (Bool-cases (str_eq k j)) [
      | inl e ↦
          let same : some v ≡ some w = rw (lookup-insert k j v m, e) at h in
          subst (λ x. P x w) ((str_eq_iff k j).0 e) (subst (P k) (cc same) new)
      | inr e ↦ old.at_key j w (rw (lookup-insert k j v m, e) at h)
    ];
  }

  pub Everywhere-erase : (k : Str) (m : Dict V) → Everywhere P m → Everywhere P (erase k m)
  Everywhere-erase k m old = record {
    at_key = λ j w h. elim (Bool-cases (str_eq k j)) [
      | inl e ↦ let gone : none ≡ some w = rw (lookup-erase k j m, e) at h in cc gone
      | inr e ↦ old.at_key j w (rw (lookup-erase k j m, e) at h)
    ];
  }

  pub Everywhere-alter :
      (k : Str) (f : V → V) (m : Dict V)
      → ((v : V) → lookup k m ≡ some v → P k v → P k (f v))
      → Everywhere P m
      → Everywhere P (alter k f m)
  Everywhere-alter k f m keep old = record {
    at_key = λ j w h. elim (Bool-cases (str_eq k j)) [
      | inl e ↦
          subst (λ x. lookup x (alter k f m) ≡ some w → P x w) ((str_eq_iff k j).0 e)
            (λ g.
              altered P k f (lookup k m) (λ v found. keep v found (old.at_key k v found)) w
                (rw (lookup-alter k k f m, str_eq_refl k) at g))
            h
      | inr e ↦ old.at_key j w (rw (lookup-alter k j f m, e) at h)
    ];
  }

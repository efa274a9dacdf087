-- ===== src/Base/Text.antt =====
-- Go strings as sequences of bytes, with the operations of the package `strings` that are used.
use Prim.Native.Nat.{ℕ}
use Prim.Native.Char.{code}
use Prim.Native.String.{String}
use mathlib.Core.Path.{◌≡◌, refl, ap}
use mathlib.Core.Logic.{◌↔◌, inl, inr}
use mathlib.Core.Bool.{Bool, true, false, ◌&&◌, ◌||◌}
use mathlib.Core.Option.{Option, none, some}
use mathlib.Core.List.{tail, List, [], ◌∷◌, ◌++◌}
use native.Mathlib.Omega.{arith}
use blitzy_localgcp.Base.Tests.{◌==◌, ltb, if◌then◌else◌, Bool-cases}

abbrev pub Str : Type 0
Str = List ℕ

-- The bytes of an ASCII literal.
unfoldable pub bytes : String → Str
bytes String.[] = []
bytes (String.◌∷◌ c s) = code c ∷ bytes s

unfoldable pub str_eq : Str → Str → Bool
str_eq [] [] = true
str_eq [] (y ∷ ys) = false
str_eq (x ∷ xs) [] = false
str_eq (x ∷ xs) (y ∷ ys) = x == y && str_eq xs ys

pub str_eq_iff : (s t : Str) → (str_eq s t ≡ true) ↔ (s ≡ t)
unfolding str_eq
str_eq_iff [] [] = ((λ _. refl), (λ _. refl))
str_eq_iff [] (y ∷ ys) = ((λ h. cc), (λ h. cc))
str_eq_iff (x ∷ xs) [] = ((λ h. cc), (λ h. cc))
str_eq_iff (x ∷ xs) (y ∷ ys) = ground (arith, str_eq_iff xs ys)

pub str_eq_refl : (s : Str) → str_eq s s ≡ true
str_eq_refl s = (str_eq_iff s s).1 refl

pub str_eq-false : (s t : Str) → (s ≡ t → ⊥) → str_eq s t ≡ false
str_eq-false s t ne = elim (Bool-cases (str_eq s t)) [
  | inl e ↦ absurd (ne ((str_eq_iff s t).0 e))
  | inr e ↦ e
]

-- s < t, byte by byte.
unfoldable pub str_ltb : Str → Str → Bool
str_ltb s [] = false
str_ltb [] (y ∷ ys) = true
str_ltb (x ∷ xs) (y ∷ ys) = if x == y then str_ltb xs ys else ltb x y

-- strings.HasPrefix(s, p)
unfoldable pub has_prefix : Str → Str → Bool
has_prefix s [] = true
has_prefix [] (y ∷ ys) = false
has_prefix (x ∷ xs) (y ∷ ys) = x == y && has_prefix xs ys

-- strings.Contains(s, p)
unfoldable pub contains : Str → Str → Bool
unfolding has_prefix
contains [] p = has_prefix [] p
contains (x ∷ xs) p = has_prefix (x ∷ xs) p || contains xs p

-- s[:strings.Index(s, sep)], or `none` for an index of -1
unfoldable pub text_before : Str → Str → Option Str
unfolding has_prefix
text_before sep [] = if has_prefix [] sep then some [] else none
text_before sep (x ∷ s) =
    let rest = text_before sep s in
    if has_prefix (x ∷ s) sep then some [] else elim rest [ none ↦ none | some w ↦ some (x ∷ w) ]

-- strings.Contains(s, "/")
unfoldable pub contains_byte : ℕ → Str → Bool
contains_byte b [] = false
contains_byte b (x ∷ xs) = x == b || contains_byte b xs

abbrev pub cons_head : ℕ → List Str → List Str
cons_head x [] = (x ∷ []) ∷ []
cons_head x (w ∷ ws) = (x ∷ w) ∷ ws

-- strings.Split(s, sep), for a separator of one byte
unfoldable pub split : ℕ → Str → List Str
split sep [] = [] ∷ []
split sep (x ∷ s) = let rest = split sep s in if x == sep then [] ∷ rest else cons_head x rest

-- strings.Join(parts, sep), for a separator of one byte
unfoldable pub join : ℕ → List Str → Str
join sep [] = []
join sep (w ∷ []) = w
join sep (w ∷ v ∷ ws) = w ++ sep ∷ join sep (v ∷ ws)

pub has_prefix-append : (p s : Str) → has_prefix (p ++ s) p ≡ true
unfolding has_prefix
has_prefix-append [] [] = refl
has_prefix-append [] (x ∷ s) = refl
has_prefix-append (x ∷ p) s = ground (arith, has_prefix-append p s)

pub contains-append : (p s : Str) → contains (p ++ s) p ≡ true
unfolding contains
contains-append [] [] = refl
contains-append [] (x ∷ s) = refl
contains-append (x ∷ p) s = ground (arith, has_prefix-append (x ∷ p) s)

pub append_cancel : (p s t : Str) → p ++ s ≡ p ++ t → s ≡ t
append_cancel [] s t h = h
append_cancel (x ∷ p) s t h = append_cancel p s t (ap tail h)

-- A part without the separator is split off whole.
pub split-append :
    (sep : ℕ) (w s : Str) → contains_byte sep w ≡ false → split sep (w ++ sep ∷ s) ≡ w ∷ split sep s
unfolding split contains_byte
split-append sep [] s h = ground arith
split-append sep (x ∷ w) s h = ground (arith, split-append sep w s)

pub split_whole : (sep : ℕ) (w : Str) → contains_byte sep w ≡ false → split sep w ≡ w ∷ []
unfolding split contains_byte
split_whole sep [] h = refl
split_whole sep (x ∷ w) h = ground (arith, split_whole sep w)

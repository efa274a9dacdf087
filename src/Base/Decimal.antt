-- ===== src/Base/Decimal.antt =====
-- The format %d of a number that is not negative, and its inverse.
use Prim.Native.Nat.{ℕ, zero, suc, ◌+◌, ◌-◌, ◌*◌, ◌/◌, ◌%◌, ◌^◌, ◌≤◌, ◌<◌}
use mathlib.Core.Path.{◌≡◌, refl, ap, sym, ◌∙◌}
use mathlib.Core.List.{[], ◌∷◌, ◌++◌}
use native.Mathlib.Omega.{arith}
use blitzy_localgcp.Base.Tests.{ltb, if◌then◌else◌, Bool-cases}
use blitzy_localgcp.Base.Text.{Str, bytes}
use mathlib.Core.Logic.{inl, inr}

-- The digits of `n`, the last one first in the recursion; `fuel` above `n` suffices.
unfoldable pub digits : ℕ → ℕ → Str
digits zero n = []
digits (suc fuel) n =
    let rest = digits fuel (n / 10) ++ (48 + n % 10) ∷ [] in
    if ltb n 10 then (48 + n) ∷ [] else rest

unfoldable pub format_decimal : ℕ → Str
unfolding digits
format_decimal n = digits (suc n) n

-- The format %d of an int32, given by its pattern below 2 ^ 32.
unfoldable pub format_int32 : ℕ → Str
format_int32 n =
    if ltb n (2 ^ 31) then format_decimal n else bytes "-" ++ format_decimal (2 ^ 32 - n)

-- The format %d of an int64, given by its pattern below 2 ^ 64.
unfoldable pub format_int64 : ℕ → Str
format_int64 n =
    if ltb n (2 ^ 63) then format_decimal n else bytes "-" ++ format_decimal (2 ^ 64 - n)

unfoldable pub parse_digits : ℕ → Str → ℕ
parse_digits acc [] = acc
parse_digits acc (c ∷ s) = parse_digits (acc * 10 + (c - 48)) s

parse_digits-append :
    (acc : ℕ) (s : Str) (c : ℕ)
    → parse_digits acc (s ++ c ∷ []) ≡ parse_digits acc s * 10 + (c - 48)
unfolding parse_digits
parse_digits-append acc [] c = refl
parse_digits-append acc (d ∷ s) c = parse_digits-append (acc * 10 + (d - 48)) s c

parse_digits-digits : (fuel n : ℕ) → n < fuel → parse_digits 0 (digits fuel n) ≡ n
unfolding digits
parse_digits-digits zero n h = absurd (omega arith)
parse_digits-digits (suc fuel) n h = elim (Bool-cases (ltb n 10)) [
  | inl e ↦ rw e (unfold parse_digits in omega arith)
  | inr e ↦
      rw (e, parse_digits-append 0 (digits fuel (n / 10)) (48 + n % 10))
        (ground (arith, parse_digits-digits fuel (n / 10) (ground arith)))
]

-- Distinct numbers are printed differently.
pub format_decimal_injective : (m n : ℕ) → format_decimal m ≡ format_decimal n → m ≡ n
unfolding format_decimal
format_decimal_injective m n h =
    sym (parse_digits-digits (suc m) m (omega arith))
    ∙ ap (parse_digits 0) h
    ∙ parse_digits-digits (suc n) n (omega arith)

abbrev pub AllDigits : Str → Type 0
AllDigits [] = Unit {0}
AllDigits (c ∷ s) = (48 ≤ c) × (c < 58) × AllDigits s

AllDigits-append : (s t : Str) → AllDigits s → AllDigits t → AllDigits (s ++ t)
AllDigits-append [] t h k = k
AllDigits-append (c ∷ s) t h k = (h.0, h.1, AllDigits-append s t h.2 k)

digits-AllDigits : (fuel n : ℕ) → AllDigits (digits fuel n)
unfolding digits
digits-AllDigits zero n = tt
digits-AllDigits (suc fuel) n = elim (Bool-cases (ltb n 10)) [
  | inl e ↦ rw e (omega arith, ground arith, tt)
  | inr e ↦ rw e (
      AllDigits-append (digits fuel (n / 10)) _ (digits-AllDigits fuel (n / 10))
        (omega arith, omega arith, tt))
]

pub format_decimal-AllDigits : (n : ℕ) → AllDigits (format_decimal n)
unfolding format_decimal
format_decimal-AllDigits n = digits-AllDigits (suc n) n

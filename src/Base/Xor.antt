-- ===== src/Base/Xor.antt =====
-- The exclusive or of two bytes, as `^` computes it, undone by a second one.
use Prim.Native.Nat.{
  ℕ, zero, suc, ◌+◌, ◌*◌, ◌/◌, ◌%◌, ◌≤◌, bit_xor, digits, differ, bit_xor-bitwise,
}
use mathlib.Core.Path.{◌≡◌, refl, ap}
use native.Mathlib.Omega.{arith}

abbrev fueled : ℕ → ℕ → ℕ → ℕ
fueled n a b = digits (λ b. b) differ n a b

-- More fuel than the number has digits changes nothing.
fueled_enough : (n m a b : ℕ) → a ≤ n → a ≤ m → fueled n a b ≡ fueled m a b
fueled_enough zero zero a b p q = refl
fueled_enough zero (suc m) zero b p q = refl
fueled_enough zero (suc m) (suc a) b p q = absurd (omega arith)
fueled_enough (suc n) zero zero b p q = refl
fueled_enough (suc n) zero (suc a) b p q = absurd (omega arith)
fueled_enough (suc n) (suc m) zero b p q = refl
fueled_enough (suc n) (suc m) (suc a) b p q =
    omega (arith, fueled_enough n m (suc a / 2) (b / 2) (omega arith) (omega arith))

zero_xor : (b : ℕ) → bit_xor 0 b ≡ b
zero_xor b = bit_xor-bitwise 0 b

-- The lowest bit, as a sum.
differ_bits : (x y : ℕ) → x ≤ 1 → y ≤ 1 → differ x y ≡ (x + y) % 2
differ_bits zero zero p q = refl
differ_bits zero (suc zero) p q = refl
differ_bits (suc zero) zero p q = refl
differ_bits (suc zero) (suc zero) p q = refl
differ_bits (suc (suc x)) y p q = absurd (omega arith)
differ_bits x (suc (suc y)) p q = absurd (omega arith)

xor_step : (a b : ℕ) → bit_xor a b ≡ bit_xor (a / 2) (b / 2) * 2 + (a % 2 + b % 2) % 2
xor_step zero b = omega (arith, zero_xor b, zero_xor (b / 2))
xor_step (suc a) b = omega (
  arith,
  bit_xor-bitwise (suc a) b,
  bit_xor-bitwise (suc a / 2) (b / 2),
  fueled_enough a (suc a / 2) (suc a / 2) (b / 2) (omega arith) (omega arith),
  differ_bits (suc a % 2) (b % 2) (omega arith) (omega arith),
)

xor_fuel : (n a k : ℕ) → a ≤ n → k ≤ n → bit_xor (bit_xor a k) k ≡ a
xor_fuel zero zero zero p q = refl
xor_fuel zero (suc a) k p q = absurd (omega arith)
xor_fuel zero a (suc k) p q = absurd (omega arith)
xor_fuel (suc n) a k p q =
    let half : bit_xor a k / 2 ≡ bit_xor (a / 2) (k / 2) = omega (arith, xor_step a k) in
    omega (
      arith,
      xor_step a k,
      xor_step (bit_xor a k) k,
      ap (λ t. bit_xor t (k / 2)) half,
      xor_fuel n (a / 2) (k / 2) (omega arith) (omega arith),
    )

-- A second exclusive or with the same number undoes the first.
pub xor_twice : (a k : ℕ) → bit_xor (bit_xor a k) k ≡ a
xor_twice a k = xor_fuel (a + k) a k (omega arith) (omega arith)

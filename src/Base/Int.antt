-- ===== src/Base/Int.antt =====
-- Signed machine integers: an int32 and an int64 by their values.
use Prim.Native.Nat.{ℕ, zero, suc, ◌+◌, ◌-◌, ◌*◌, ◌^◌, ◌%◌, ◌<◌, ◌≤◌}
use mathlib.Core.Path.{◌≡◌}
use mathlib.Core.Bool.{Bool, true, false}
use native.Mathlib.Omega.{arith}
use blitzy_localgcp.Base.Tests.{ltb, leb, ◌==◌, if◌then◌else◌}

-- `negsuc n` is -(n + 1).
pub data ℤ : Type 0 where
  pos : ℕ → ℤ
  negsuc : ℕ → ℤ

abbrev pub int_ltb : ℤ → ℤ → Bool
int_ltb (pos a) (pos b) = ltb a b
int_ltb (pos a) (negsuc b) = false
int_ltb (negsuc a) (pos b) = true
int_ltb (negsuc a) (negsuc b) = ltb b a

abbrev pub int_leb : ℤ → ℤ → Bool
int_leb (pos a) (pos b) = leb a b
int_leb (pos a) (negsuc b) = false
int_leb (negsuc a) (pos b) = true
int_leb (negsuc a) (negsuc b) = leb b a

-- The value of a pattern of 64 bits.
unfoldable pub int64_of : ℕ → ℤ
int64_of m = if ltb m (2 ^ 63) then pos m else negsuc (2 ^ 64 - m - 1)

-- int32(x), the low 32 bits.
unfoldable pub to_int32 : ℤ → ℤ
to_int32 (pos n) = let m = n % 2 ^ 32 in if ltb m (2 ^ 31) then pos m else negsuc (2 ^ 32 - m - 1)
to_int32 (negsuc n) =
    let m = (2 ^ 32 - (n + 1) % 2 ^ 32) % 2 ^ 32 in
    if ltb m (2 ^ 31) then pos m else negsuc (2 ^ 32 - m - 1)

-- x * 2, as an int64.
unfoldable pub double_int64 : ℤ → ℤ
unfolding int64_of
double_int64 (pos n) = int64_of (n * 2 % 2 ^ 64)
double_int64 (negsuc n) = int64_of ((2 ^ 64 - (n + 1) * 2 % 2 ^ 64) % 2 ^ 64)

-- x + 1, as an int32.
unfoldable pub inc_int32 : ℤ → ℤ
inc_int32 (pos n) = if n + 1 == 2 ^ 31 then negsuc (2 ^ 31 - 1) else pos (n + 1)
inc_int32 (negsuc zero) = pos 0
inc_int32 (negsuc (suc n)) = negsuc n

-- x * 10 ^ 9: an int32 of seconds as a duration, which an int64 can hold.
unfoldable pub seconds : ℤ → ℤ
seconds (pos n) = pos (n * 1000000000)
seconds (negsuc n) = negsuc ((n + 1) * 1000000000 - 1)

-- A time moved by a duration. A time is counted in nanoseconds from the zero time of Go, and is
-- larger than any duration.
unfoldable pub add_duration : ℕ → ℤ → ℕ
add_duration t (pos d) = t + d
add_duration t (negsuc d) = t - (d + 1)

pub inc_int32-pos : (n : ℕ) → n + 1 < 2 ^ 31 → inc_int32 (pos n) ≡ pos (n + 1)
unfolding inc_int32
inc_int32-pos n h = ground arith

pub double_int64-pos : (n : ℕ) → n * 2 < 2 ^ 63 → double_int64 (pos n) ≡ pos (n * 2)
unfolding double_int64
double_int64-pos n h = ground arith

-- A doubling past the largest int64 gives a negative number.
pub double_int64_overflow :
    (n : ℕ) → 2 ^ 63 ≤ n * 2 → n * 2 < 2 ^ 64 → double_int64 (pos n) ≡ negsuc (2 ^ 64 - n * 2 - 1)
unfolding double_int64
double_int64_overflow n h k = ground arith

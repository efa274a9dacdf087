-- ===== src/CloudTasks/Backoff.antt =====
-- internal/cloudtasks/store.go: the backoff of `RetryTask`.
use Prim.Native.Nat.{min}
use native.Mathlib.Nat.{one-le-pow, pow-succ', mul-le-mul_left}
use blitzy_localgcp.Base.{
  lt→ltb, le→leb, ℕ, zero, suc, ◌+◌, ◌-◌, ◌*◌, ◌^◌, ◌≤◌, ◌<◌, ◌≡◌, refl, ap, ◌∙◌, arith, ℤ, pos,
  negsuc, double_int64-pos, double_int64_overflow, seconds, if◌then◌else◌, ltb,
}
use blitzy_localgcp.CloudTasks.Data.{Queue, Task}
use blitzy_localgcp.CloudTasks.Schedule.{doubled, rounds, backoff}

le-mul_pow : (b k : ℕ) → b ≤ b * 2 ^ k
le-mul_pow b k = omega (arith, mul-le-mul_left b (one-le-pow k 2 (omega arith)))

double_pow : (b k : ℕ) → b * 2 * 2 ^ k ≡ b * 2 ^ suc k
double_pow b k = omega (arith, ap (λ (x : ℕ). b * x) (pow-succ' 2 k))

-- The loop from the round `i` on doubles once for each round that is left.
doubled-pow :
    (fuel i count max b k : ℕ)
    → count ≤ fuel + i
    → k ≡ min (count - i) (max + 1 - i)
    → b * 2 ^ k < 2 ^ 63
    → doubled fuel i (pos count) (pos max) (pos b) ≡ pos (b * 2 ^ k)
unfolding doubled
doubled-pow zero i count max b zero f e h = ap pos (omega arith)
doubled-pow zero i count max b (suc k) f e h = absurd (omega arith)
doubled-pow (suc fuel) i count max b zero f e h = ground arith
doubled-pow (suc fuel) i count max b (suc k) f e h =
    rw
      (
        lt→ltb i count (omega arith),
        le→leb i max (omega arith),
        double_int64-pos b (omega (arith, le-mul_pow (b * 2) k, double_pow b k)),
      )
      (doubled-pow fuel (i + 1) count max (b * 2) k (omega arith) (omega arith)
          (omega (arith, double_pow b k))
        ∙ ap pos (double_pow b k))

-- No round is left.
doubled_done :
    (fuel i count max : ℕ) (b : ℤ)
    → min (count - i) (max + 1 - i) ≡ 0
    → doubled fuel i (pos count) (pos max) b ≡ b
unfolding doubled
doubled_done zero i count max b e = refl
doubled_done (suc fuel) i count max b e = ground arith

-- The round that passes the largest int64, if it is the last one, gives a negative duration.
doubled_overflow :
    (fuel i count max b k : ℕ)
    → count ≤ fuel + i
    → suc k ≡ min (count - i) (max + 1 - i)
    → b * 2 ^ k < 2 ^ 63
    → 2 ^ 63 ≤ b * 2 ^ suc k
    → doubled fuel i (pos count) (pos max) (pos b) ≡ negsuc (2 ^ 64 - b * 2 ^ suc k - 1)
unfolding doubled
doubled_overflow zero i count max b k f e h g = absurd (omega arith)
doubled_overflow (suc fuel) i count max b zero f e h g =
    rw
      (
        lt→ltb i count (omega arith),
        le→leb i max (omega arith),
        double_int64_overflow b (omega arith) (omega arith),
      )
      (doubled_done fuel (i + 1) count max _ (omega arith) ∙ ap negsuc (omega arith))
doubled_overflow (suc fuel) i count max b (suc k) f e h g =
    rw
      (
        lt→ltb i count (omega arith),
        le→leb i max (omega arith),
        double_int64-pos b (omega (arith, le-mul_pow (b * 2) k, double_pow b k)),
      )
      (doubled_overflow fuel (i + 1) count max (b * 2) k (omega arith) (omega arith)
          (omega (arith, double_pow b k)) (omega (arith, double_pow b (suc k)))
        ∙ ap (λ x. negsuc (2 ^ 64 - x - 1)) (double_pow b (suc k)))

cap_min : (a b : ℕ) → (if ltb b a then pos b else pos a) ≡ pos (min a b)
cap_min a b = ground arith

-- A retry waits for the shortest backoff, doubled once for each attempt after the first and at most
-- `max_doublings` times, and never longer than the longest backoff; provided that the doubled
-- backoff fits an int64 of nanoseconds.
pub backoff_lem :
    (q : Queue) (t : Task) (n shortest longest doublings : ℕ)
    → t.dispatch_count ≡ pos (suc n)
    → q.min_backoff_seconds ≡ pos shortest
    → q.max_backoff_seconds ≡ pos longest
    → q.max_doublings ≡ pos doublings
    → shortest * 1000000000 * 2 ^ (min n doublings) < 2 ^ 63
    → backoff q t ≡ pos (min (shortest * 1000000000 * 2 ^ (min n doublings)) (longest * 1000000000))
unfolding backoff seconds rounds
backoff_lem q t n shortest longest doublings hc hs hl hd h =
    rw
      (
        hc,
        hs,
        hl,
        hd,
        doubled-pow (suc n) 1 (suc n) doublings (shortest * 1000000000) (min n doublings)
            (omega arith) (omega arith) h,
      )
      (cap_min (shortest * 1000000000 * 2 ^ min n doublings) (longest * 1000000000))

-- If the last doubling passes the largest int64, the backoff is negative, whatever the longest
-- backoff of the queue is.
pub backoff_negative :
    (q : Queue) (t : Task) (n shortest longest doublings k : ℕ)
    → t.dispatch_count ≡ pos (suc n)
    → q.min_backoff_seconds ≡ pos shortest
    → q.max_backoff_seconds ≡ pos longest
    → q.max_doublings ≡ pos doublings
    → suc k ≡ min n doublings
    → shortest * 1000000000 * 2 ^ k < 2 ^ 63
    → 2 ^ 63 ≤ shortest * 1000000000 * 2 ^ suc k
    → backoff q t ≡ negsuc (2 ^ 64 - shortest * 1000000000 * 2 ^ suc k - 1)
unfolding backoff seconds rounds
backoff_negative q t n shortest longest doublings k hc hs hl hd e h g = rw (
  hc,
  hs,
  hl,
  hd,
  doubled_overflow (suc n) 1 (suc n) doublings (shortest * 1000000000) k (omega arith) (omega arith)
      h g,
)

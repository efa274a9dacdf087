-- ===== src/Dispatch/Examples.antt =====
-- A server that answers the second attempt, for the theorems on the dispatcher.
use blitzy_localgcp.Base.{ℕ, zero, suc, ◌<◌, ◌≡◌, refl, some, none, true, false, inr, pos, arith}
use blitzy_localgcp.Dispatch.{Config, Environment, Response, answered, Result, dispatch, is_success}
use blitzy_localgcp.Dispatch.Attempts.{Answers, Fails, dispatch_ends, dispatch_succeeds}

abbrev three_retries : Config
three_retries = record {
  max_retries = pos 3;
  initial_backoff = pos 1000000000;
  next_backoff = λ backoff. pos 2000000000;
}

abbrev second_answer : ℕ → Response
second_answer zero = answered 503
second_answer (suc n) = answered 204

abbrev late_server : Environment
late_server = record { builds = true; cancelled = λ n. false; post = second_answer }

dispatch_ends_example :
    (r : Result) × (dispatch three_retries late_server ≡ some r) × Answers second_answer 4 r
dispatch_ends_example = dispatch_ends three_retries late_server 3 refl (omega arith)

early_attempts : (n : ℕ) → n < 1 → Fails (second_answer n)
unfolding is_success
early_attempts zero h = inr (503, refl, refl)
early_attempts (suc n) h = absurd (omega (arith, h))

dispatch_succeeds_example :
    (r : Result) × (dispatch three_retries late_server ≡ some r)
    × (r.status_code ≡ 204)
    × (r.attempts ≡ pos 2)
    × (r.failure ≡ none)
dispatch_succeeds_example =
    dispatch_succeeds three_retries late_server 3 1 204 refl refl (λ n. refl) (omega arith)
      (omega arith) early_attempts refl (unfold is_success in refl)

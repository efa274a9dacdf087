-- ===== src/Dispatch.antt =====
-- internal/dispatch/dispatcher.go: the POST with its retries. What the client, the context and the
-- clock do is an argument.
pub mod Attempts
mod Examples
use blitzy_localgcp.Base.{
  int64_of, ◌%◌, ◌^◌, ◌-◌, ◌==◌, ℕ, zero, suc, ◌+◌, List, [], ◌∷◌, ◌++◌, Option, none, some, Bool,
  true, false, not, ◌&&◌, leb, ltb, if◌then◌else◌, ℤ, pos, negsuc, int_ltb,
}

-- `next_backoff` is the product with the multiplier, cut at the longest backoff, in floats.
pub record Config : Type 0 where
  pub max_retries : ℤ
  pub initial_backoff : ℤ
  pub next_backoff : ℤ → ℤ

-- What client.Do gives: no answer; no answer since the context ended; a status.
pub data Response : Type 0 where
  no_answer : Response
  context_ended : Response
  answered : ℕ → Response

-- `builds`: http.NewRequestWithContext takes the url. `cancelled n`: the context ends in the wait
-- before attempt `n`. `post n`: what attempt `n` gives.
pub record Environment : Type 0 where
  pub builds : Bool
  pub cancelled : ℕ → Bool
  pub post : ℕ → Response

pub data Failure : Type 0 where
  context_error : Failure
  build_error : Failure
  attempts_failed : Failure

pub record Result : Type 0 where
  pub status_code : ℕ
  pub attempts : ℤ
  pub failure : Option Failure
  pub slept : List ℤ

unfoldable pub is_success : ℕ → Bool
is_success code = leb 200 code && ltb code 300

-- x + 1, as an int of 64 bits.
unfoldable pub succ_int : ℤ → ℤ
succ_int (pos n) = if n + 1 == 2 ^ 63 then negsuc (2 ^ 63 - 1) else pos (n + 1)
succ_int (negsuc zero) = pos 0
succ_int (negsuc (suc n)) = negsuc n

-- The counter `attempt`, an int of 64 bits, behind `n` rounds of the loop.
unfoldable pub attempt_of : ℕ → ℤ
unfolding int64_of
attempt_of n = int64_of (n % 2 ^ 64)

-- One round more than there can be attempts while the counter does not pass the largest int; a loop
-- that has not ended behind these rounds gives none.
unfoldable pub enough : ℤ → ℕ
enough (pos n) = n + 2
enough (negsuc n) = 1

module _ (cfg : Config) (env : Environment) where
  -- The loop, with the rounds made, the backoff, the last status and the waits so far.
  unfoldable pub attempt_from : ℕ → ℕ → ℤ → ℕ → List ℤ → Option Result
  unfolding is_success succ_int attempt_of
  attempt_from zero n backoff last slept = none
  attempt_from (suc fuel) n backoff last slept = elim (int_ltb cfg.max_retries (attempt_of n)) [
    | true ↦ some (record {
      status_code = last;
      attempts = succ_int cfg.max_retries;
      failure = some attempts_failed;
      slept = slept;
    })
    | false ↦
        let first = not (int_ltb (pos 0) (attempt_of n)) in
        let next = if first then backoff else cfg.next_backoff backoff in
        let waits = if first then slept else slept ++ backoff ∷ [] in
        elim (not first && env.cancelled n) [
          | true ↦ some (record {
            status_code = last;
            attempts = attempt_of n;
            failure = some context_error;
            slept = slept;
          })
          | false ↦ elim env.builds [
            | false ↦ some (record {
              status_code = 0;
              attempts = succ_int (attempt_of n);
              failure = some build_error;
              slept = waits;
            })
            | true ↦ elim (env.post n) [
              | no_answer ↦ attempt_from fuel (n + 1) next 0 waits
              | context_ended ↦ some (record {
                status_code = 0;
                attempts = succ_int (attempt_of n);
                failure = some context_error;
                slept = waits;
              })
              | answered code ↦ elim (is_success code) [
                | true ↦ some (record {
                  status_code = code;
                  attempts = succ_int (attempt_of n);
                  failure = none;
                  slept = waits;
                })
                | false ↦ attempt_from fuel (n + 1) next code waits
              ]
            ]
          ]
        ]
  ]

  unfoldable pub dispatch : Option Result
  unfolding attempt_from enough
  dispatch = attempt_from (enough cfg.max_retries) 0 cfg.initial_backoff 0 []

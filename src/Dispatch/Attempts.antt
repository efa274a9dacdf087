-- ===== src/Dispatch/Attempts.antt =====
-- internal/dispatch/dispatcher.go: the loop ends, and what its end says of the attempts.
use native.Mathlib.Nat.{mod-eq_of_lt}
use blitzy_localgcp.Base.{
  int_ltb, int64_of, ◌^◌, false→ne, ◌%◌, ℕ, zero, suc, ◌+◌, ◌≤◌, ◌<◌, ◌≡◌, ◌⊎◌, refl, ap, ◌∙◌, List,
  [], Option, none, some, arith, true, false, Bool-cases, inl, inr, ℤ, pos, ltb, not, ◌&&◌,
}
use blitzy_localgcp.Dispatch.{
  Config, Environment, Response, no_answer, context_ended, answered, Result, is_success, succ_int,
  attempt_from, attempt_of, enough, dispatch,
}

attempt_of-small : (n : ℕ) → n < 2 ^ 63 → attempt_of n ≡ pos n
unfolding attempt_of int64_of
attempt_of-small n h =
    let same : n % 2 ^ 64 ≡ n = mod-eq_of_lt (omega (arith, h)) in rw same (ground (arith, h))

succ_int-small : (n : ℕ) → n + 1 < 2 ^ 63 → succ_int (pos n) ≡ pos (n + 1)
unfolding succ_int
succ_int-small n h = ground (arith, h)

-- What the result says of the attempts: how many there were at most, and what a success was; a
-- result with a 2xx status has no error.
pub record Answers (post : ℕ → Response) (most : ℕ) (r : Result) : Type 0 where
  pub count : ℕ
  pub counted : r.attempts ≡ pos count
  pub bounded : count ≤ most
  pub succeeded :
      r.failure ≡ none
      → (i : ℕ) × (count ≡ suc i)
        × (post i ≡ answered r.status_code)
        × (is_success r.status_code ≡ true)
  pub settled : is_success r.status_code ≡ true → r.failure ≡ none

Response-cases :
    (r : Response) → (r ≡ no_answer) ⊎ ((r ≡ context_ended) ⊎ ((code : ℕ) × (r ≡ answered code)))
Response-cases no_answer = inl refl
Response-cases context_ended = inr (inl refl)
Response-cases (answered code) = inr (inr (code, refl))

module _ (cfg : Config) (env : Environment) (most : ℕ) (retries : cfg.max_retries ≡ pos most)
    (fits : most + 1 < 2 ^ 63) where
  Ends : Option Result → Type 0
  Ends o = (r : Result) × (o ≡ some r) × Answers env.post (suc most) r

  attempt_from-Ends :
      (fuel n : ℕ) (backoff : ℤ) (last : ℕ) (slept : List ℤ)
      → n ≤ suc most
      → suc most + 1 ≤ n + fuel
      → is_success last ≡ false
      → Ends (attempt_from cfg env fuel n backoff last slept)
  unfolding attempt_from Ends
  attempt_from-Ends zero n backoff last slept low enough_fuel lost = absurd (omega arith)
  attempt_from-Ends (suc fuel) n backoff last slept low enough_fuel lost =
      let later : n ≤ most
          → (next : ℤ) (code : ℕ) (waits : List ℤ) → is_success code ≡ false
          → Ends (attempt_from cfg env fuel (n + 1) next code waits) =
        λ h next code waits bad.
          attempt_from-Ends fuel (n + 1) next code waits (omega (arith, h)) (omega arith) bad in
      let small : attempt_of n ≡ pos n = attempt_of-small n (omega (arith, low, fits)) in
      let counted : n ≤ most → succ_int (attempt_of n) ≡ pos (n + 1) =
        λ h. rw small (succ_int-small n (omega (arith, h, fits))) in
      let none_200 : is_success 0 ≡ false = unfold is_success in refl in
      elim (Bool-cases (ltb most n)) [
        | inl e ↦
            rw (retries, attempt_from, small, e)
              (
                _,
                refl,
                record {
                  count = most + 1;
                  counted = ap succ_int retries ∙ succ_int-small most fits;
                  bounded = omega arith;
                  succeeded = λ h. cc h;
                  settled = λ h. false→ne lost h;
                },
              )
        | inr e ↦
            elim (Bool-cases (not (not (int_ltb (pos 0) (attempt_of n))) && env.cancelled n)) [
              | inl c ↦
                  rw (retries, attempt_from, small, e, c)
                    (
                      _,
                      refl,
                      record {
                        count = n;
                        counted = small;
                        bounded = low;
                        succeeded = λ h. cc h;
                        settled = λ h. false→ne lost h;
                      },
                    )
              | inr c ↦ elim (Bool-cases env.builds) [
                | inl b ↦ elim (Response-cases (env.post n)) [
                  | inl r ↦
                      rw (retries, attempt_from, small, e, c, b, r)
                        (later (ground arith) _ _ _ none_200)
                  | inr (inl r) ↦
                      rw (retries, attempt_from, small, e, c, b, r)
                        (
                          _,
                          refl,
                          record {
                            count = n + 1;
                            counted = counted (ground arith);
                            bounded = ground arith;
                            succeeded = λ h. cc h;
                            settled = λ h. false→ne none_200 h;
                          },
                        )
                  | inr (inr (code, r)) ↦ elim (Bool-cases (is_success code)) [
                    | inl s ↦
                        rw (retries, attempt_from, small, e, c, b, r, s)
                          (
                            _,
                            refl,
                            record {
                              count = n + 1;
                              counted = counted (ground arith);
                              bounded = ground arith;
                              succeeded = λ h. (n, omega arith, r, s);
                              settled = λ h. refl;
                            },
                          )
                    | inr s ↦
                        rw (retries, attempt_from, small, e, c, b, r, s)
                          (later (ground arith) _ _ _ s)
                  ]
                ]
                | inr b ↦
                    rw (retries, attempt_from, small, e, c, b)
                      (
                        _,
                        refl,
                        record {
                          count = n + 1;
                          counted = counted (ground arith);
                          bounded = ground arith;
                          succeeded = λ h. cc h;
                          settled = λ h. false→ne none_200 h;
                        },
                      )
              ]
            ]
      ]

-- A dispatch with a limit of `most` retries, where `most` + 1 is below 2 ^ 63, ends, with at most
-- `most` + 1 attempts; if it ends without an error, then the last of them had the status of the
-- result, which is 2xx; and if it ends with an error, then the status of the result is not 2xx.
pub dispatch_ends :
    (cfg : Config) (env : Environment) (most : ℕ)
    → cfg.max_retries ≡ pos most
    → most + 1 < 2 ^ 63
    → (r : Result) × (dispatch cfg env ≡ some r) × Answers env.post (suc most) r
unfolding dispatch enough Ends
dispatch_ends cfg env most retries fits =
    rw (ap enough retries, enough)
      (attempt_from-Ends cfg env most retries fits (most + 2) 0 cfg.initial_backoff 0 []
        (omega arith) (omega arith) (unfold is_success in refl))

-- An attempt that is followed by another one, if there may be one.
abbrev pub Fails : Response → Type 0
Fails r = (r ≡ no_answer) ⊎ ((code : ℕ) × (r ≡ answered code) × (is_success code ≡ false))

abbrev Reached : Option Result → ℕ → ℕ → Type 0
Reached o i code =
    (r : Result) × (o ≡ some r)
    × (r.status_code ≡ code)
    × (r.attempts ≡ pos (i + 1))
    × (r.failure ≡ none)

module _ (cfg : Config) (env : Environment) (most i code : ℕ) (retries : cfg.max_retries ≡ pos most)
    (builds : env.builds ≡ true) (calm : (n : ℕ) → env.cancelled n ≡ false) (low : i ≤ most)
    (fits : i + 1 < 2 ^ 63) (failing : (n : ℕ) → n < i → Fails (env.post n))
    (good : env.post i ≡ answered code) (success : is_success code ≡ true) where
  attempt_from-reaches :
      (k fuel n : ℕ) (backoff : ℤ) (last : ℕ) (slept : List ℤ)
      → n + k ≡ i
      → k < fuel
      → Reached (attempt_from cfg env fuel n backoff last slept) i code
  unfolding attempt_from
  attempt_from-reaches k zero n backoff last slept h more = absurd (omega (arith, more))
  attempt_from-reaches zero (suc fuel) n backoff last slept h more =
      let here : env.post n ≡ answered code = ap env.post (omega (arith, h)) ∙ good in
      let small : attempt_of n ≡ pos n = attempt_of-small n (omega (arith, h, fits)) in
      let room : ltb most n ≡ false = ground arith in
      let go : (not (not (int_ltb (pos 0) (attempt_of n))) && env.cancelled n) ≡ false =
        ground (arith, calm n) in
      rw (retries, attempt_from, small, room, go, builds, here, success)
        (
          _,
          refl,
          refl,
          ap succ_int small
              ∙ succ_int-small n (omega (arith, h, fits))
              ∙ ap (λ x. pos (x + 1)) (omega (arith, h)),
          refl,
        )
  attempt_from-reaches (suc k) (suc fuel) n backoff last slept h more =
      let small : attempt_of n ≡ pos n = attempt_of-small n (omega (arith, h, fits)) in
      let room : ltb most n ≡ false = ground arith in
      let go : (not (not (int_ltb (pos 0) (attempt_of n))) && env.cancelled n) ≡ false =
        ground (arith, calm n) in
      let later : (next : ℤ) (code : ℕ) (waits : List ℤ)
          → Reached (attempt_from cfg env fuel (n + 1) next code waits) i _ =
        λ next last waits.
          attempt_from-reaches k fuel (n + 1) next last waits (omega (arith, h)) (omega arith) in
      elim (failing n (omega (arith, h))) [
        | inl r ↦ rw (retries, attempt_from, small, room, go, builds, r) (later _ _ _)
        | inr (bad, r, s) ↦ rw (retries, attempt_from, small, room, go, builds, r, s) (later _ _ _)
      ]

  -- While the context lasts, the first attempt that has a 2xx status ends the dispatch with that
  -- status and without an error, if the retries reach it and the number of the attempts is below
  -- 2 ^ 63.
  pub dispatch_succeeds :
      (r : Result) × (dispatch cfg env ≡ some r)
      × (r.status_code ≡ code)
      × (r.attempts ≡ pos (i + 1))
      × (r.failure ≡ none)
  unfolding dispatch
  dispatch_succeeds =
      rw (ap enough retries, enough)
        (attempt_from-reaches i (most + 2) 0 cfg.initial_backoff 0 [] (omega arith)
          (omega (arith, low)))

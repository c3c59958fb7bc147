-- ===== src/Slack/Retry.antt =====
-- `execute_workflow_with_retry` and `is_retriable_error` of
-- slack-event-handler/src/handler_executor.rs. The outcome of each attempt and the random numbers
-- are arguments, and so is `lowercase` for `str::to_lowercase`; an error is its text.
use text.Mathlib.Text.{find?}
use jobworkerp_conductor.Prelude.{
  ℕ, zero, suc, String, ◌≡◌, refl, sym, ap, ◌∙◌, ◌⊎◌, inl, inr, arith, ◌+◌, ◌-◌, ◌/◌, ◌%◌, ◌^◌, ◌≤◌,
  ◌<◌, Bool, true, false, ◌&&◌, ◌||◌, List, [], ◌∷◌, Result, ok, err, if◌then◌else◌, is_some,
  Bool-cases,
}

abbrev pub contains : String → String → Bool
contains text part = is_some (find? text part)

unfoldable pub is_retriable_error : (String → String) → String → Bool
is_retriable_error lowercase error =
    let message = lowercase error in
    if contains message "parse" || contains message "json"
    then false
    else (if contains message "401" || contains message "403" || contains message "unauthorized"
        then false
        else (if contains message "validation" || contains message "invalid"
            then false
            else (if contains message "worker not found"
                then false
                else (if contains message "connection"
                      || contains message "timeout"
                      || contains message "500"
                      || contains message "502"
                      || contains message "503"
                      || contains message "504"
                    then true
                    else true))))

-- The result that is returned, the number of attempts made, and the seconds slept between them.
pub record Run : Type 0 where
  pub result : Result String (Unit {0})
  pub attempts : ℕ
  pub delays : List ℕ

abbrev pub max_retries : ℕ
max_retries = 3

-- The sleep after an attempt; the jitter is half of the base, cut to a whole number.
unfoldable pub delay_after : ℕ → ℕ → ℕ
delay_after attempt random = 2 ^ attempt + random % (2 ^ attempt / 2 + 1)

nat-cases : (a k : ℕ) → a ≤ k → (a ≡ k) ⊎ (suc a ≤ k)
nat-cases a k h = ground (arith, h)

module _ (retriable : String → Bool) (outcome : ℕ → Result String (Unit {0})) (random : ℕ → ℕ) where
  abbrev pub run_of : Result String (Unit {0}) → ℕ → Run
  run_of result attempt = record { result = result; attempts = suc attempt; delays = [] }

  -- An attempt is over and others are left.
  unfoldable pub after_attempt : ℕ → Run → Result String (Unit {0}) → Run
  unfolding delay_after
  after_attempt attempt rest (ok u) = run_of (ok u) attempt
  after_attempt attempt rest (err e) =
      if retriable e
      then record rest { delays = delay_after attempt (random attempt) ∷ rest.delays }
      else run_of (err e) attempt

  -- The loop from an attempt on, with so many others left after it.
  unfoldable pub attempts_from : (left attempt : ℕ) → Run
  unfolding after_attempt
  attempts_from zero attempt = run_of (outcome attempt) attempt
  attempts_from (suc left) attempt =
      let rest = attempts_from left (suc attempt) in after_attempt attempt rest (outcome attempt)

  unfoldable pub execute_workflow_with_retry : Run
  unfolding attempts_from
  execute_workflow_with_retry = attempts_from (max_retries - 1) 0

  -- An error after which another attempt makes sense.
  abbrev pub is_retried : Result String (Unit {0}) → Bool
  is_retried (ok u) = false
  is_retried (err e) = retriable e

  -- What holds of the loop from an attempt on.
  record Follows (left attempt : ℕ) (run : Run) : Type 0 where
    last : ℕ
    made : run.attempts ≡ suc last
    from : attempt ≤ last
    to : last ≤ attempt + left
    returned : run.result ≡ outcome last
    ended : (is_retried (outcome last) ≡ false) ⊎ (last ≡ attempt + left)
    retried : (k : ℕ) → attempt ≤ k → k < last → is_retried (outcome k) ≡ true

  -- The loop ends with this attempt.
  run_of-Follows :
      (left attempt : ℕ) (o : Result String (Unit {0}))
      → outcome attempt ≡ o
      → (is_retried o ≡ false) ⊎ (attempt ≡ attempt + left)
      → Follows left attempt (run_of o attempt)
  run_of-Follows left attempt o h end = record {
    last = attempt;
    made = refl;
    from = omega arith;
    to = omega arith;
    returned = sym h;
    ended = rw h end;
    retried = λ k low high. ground arith;
  }

  after_attempt-Follows :
      (left attempt : ℕ) (rest : Run) (o : Result String (Unit {0}))
      → outcome attempt ≡ o
      → Follows left (suc attempt) rest
      → Follows (suc left) attempt (after_attempt attempt rest o)
  unfolding after_attempt
  after_attempt-Follows left attempt rest (ok u) h f =
      run_of-Follows (suc left) attempt (ok u) h (inl refl)
  after_attempt-Follows left attempt rest (err e) h f = elim (Bool-cases (retriable e)) [
    | inl again ↦ rw again (record {
      last = f.last;
      made = f.made;
      from = omega (arith, f.from);
      to = omega (arith, f.to);
      returned = f.returned;
      ended = elim f.ended [ inl refused ↦ inl refused | inr all ↦ inr (omega (arith, all)) ];
      retried = λ k low high. elim (nat-cases attempt k low) [
        | inl same ↦ rw (← same, h) again
        | inr later ↦ f.retried k later high
      ];
    })
    | inr final ↦ rw final (run_of-Follows (suc left) attempt (err e) h (inl final))
  ]

  attempts_from-Follows : (left attempt : ℕ) → Follows left attempt (attempts_from left attempt)
  unfolding attempts_from
  attempts_from-Follows zero attempt =
      run_of-Follows zero attempt (outcome attempt) refl (inr (omega arith))
  attempts_from-Follows (suc left) attempt =
      after_attempt-Follows left attempt _ (outcome attempt) refl
        (attempts_from-Follows left (suc attempt))

  -- The attempts before the n-th all ended in a retriable error.
  abbrev pub all_retried : ℕ → Bool
  all_retried zero = true
  all_retried (suc n) = is_retried (outcome n) && all_retried n

  all_retried-before :
      (left : ℕ) (run : Run) (f : Follows left 0 run) (n : ℕ) → n ≤ f.last → all_retried n ≡ true
  all_retried-before left run f zero h = refl
  all_retried-before left run f (suc n) h =
      let here : is_retried (outcome n) ≡ true = f.retried n (omega arith) (omega (arith, h)) in
      let before : all_retried n ≡ true = all_retried-before left run f n (omega (arith, h)) in
      rw (here, before) refl

  -- An execution is attempted at least once and at most three times, and what the last attempt
  -- yields is returned. All attempts before the last ended in a retriable error; the last did not,
  -- or it was the third.
  pub execute_workflow_with_retry_lem :
      (1 ≤ execute_workflow_with_retry.attempts)
      × (execute_workflow_with_retry.attempts ≤ max_retries)
      × (execute_workflow_with_retry.result ≡ outcome (execute_workflow_with_retry.attempts - 1))
      × (all_retried (execute_workflow_with_retry.attempts - 1) ≡ true)
      × ((is_retried execute_workflow_with_retry.result ≡ false)
          ⊎ (execute_workflow_with_retry.attempts ≡ max_retries))
  unfolding execute_workflow_with_retry
  execute_workflow_with_retry_lem =
      let f : Follows 2 0 (attempts_from 2 0) = attempts_from-Follows 2 0 in
      let index : (attempts_from 2 0).attempts - 1 ≡ f.last = omega (arith, f.made) in
      (
        omega (arith, f.made),
        omega (arith, f.made, f.to),
        f.returned ∙ ap outcome (sym index),
        ap all_retried index ∙ all_retried-before 2 _ f f.last (omega arith),
        elim f.ended [
          | inl refused ↦ inl (ap is_retried f.returned ∙ refused)
          | inr all ↦ inr (omega (arith, all, f.made))
        ],
      )

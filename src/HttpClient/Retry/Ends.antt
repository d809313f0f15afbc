-- ===== src/HttpClient/Retry/Ends.antt =====
-- That the send loop of httpclient/request.go ends.
use garlic.Common.{
  ◌≡◌, List, ℕ, zero, suc, ◌+◌, ◌-◌, ◌<◌, refl, ◌∙◌, ap, ◌≢◌, inl, inr, ◌⊎◌, Bool, Option, none,
  some, arith, Option-cases,
}
use garlic.HttpClient.Retry.Totals.{bind-result}
use garlic.HttpClient.Retry.{
  Env, Request, Message, Answer, Failure, prepare, send, decide, loop, finish, can_retry,
  do_with_retry, do_with_retry_for, S, Step, Event, then_step, after, ◌>>=◌,
}
use garlic.HttpClient.Retry.Laws.{Decision-cases, decide_again}

module _ {W : Type 0} (env : Env W) (r : Request W) where
  -- What a run of the loop must not end in: the fuel used up.
  abbrev Returns : {A : Type 0} → Failure ⊎ Option A → Type 0
  Returns t = t ≢ inr none

  loop-Returns :
      (fuel : ℕ) (c allowed : Bool) (attempt : ℕ) (m : Message) (w : W)
      → r.retry.max_retries - attempt < fuel
      → Returns (loop env r fuel c allowed attempt m w).result
  unfolding loop
  loop-Returns zero c allowed attempt m w enough = absurd (omega (arith, enough))
  loop-Returns (suc fuel) c allowed attempt m w enough =
      bind-result Returns _ (prepare env r c attempt m) w (λ f. cc)
        (λ m' w₁ _.
          bind-result Returns _ (send env r m') w₁ (λ f. cc)
            (λ answer w₂ _.
              bind-result Returns _ (decide env r allowed attempt m' answer) w₂ (λ f. cc)
                (λ d w₃ e. elim (Decision-cases d) [
                  | inl ended ↦ rw ended cc
                  | inr more ↦
                      let (_, left) =
                        decide_again env r allowed attempt m' answer w₂ (e ∙ ap inr more) in
                      rw more (
                        loop-Returns fuel c allowed (attempt + 1) (record m' { body = answer.left })
                          w₃ (omega (arith, enough, left)))
                ])))

  finish-Returns :
      (answer : Option Answer) (w : W) → answer ≢ none → Returns (finish env r answer w).result
  unfolding finish
  finish-Returns none w there = absurd (there refl)
  finish-Returns (some answer) w there = elim (Option-cases answer.err) [
    | inl fine ↦ rw (fine, finish) cc
    | inr (err, failed) ↦ rw (failed, finish) cc
  ]

  then_step-cong :
      {A B : Type 0} (result : Failure ⊎ A) (w : W) (events : List Event) (k k' : A → S W B)
      → ((a : A) → result ≡ inr a → k a w ≡ k' a w)
      → then_step result w events k ≡ then_step result w events k'
  then_step-cong (inl f) w events k k' h = refl
  then_step-cong (inr a) w events k k' h = ap (after events) (h a refl)

  bind-cong :
      {A B : Type 0} (m : S W A) (k k' : A → S W B) (w : W)
      → ((a : A) (w' : W) → (m w).result ≡ inr a → k a w' ≡ k' a w')
      → (m >>= k) w ≡ (m >>= k') w
  bind-cong m k k' w h =
      then_step-cong (m w).result (m w).world (m w).events k k' (λ a e. h a (m w).world e)

  -- Any number of rounds beyond those that are left gives the same run.
  loop-stable :
      (fuel fuel' : ℕ) (c allowed : Bool) (attempt : ℕ) (m : Message) (w : W)
      → r.retry.max_retries - attempt < fuel
      → r.retry.max_retries - attempt < fuel'
      → loop env r fuel c allowed attempt m w ≡ loop env r fuel' c allowed attempt m w
  unfolding loop
  loop-stable zero fuel' c allowed attempt m w enough enough' = absurd (omega (arith, enough))
  loop-stable (suc fuel) zero c allowed attempt m w enough enough' = absurd (omega (arith, enough'))
  loop-stable (suc fuel) (suc fuel') c allowed attempt m w enough enough' =
      bind-cong (prepare env r c attempt m) _ _ w (λ m' w₁ _.
        bind-cong (send env r m') _ _ w₁ (λ answer w₂ _.
          bind-cong (decide env r allowed attempt m' answer) _ _ w₂ (λ d w₃ e.
            elim (Decision-cases d) [
              | inl ended ↦ rw ended refl
              | inr more ↦
                  let (_, left) =
                    decide_again env r allowed attempt m' answer w₂ (e ∙ ap inr more) in
                  rw more (
                    loop-stable fuel fuel' c allowed (attempt + 1)
                      (record m' { body = answer.left }) w₃ (omega (arith, enough, left))
                      (omega (arith, enough', left)))
            ])))

  -- `doWithRetry` ends within MaxRetries + 1 rounds: it returns a response or nil, or fails, and its run
  -- is that of a loop that may take any larger number of rounds.
  pub do_with_retry_returns :
      (m : Message) (replayable c : Bool) (more : ℕ) (w : W)
      → ((do_with_retry env r m replayable c w).result ≢ inr none)
        × (do_with_retry_for env r (suc r.retry.max_retries + more) m replayable c w
            ≡ do_with_retry env r m replayable c w)
  unfolding do_with_retry
  do_with_retry_returns m replayable c more w =
      let allowed = can_retry env r m replayable in
      let all = loop env r (suc r.retry.max_retries) c allowed 0 m in
      let ends = loop-Returns (suc r.retry.max_retries) c allowed 0 m w (omega arith) in
      (
        bind-result Returns (finish env r) all w (λ f. cc)
            (λ answer w' e. finish-Returns answer w' (λ q. ends (e ∙ ap inr q))),
        ap (λ (t : Step W (Option Answer)). then_step t.result t.world t.events (finish env r))
            (loop-stable (suc r.retry.max_retries + more) (suc r.retry.max_retries) c allowed 0 m w
              (omega arith) (omega arith)),
      )

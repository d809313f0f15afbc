-- ===== src/HttpClient/Retry/Laws.antt =====
-- How often the send loop of httpclient/request.go sends.
use garlic.Common.{
  ℕ, zero, suc, ◌+◌, ◌-◌, ◌≤◌, ◌<◌, String, ◌≡◌, refl, ◌∙◌, ap, inl, inr, ◌⊎◌, Bool, true, false,
  not, ◌||◌, Option, none, some, [], arith, leb, ltb, Bool-cases, Option-cases, Sum-cases,
  if◌then◌else◌,
}
use garlic.Errors.ErrorT.{Err}
use garlic.HttpClient.Retry.Totals.{
  is_send, sends, bind-total, bind-total-le, then_step-total, then_step_events,
}
use garlic.HttpClient.Retry.{
  Env, Request, Message, Answer, Reply, Step, S, Decision, stop, again, ◌>>=◌, inject_auth, rewind,
  rewrapped, prepare, send, drain, pause, decide, loop, finish, can_retry, do_with_retry_for,
  do_with_retry, with_token,
}

pub Decision-cases : (d : Decision) → (d ≡ stop) ⊎ (d ≡ again)
Decision-cases stop = inl refl
Decision-cases again = inr refl

module _ {W : Type 0} (env : Env W) (r : Request W) where
  with_token_events : (m : Message) (p : (Err ⊎ String) × W) → (with_token env r m p).events ≡ []
  unfolding with_token
  with_token_events m (inl err, w) = refl
  with_token_events m (inr token, w) = refl

  inject_auth_events :
      (caller_set : Bool) (m : Message) (w : W) → (inject_auth env r caller_set m w).events ≡ []
  unfolding inject_auth
  inject_auth_events c m w = elim (Option-cases r.token_source) [
    | inl missing ↦ ground arith
    | inr (token, configured) ↦ ground (arith, with_token_events m (token w))
  ]

  rewind_events : (m : Message) (w : W) → (rewind env r m w).events ≡ []
  unfolding rewind
  rewind_events m w = ground arith

  rewrapped_events :
      (t : Step W Message) (message : String) → (rewrapped env r t message).events ≡ t.events
  unfolding rewrapped
  rewrapped_events t message = ground arith

  pub prepare_events :
      (caller_set : Bool) (attempt : ℕ) (m : Message) (w : W)
      → (prepare env r caller_set attempt m w).events ≡ []
  unfolding prepare
  prepare_events c a m w = elim (Bool-cases (ltb 0 a)) [
    | inr first ↦ rw (first, prepare) refl
    | inl later ↦
        rw (later, prepare)
          (then_step_events _ (rewind env r m w).result (rewind env r m w).world
            (rewind env r m w).events (rewind_events m w)
            (λ m' w'. rewrapped_events (inject_auth env r c m' w') _ ∙ inject_auth_events c m' w'))
  ]

  pub sends-drain : (reply : Option Reply) (w : W) → sends (drain env r reply w).events ≡ 0
  unfolding drain
  sends-drain none w = refl
  sends-drain (some reply) w = refl

  pub pause_events : (a : ℕ) (reply : Option Reply) (w : W) → (pause env r a reply w).events ≡ []
  unfolding pause
  pause_events a reply w = ground arith

  -- The loop goes on only where retries are allowed and one is left.
  pub decide_again :
      (allowed : Bool) (attempt : ℕ) (m : Message) (answer : Answer) (w : W)
      → (decide env r allowed attempt m answer w).result ≡ inr again
      → (allowed ≡ true) × (attempt < r.retry.max_retries)
  unfolding decide
  decide_again allowed attempt m answer w h =
      elim (Bool-cases (not allowed || leb r.retry.max_retries attempt)) [
        | inl last ↦ absurd (cc (rw (last, decide) at h))
        | inr left ↦ ground arith
      ]

  pub sends-decide :
      (allowed : Bool) (attempt : ℕ) (m : Message) (answer : Answer) (w : W)
      → sends (decide env r allowed attempt m answer w).events ≤ 0
  unfolding decide
  sends-decide allowed attempt m answer w =
      elim (Bool-cases (not allowed || leb r.retry.max_retries attempt)) [
        | inl last ↦ rw (last, decide) (omega arith)
        | inr left ↦
            elim (Sum-cases
              (r.retry.policy.check_retry m.method answer.reply answer.err attempt w)) [
                | inl (err, cancelled) ↦ rw (left, cancelled, decide) (omega arith)
                | inr (false, ended) ↦ rw (left, ended, decide) (omega arith)
                | inr (true, retried) ↦
                    rw (left, retried, decide)
                      (then_step-total is_send _ (drain env r answer.reply w).result _ _ 0 0
                        (omega (arith, sends-drain answer.reply w))
                        (λ _ w' _. omega (arith, ap sends (pause_events attempt answer.reply w'))))
              ]
      ]

  -- One round of the loop sends once, and then what its continuation sends.
  module _ (k : Message → Answer → Decision → S W (Option Answer)) (allowed : Bool) (attempt : ℕ)
      (n : ℕ)
      (rest : (m : Message) (answer : Answer) (d : Decision) (w w' : W)
        → (decide env r allowed attempt m answer w).result ≡ inr d
        → sends (k m answer d w').events ≤ n) where
    abbrev decided : Message → Answer → S W (Option Answer)
    decided m answer = decide env r allowed attempt m answer >>= k m answer

    abbrev exchange : Message → S W (Option Answer)
    exchange m = send env r m >>= decided m

    sends-decided :
        (m : Message) (answer : Answer) (w : W) → sends (decided m answer w).events ≤ 0 + n
    sends-decided m answer w =
        bind-total is_send (decide env r allowed attempt m answer) (k m answer) w 0 n
          (sends-decide allowed attempt m answer w) (λ d w' e. rest m answer d w w' e)

    sends-exchange : (m : Message) (w : W) → sends (exchange m w).events ≤ 1 + (0 + n)
    unfolding send
    sends-exchange m w =
        bind-total is_send (send env r m) (decided m) w 1 (0 + n) (omega arith)
          (λ answer w' _. sends-decided m answer w')

    round_sends :
        (c : Bool) (m : Message) (w : W)
        → sends ((prepare env r c attempt m >>= exchange) w).events ≤ suc n
    round_sends c m w =
        let none_yet : sends (prepare env r c attempt m w).events ≤ 0 =
          omega (arith, ap sends (prepare_events c attempt m w)) in
        omega (
          arith,
          bind-total is_send (prepare env r c attempt m) exchange w 0 (1 + (0 + n)) none_yet
              (λ m' w' _. sends-exchange m' w'),
        )

  abbrev retries_left : Bool → ℕ → ℕ
  retries_left allowed attempt = if allowed then r.retry.max_retries - attempt else 0

  sends-loop :
      (fuel : ℕ) (c allowed : Bool) (attempt : ℕ) (m : Message) (w : W)
      → sends (loop env r fuel c allowed attempt m w).events ≤ suc (retries_left allowed attempt)
  unfolding loop
  sends-loop zero c allowed attempt m w = omega arith
  sends-loop (suc fuel) c allowed attempt m w =
      round_sends _ allowed attempt (retries_left allowed attempt)
        (λ m' answer d w₁ w' e. elim (Decision-cases d) [
          | inl ended ↦ rw ended (omega arith)
          | inr more ↦
              let (allows, left) = decide_again allowed attempt m' answer w₁ (e ∙ ap inr more) in
              rw more (
                ground (
                  arith,
                  sends-loop fuel c allowed (attempt + 1) (record m' { body = answer.left }) w',
                ))
        ])
        c m w

  pub finish_events : (answer : Option Answer) (w : W) → (finish env r answer w).events ≡ []
  unfolding finish
  finish_events none w = refl
  finish_events (some answer) w = ground arith

  first_send :
      (fuel : ℕ) (m : Message) (replayable c : Bool) (w : W)
      → 1 ≤ sends (do_with_retry_for env r (suc fuel) m replayable c w).events
  unfolding loop prepare send
  first_send fuel m replayable c w =
      let allowed = can_retry env r m replayable in
      let all = loop env r (suc fuel) c allowed 0 m in
      let sent_once : 1 ≤ sends (all w).events = omega arith in
      bind-total-le is_send all (finish env r) w 1 sent_once

  -- However many rounds the loop may take, one at least, `doWithRetry` sends the request at least once;
  -- where a retry is allowed, at most `MaxRetries` times more, else never again.
  pub do_with_retry-sends :
      (fuel : ℕ) (m : Message) (replayable c : Bool) (w : W)
      → (1 ≤ sends (do_with_retry_for env r (suc fuel) m replayable c w).events)
        × (sends (do_with_retry_for env r (suc fuel) m replayable c w).events
            ≤ suc (if can_retry env r m replayable then r.retry.max_retries else 0))
  do_with_retry-sends fuel m replayable c w =
      let allowed = can_retry env r m replayable in
      let all = loop env r (suc fuel) c allowed 0 m in
      let most =
        bind-total is_send all (finish env r) w (suc (retries_left allowed 0)) 0
          (sends-loop (suc fuel) c allowed 0 m w)
          (λ answer w' _. omega (arith, ap sends (finish_events answer w'))) in
      (first_send fuel m replayable c w, ground (arith, most))

  pub do_with_retry-sends_once :
      (m : Message) (replayable c : Bool) (w : W)
      → 1 ≤ sends (do_with_retry env r m replayable c w).events
  unfolding do_with_retry
  do_with_retry-sends_once m replayable c w = first_send r.retry.max_retries m replayable c w

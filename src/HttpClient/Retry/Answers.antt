-- ===== src/HttpClient/Retry/Answers.antt =====
-- The send loop of httpclient/request.go gives a response where it gives no error, if `Do` does.
use garlic.Common.{
  ℕ, zero, suc, ◌+◌, ◌≡◌, refl, ◌∙◌, ap, sym, subst, inl, inr, ◌⊎◌, Bool, Option, none, some,
  Option-cases,
}
use garlic.HttpClient.Retry.Totals.{bind-result}
use garlic.HttpClient.Retry.{
  Env, Request, Message, Answer, Reply, Failure, prepare, send, decide, loop, finish, can_retry,
  do_with_retry,
}
use garlic.HttpClient.Retry.Laws.{Decision-cases}

abbrev pub HasReply : Answer → Type 0
HasReply a = a.err ≡ none → (reply : Reply) × (a.reply ≡ some reply)

-- What the documentation of `http.Client.Do` says: without an error there is a response.
abbrev pub IsDoer : {W : Type 0} → Env W → Type 0
IsDoer env = (m : Message) (w : _) → HasReply (env.do_request m w).0

module _ {W : Type 0} (env : Env W) (r : Request W) (doer : IsDoer env) where
  abbrev Answers : Failure ⊎ Option Answer → Type 0
  Answers t = (a : Answer) → t ≡ inr (some a) → HasReply a

  abbrev IsFromDo : Failure ⊎ Answer → Type 0
  IsFromDo t = (a : Answer) → t ≡ inr a → HasReply a

  send-IsFromDo : (m : Message) (w : W) → IsFromDo (send env r m w).result
  unfolding send
  send-IsFromDo m w a e =
      let same : (env.do_request m w).0 ≡ a = cc in subst HasReply same (doer m w)

  loop-Answers :
      (fuel : ℕ) (c allowed : Bool) (attempt : ℕ) (m : Message) (w : W)
      → Answers (loop env r fuel c allowed attempt m w).result
  unfolding loop
  loop-Answers zero c allowed attempt m w = λ a e. cc
  loop-Answers (suc fuel) c allowed attempt m w =
      bind-result Answers _ (prepare env r c attempt m) w (λ f a e. cc)
        (λ m' w₁ _.
          bind-result Answers _ (send env r m') w₁ (λ f a e. cc)
            (λ answer w₂ sent.
              bind-result Answers _ (decide env r allowed attempt m' answer) w₂ (λ f a e. cc)
                (λ d w₃ _. elim (Decision-cases d) [
                  | inl ended ↦ rw ended (λ a e.
                      let same : answer ≡ a = cc in
                      subst HasReply same (send-IsFromDo m' w₁ answer sent))
                  | inr more ↦ rw more (
                      loop-Answers fuel c allowed (attempt + 1) (record m' { body = answer.left })
                        w₃)
                ])))

  -- What a caller of the loop must not be given: a result that has neither a response nor an error.
  abbrev Replies : Failure ⊎ Option (Option Reply) → Type 0
  Replies t = (o : Option Reply) → t ≡ inr (some o) → (reply : Reply) × (o ≡ some reply)

  finish-Replies :
      (answer : Option Answer) (w : W)
      → ((a : Answer) → answer ≡ some a → HasReply a)
      → Replies (finish env r answer w).result
  unfolding finish
  finish-Replies none w has = λ o e. cc
  finish-Replies (some answer) w has = elim (Option-cases answer.err) [
    | inl fine ↦
        rw (fine, finish) (λ o e. let (reply, q) = has answer refl fine in (reply, sym (cc) ∙ q))
    | inr (err, failed) ↦ rw (failed, finish) (λ o e. cc)
  ]

  pub do_with_retry-Replies :
      (m : Message) (replayable c : Bool) (w : W)
      → Replies (do_with_retry env r m replayable c w).result
  unfolding do_with_retry
  do_with_retry-Replies m replayable c w =
      let allowed = can_retry env r m replayable in
      let all = loop env r (suc r.retry.max_retries) c allowed 0 m in
      bind-result Replies (finish env r) all w (λ f o e. cc)
        (λ answer w' e.
          finish-Replies answer w'
            (λ a q. loop-Answers (suc r.retry.max_retries) c allowed 0 m w a (e ∙ ap inr q)))

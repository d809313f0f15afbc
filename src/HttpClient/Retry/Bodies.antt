-- ===== src/HttpClient/Retry/Bodies.antt =====
-- What the send loop of httpclient/request.go sends: at every attempt the same method and the whole
-- body, whatever the attempts before have read of it.
use garlic.Common.{
  ℕ, zero, suc, ◌+◌, ◌≤◌, String, ◌≡◌, refl, ◌∙◌, sym, inl, inr, ◌⊎◌, Bool, Option, some, List, [],
  ◌∷◌, arith, ltb, Bool-cases, Option-cases, subst, str_eq, Sum-cases, All,
}
use garlic.Errors.ErrorT.{Err}
use garlic.HttpClient.Retry.{
  Env, Request, Message, Answer, Event, sent, drained, closed, Step, S, Failure, Decision, ◌>>=◌,
  inject_auth, rewind, rewrapped, prepare, send, decide, loop, finish, can_retry, do_with_retry,
  with_token, set_auth,
}
use garlic.HttpClient.Retry.Totals.{sends, bind-All, bind-result}
use garlic.HttpClient.Retry.Laws.{Decision-cases, sends-decide, prepare_events, finish_events}

-- Same method and same source of the body.
abbrev Alike : Message → Message → Type 0
Alike m' m = (m'.method ≡ m.method) × (m'.get_body ≡ m.get_body)

abbrev pub IsWhole : String → String → Event → Type 0
IsWhole method body (sent m reply) = (m.method ≡ method) × (m.body ≡ some body)
IsWhole method body (drained _) = Unit {0}
IsWhole method body (closed _) = Unit {0}

-- What a step says of the message that it returns, if it returns one.
abbrev OnMessage : (Message → Type 0) → Failure ⊎ Message → Type 0
OnMessage P (inl f) = Unit {0}
OnMessage P (inr m) = P m

abbrev AlikeBody : Message → Message → Type 0
AlikeBody m m' = Alike m' m × (m'.body ≡ m.body)

module _ (method body : String) where
  nothing : {es : List Event} → es ≡ [] → All (IsWhole method body) es
  nothing {es} e = subst (All (IsWhole method body)) (sym e) tt

  -- Events without a send among them.
  unsent : (es : List Event) → sends es ≤ 0 → All (IsWhole method body) es
  unsent [] h = tt
  unsent (sent m reply ∷ es) h = absurd (omega (arith, h))
  unsent (drained b ∷ es) h = (tt, unsent es (omega (arith, h)))
  unsent (closed b ∷ es) h = (tt, unsent es (omega (arith, h)))

module _ {W : Type 0} (env : Env W) (r : Request W) where
  with_token_keeps :
      (m : Message) (p : (Err ⊎ String) × W) → OnMessage (AlikeBody m) (with_token env r m p).result
  unfolding with_token set_auth
  with_token_keeps m (inl err, w) = tt
  with_token_keeps m (inr token, w) = ((refl, refl), refl)

  inject_auth_keeps :
      (c : Bool) (m : Message) (w : W) → OnMessage (AlikeBody m) (inject_auth env r c m w).result
  unfolding inject_auth set_auth
  inject_auth_keeps c m w = elim (Bool-cases r.has_basic) [
    | inl basic ↦ rw (basic, inject_auth) ((refl, refl), refl)
    | inr other ↦ elim (Bool-cases (str_eq r.auth_token "")) [
      | inr token ↦ rw (other, token, inject_auth) ((refl, refl), refl)
      | inl missing ↦ elim (Bool-cases c) [
        | inl set ↦ rw (other, missing, set, inject_auth) ((refl, refl), refl)
        | inr unset ↦ elim (Option-cases r.token_source) [
          | inl nowhere ↦ rw (other, missing, unset, nowhere, inject_auth) ((refl, refl), refl)
          | inr (source, there) ↦
              rw (other, missing, unset, there, inject_auth) (with_token_keeps m (source w))
        ]
      ]
    ]
  ]

  rewrapped_keeps :
      (t : Step W Message) (message : String) (P : Message → Type 0)
      → OnMessage P t.result
      → OnMessage P (rewrapped env r t message).result
  unfolding rewrapped
  rewrapped_keeps t message P h = elim (Sum-cases t.result) [
    | inl (f, fails) ↦ rw (fails, rewrapped) tt
    | inr (m, done) ↦ rw (done, rewrapped) h
  ]

  module _ (method body : String) where
    -- A message that can be sent again with the whole body.
    abbrev Replayable : Message → Type 0
    Replayable m = (m.method ≡ method) × (m.get_body ≡ some (inr body))

    abbrev Ready : Message → Type 0
    Ready m = Replayable m × (m.body ≡ some body)

    rewind-Ready : (m : Message) (w : W) → Replayable m → OnMessage Ready (rewind env r m w).result
    unfolding rewind
    rewind-Ready m w (q, g) = rw (g, rewind) ((q, g), refl)

    Ready-of_alike : (m m' : Message) → Ready m → AlikeBody m m' → Ready m'
    Ready-of_alike m m' ((q, g), b) ((q', g'), b') = ((q' ∙ q, g' ∙ g), b' ∙ b)

    OnMessage-map :
        (P Q : Message → Type 0) (res : Failure ⊎ Message)
        → ((m : Message) → P m → Q m)
        → OnMessage P res
        → OnMessage Q res
    OnMessage-map P Q (inl f) g h = tt
    OnMessage-map P Q (inr m) g h = g m h

    OnMessage-at :
        (P : Message → Type 0) {res : Failure ⊎ Message} {m : Message}
        → res ≡ inr m
        → OnMessage P res
        → P m
    OnMessage-at P e h = subst (OnMessage P) e h

    prepare-Ready :
        (c : Bool) (attempt : ℕ) (m : Message) (w : W)
        → Replayable m
        → (attempt ≡ 0 → m.body ≡ some body)
        → OnMessage Ready (prepare env r c attempt m w).result
    unfolding prepare
    prepare-Ready c attempt m w replays whole = elim (Bool-cases (ltb 0 attempt)) [
      | inr first ↦ rw (first, prepare) (replays, whole (ground arith))
      | inl later ↦
          rw (later, prepare)
            (bind-result (OnMessage Ready) _ (rewind env r m) w (λ f. tt)
              (λ m' w' e. rewrapped_keeps (inject_auth env r c m' w') _ Ready (
                OnMessage-map (AlikeBody m') Ready (inject_auth env r c m' w').result
                  (λ n alike.
                    Ready-of_alike m' n (OnMessage-at Ready e (rewind-Ready m w replays)) alike)
                  (inject_auth_keeps c m' w'))))
    ]

    abbrev Whole : List Event → Type 0
    Whole = All (IsWhole method body)

    -- One round of the loop sends a ready message, and then what its continuation sends.
    module _ (k : Message → Answer → Decision → S W (Option Answer)) (allowed : Bool) (attempt : ℕ)
        (rest : (m : Message) (answer : Answer) (d : Decision) (w w' : W)
          → Ready m
          → (decide env r allowed attempt m answer w).result ≡ inr d
          → Whole (k m answer d w').events) where
      abbrev decided : Message → Answer → S W (Option Answer)
      decided m answer = decide env r allowed attempt m answer >>= k m answer

      abbrev exchange : Message → S W (Option Answer)
      exchange m = send env r m >>= decided m

      decided-Whole :
          (m : Message) (answer : Answer) (w : W) → Ready m → Whole (decided m answer w).events
      decided-Whole m answer w ready =
          bind-All (IsWhole method body) (k m answer) (decide env r allowed attempt m answer) w
            (unsent method body _ (sends-decide env r allowed attempt m answer w))
            (λ d w' e. rest m answer d w w' ready e)

      exchange-Whole : (m : Message) (w : W) → Ready m → Whole (exchange m w).events
      unfolding send
      exchange-Whole m w ready =
          let ((q, g), b) = ready in
          bind-All (IsWhole method body) (decided m) (send env r m) w ((q, b), tt)
            (λ answer w' _. decided-Whole m answer w' ready)

      round-Whole :
          (c : Bool) (m : Message) (w : W)
          → Replayable m
          → (attempt ≡ 0 → m.body ≡ some body)
          → Whole ((prepare env r c attempt m >>= exchange) w).events
      round-Whole c m w replays whole =
          bind-All (IsWhole method body) exchange (prepare env r c attempt m) w
            (nothing method body (prepare_events env r c attempt m w))
            (λ m' w' e.
              exchange-Whole m' w'
                (OnMessage-at Ready e (prepare-Ready c attempt m w replays whole)))

    loop-Whole :
        (fuel : ℕ) (c allowed : Bool) (attempt : ℕ) (m : Message) (w : W)
        → Replayable m
        → (attempt ≡ 0 → m.body ≡ some body)
        → Whole (loop env r fuel c allowed attempt m w).events
    unfolding loop
    loop-Whole zero c allowed attempt m w replays whole = tt
    loop-Whole (suc fuel) c allowed attempt m w replays whole =
        round-Whole _ allowed attempt
          (λ m' answer d w₁ w' ready e. elim (Decision-cases d) [
            | inl ended ↦ rw ended tt
            | inr more ↦
                let (alike, _) = ready in
                rw more (
                  loop-Whole fuel c allowed (attempt + 1) (record m' { body = answer.left }) w'
                    alike (λ z. absurd (omega arith)))
          ])
          c m w replays whole

    -- Where the body of the request can be had again and is still whole, every attempt sends the
    -- method of the request and its whole body.
    pub do_with_retry-IsWhole :
        (m : Message) (replayable c : Bool) (w : W)
        → Replayable m
        → m.body ≡ some body
        → All (IsWhole method body) (do_with_retry env r m replayable c w).events
    unfolding do_with_retry
    do_with_retry-IsWhole m replayable c w replays whole =
        bind-All (IsWhole method body) (finish env r)
          (loop env r (suc r.retry.max_retries) c (can_retry env r m replayable) 0 m) w
          (loop-Whole _ c (can_retry env r m replayable) 0 m w replays (λ _. whole))
          (λ answer w' _. nothing method body (finish_events env r answer w'))

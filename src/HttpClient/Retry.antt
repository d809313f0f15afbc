-- ===== src/HttpClient/Retry.antt =====
-- httpclient/retry.go and the send loop of httpclient/request.go. What the program cannot see, the
-- network, the clock, the context and the token source, is a world `W` that the operations of `Env`
-- read and change. A failure is the call of the errors package that builds it.
pub mod Totals
pub mod Laws
pub mod Bodies
pub mod Ends
pub mod Answers
pub mod Default
use Prim.Native.String.{◌++◌ as str_append}
use garlic.Common.{
  ℕ, zero, suc, ◌+◌, ◌%◌, ◌^◌, ◌*◌, String, Bool, true, false, not, ◌&&◌, ◌||◌, Option, none, some,
  List, [], ◌∷◌, ◌++◌, if◌then◌else◌, ltb, leb, ◌==◌, str_eq, lookup, insert, ◌⊎◌, inl, inr,
}
use garlic.Errors.Kind.{Kind}
use garlic.Errors.Primitive.{kind_system_error}
use garlic.Errors.Catalog.{kind_auth_error}
use garlic.Errors.ErrorT.{Err}
pub use garlic.Errors.Failure.{Failure, propagate_as, propagate, given}

unfoldable pub is_idempotent : String → Bool
is_idempotent method =
    str_eq method "GET"
    || str_eq method "HEAD"
    || str_eq method "OPTIONS"
    || str_eq method "PUT"
    || str_eq method "DELETE"
    || str_eq method "TRACE"

-- A `time.Duration` by its 64 bits, in two's complement.
abbrev pub Duration : Type 0
Duration = ℕ

abbrev pub Headers : Type 0
Headers = List (String × String)

-- A response; its body is a connection with an identity.
pub record Reply : Type 0 where
  pub status_code : ℕ
  pub header : Headers
  pub body : ℕ

-- The `*http.Request` that is sent: what its body still yields, and what `GetBody` yields.
pub record Message : Type 0 where
  pub method : String
  pub header : Headers
  pub body : Option String
  pub get_body : Option (Err ⊎ String)

-- What `Do` returns, and what it leaves in the body of the request.
pub record Answer : Type 0 where
  pub reply : Option Reply
  pub err : Option Err
  pub left : Option String

pub record RetryPolicy (W : Type 0) : Type 0 where
  pub check_retry : String → Option Reply → Option Err → ℕ → W → Err ⊎ Bool
  pub backoff : Duration → Duration → ℕ → Option Reply → W → Duration × W

pub record Env (W : Type 0) : Type 0 where
  pub do_request : Message → W → Answer × W
  pub ctx_err : W → Option Err
  -- `sleepCtx`: the error of the context if that ends first.
  pub sleep : Duration → W → Option Err × W
  pub basic_auth : String → String → String

-- `policy` is the one that is configured, else the default one. Log messages are left out.
pub record RetryConfig (W : Type 0) : Type 0 where
  pub enabled : Bool
  pub max_retries : ℕ
  pub min_wait : Duration
  pub max_wait : Duration
  pub policy : RetryPolicy W

-- The fields of `Request`, and of its client, that the loop reads.
pub record Request (W : Type 0) : Type 0 where
  pub retry : RetryConfig W
  pub retry_override : Option Bool
  pub has_basic : Bool
  pub basic_user : String
  pub basic_pass : String
  pub auth_token : String
  pub token_source : Option (W → (Err ⊎ String) × W)

-- What is seen of a run from outside.
pub data Event : Type 0 where
  sent : Message → Option Reply → Event
  drained : ℕ → Event
  closed : Option String → Event  -- the body of a request that is not sent

-- A step returns a value or fails; both leave a world and what happened.
pub record Step (W A : Type 0) : Type 0 where
  pub result : Failure ⊎ A
  pub world : W
  pub events : List Event

abbrev pub S : Type 0 → Type 0 → Type 0
S W A = W → Step W A

abbrev pub pure : {W A : Type 0} → A → S W A
pure a w = record { result = inr a; world = w; events = [] }

abbrev pub fail : {W A : Type 0} → Failure → S W A
fail f w = record { result = inl f; world = w; events = [] }

abbrev pub after : {W A : Type 0} → List Event → Step W A → Step W A
after events t = record { result = t.result; world = t.world; events = events ++ t.events }

abbrev pub then_step : {W A B : Type 0} → Failure ⊎ A → W → List Event → (A → S W B) → Step W B
then_step (inl f) w events k = record { result = inl f; world = w; events = events }
then_step (inr a) w events k = after events (k a w)

infixl 5 ◌>>=◌
abbrev pub ◌>>=◌ : {W A B : Type 0} → S W A → (A → S W B) → S W B
◌>>=◌ m k w = then_step (m w).result (m w).world (m w).events k

-- Whether the loop goes on.
pub data Decision : Type 0 where
  stop again : Decision

module _ {W : Type 0} (env : Env W) (r : Request W) where
  unfoldable pub set_auth : String → Message → Message
  set_auth value m = record m { header = insert "Authorization" value m.header }

  unfoldable pub with_token : Message → (Err ⊎ String) × W → Step W Message
  with_token m (inl err, w) =
      fail (propagate_as kind_auth_error err "failed to obtain auth token") w
  with_token m (inr token, w) = pure (set_auth (str_append "Bearer " token) m) w

  -- `injectAuth`
  unfoldable pub inject_auth : Bool → Message → S W Message
  inject_auth caller_set m w = elim r.has_basic [
    | true ↦ pure (set_auth (env.basic_auth r.basic_user r.basic_pass) m) w
    | false ↦ elim (str_eq r.auth_token "") [
      | false ↦ pure (set_auth (str_append "Bearer " r.auth_token) m) w
      | true ↦ elim caller_set [
        | true ↦ pure m w
        | false ↦ elim r.token_source [ none ↦ pure m w | some token ↦ with_token m (token w) ]
      ]
    ]
  ]

  -- The body again, before a retry.
  unfoldable pub rewind : Message → S W Message
  rewind m = elim m.get_body [
    | none ↦ pure m
    | some (inl err) ↦ fail (propagate_as kind_system_error err "failed to rewind request body")
    | some (inr body) ↦ pure (record m { body = some body })
  ]

  unfoldable pub rewrapped : Step W Message → String → Step W Message
  rewrapped t message = elim t.result [
    | inl f ↦ record { result = inl (propagate f message); world = t.world; events = t.events }
    | inr m ↦ t
  ]

  -- What precedes a send: nothing at the first attempt.
  unfoldable pub prepare : Bool → ℕ → Message → S W Message
  prepare caller_set attempt m = elim (ltb 0 attempt) [
    | false ↦ pure m
    | true ↦ do
      m' ← rewind m
      λ w. rewrapped (inject_auth caller_set m' w) "failed to inject authorization"
  ]

  -- `Do`
  unfoldable pub send : Message → S W Answer
  send m w =
      let (answer, w') = env.do_request m w in
      record { result = inr answer; world = w'; events = sent m answer.reply ∷ [] }

  unfoldable pub drain : Option Reply → S W (Unit {0})
  drain none w = pure tt w
  drain (some reply) w = record { result = inr tt; world = w; events = drained reply.body ∷ [] }

  unfoldable pub pause : ℕ → Option Reply → S W Decision
  pause attempt reply w =
      let (wait, w₁) = r.retry.policy.backoff r.retry.min_wait r.retry.max_wait attempt reply w in
      let (err, w₂) = env.sleep wait w₁ in
      elim err [
        | none ↦ pure again w₂
        | some e ↦ fail (propagate_as kind_system_error e "request cancelled during backoff") w₂
      ]

  -- What follows a send, up to the next attempt.
  unfoldable pub decide : Bool → ℕ → Message → Answer → S W Decision
  decide can_retry attempt m answer = elim (not can_retry || leb r.retry.max_retries attempt) [
    | true ↦ pure stop
    | false ↦ λ w. elim (r.retry.policy.check_retry m.method answer.reply answer.err attempt w) [
      | inl err ↦ fail (propagate_as kind_system_error err "request cancelled") w
      | inr false ↦ pure stop w
      | inr true ↦ (drain answer.reply >>= λ _. pause attempt answer.reply) w
    ]
  ]

  -- The loop; without a result if the fuel runs out.
  unfoldable pub loop : ℕ → Bool → Bool → ℕ → Message → S W (Option Answer)
  loop zero caller_set can_retry attempt m = pure none
  loop (suc fuel) caller_set can_retry attempt m = do
    m' ← prepare caller_set attempt m
    answer ← send m'
    decision ← decide can_retry attempt m' answer
    elim decision [
      | stop ↦ pure (some answer)
      | again ↦ loop fuel caller_set can_retry (attempt + 1) (record m' { body = answer.left })
    ]

  unfoldable pub can_retry : Message → Bool → Bool
  can_retry m replayable =
      let idempotent = is_idempotent m.method in
      elim r.retry_override [
        | none ↦ ((r.retry.enabled && ltb 0 r.retry.max_retries) && replayable) && idempotent
        | some override ↦
            ((override && ltb 0 r.retry.max_retries) && replayable) && (idempotent || override)
      ]

  unfoldable pub finish : Option Answer → S W (Option (Option Reply))
  finish none = pure none
  finish (some answer) = elim answer.err [
    | some err ↦ fail (propagate_as kind_system_error err "failed to make request")
    | none ↦ pure (some answer.reply)
  ]

  -- `doWithRetry`, for at most `fuel` rounds; the loop of the source has no bound of its own.
  abbrev pub do_with_retry_for : ℕ → Message → Bool → Bool → S W (Option (Option Reply))
  do_with_retry_for fuel m replayable caller_set = do
    answer ← loop fuel caller_set (can_retry m replayable) 0 m
    finish answer

  -- As many rounds as the loop can take.
  unfoldable pub do_with_retry : Message → Bool → Bool → S W (Option (Option Reply))
  do_with_retry = do_with_retry_for (suc r.retry.max_retries)

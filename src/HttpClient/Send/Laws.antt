-- ===== src/HttpClient/Send/Laws.antt =====
-- What `execute` of httpclient/request.go does with the body of a request that it does not send.
use garlic.Common.{
  ◌≤◌, ◌≡◌, refl, ◌∙◌, ap, subst, ◌⊎◌, inl, inr, String, Bool, Option, none, some, List, [], ◌∷◌,
  arith, Option-cases, Sum-cases, All, str_eq, Bool-cases,
}
use garlic.Errors.ErrorT.{Err}
use garlic.HttpClient.Retry.{Env, Message, Reply, Failure, Event, closed, Step, inject_auth}
use garlic.HttpClient.Retry.Totals.{sends}
use garlic.HttpClient.Retry.Laws.{do_with_retry-sends_once}
use garlic.HttpClient.Assembly.{
  run_hooks, run_both, apply_body, inject_tracing, set_known, set_if_missing, header_value,
  Prepared,
}
use garlic.HttpClient.Draft.{BodyProvider, provide, Draft}
use garlic.HttpClient.Send.{
  Client, loop_request, authorized, with_hooks, provided, blank, execute, sets_auth,
}

-- A hook that changes the request and not its body.
abbrev pub KeepsBody : (Message → Err ⊎ Message) → Type 0
KeepsBody hook = (m m' : Message) → hook m ≡ inr m' → m'.body ≡ m.body

run_hooks-body :
    (hooks : List (Message → Err ⊎ Message)) (m m' : Message)
    → All KeepsBody hooks
    → run_hooks hooks m ≡ inr m'
    → m'.body ≡ m.body
unfolding run_hooks
run_hooks-body [] m m' keep e = let same : m' ≡ m = cc in ap (λ (x : Message). x.body) same
run_hooks-body (hook ∷ hooks) m m' (keep, keeps) e = elim (Sum-cases (hook m)) [
  | inl (err, q) ↦ absurd (ground (arith, rw q at e))
  | inr (m₁, q) ↦ run_hooks-body hooks m₁ m' keeps (rw q at e) ∙ keep m m₁ q
]

run_both-body :
    (client request : List (Message → Err ⊎ Message)) (m m' : Message)
    → All KeepsBody client
    → All KeepsBody request
    → run_both client request m ≡ inr m'
    → m'.body ≡ m.body
unfolding run_both
run_both-body client request m m' keep keep' e = elim (Sum-cases (run_hooks client m)) [
  | inl (err, q) ↦ absurd (ground (arith, rw (q, run_both) at e))
  | inr (m₁, q) ↦
      run_hooks-body request m₁ m' keep' (rw (q, run_both) at e) ∙ run_hooks-body client m m₁ keep q
]

set_if_missing-body :
    (key value : String) (m : Message) → (set_if_missing key value m).body ≡ m.body
set_if_missing-body key value m = elim (Bool-cases (str_eq (header_value key m.header) "")) [
  | inl missing ↦ rw missing refl
  | inr there ↦ rw there refl
]

set_known-body :
    (key : String) (value : Option String) (m : Message) → (set_known key value m).body ≡ m.body
set_known-body key none m = refl
set_known-body key (some value) m = set_if_missing-body key value m

inject_tracing-body :
    (session_id request_id : Option String) (m : Message)
    → (inject_tracing session_id request_id m).body ≡ m.body
unfolding inject_tracing
inject_tracing-body session_id request_id m =
    set_known-body "X-Request-Id" request_id (set_known "X-Session-Id" session_id m)
    ∙ set_known-body "X-Session-Id" session_id m

abbrev pub closing : Option String → List Event
closing none = []
closing (some content) = closed (some content) ∷ []

-- The request was sent, or it failed and its body was closed.
abbrev pub SentOrClosed : {W A : Type 0} → Option String → Step W A → Type 0
SentOrClosed body t =
    (1 ≤ sends t.events) ⊎ ((f : Failure) × (t.result ≡ inl f) × (t.events ≡ closing body))

module _ {W : Type 0} (env : Env W) (c : Client W) (r : Draft Message Reply) where
  authorized-SentOrClosed :
      (replayable : Bool) (m : Message) (w : W)
      → SentOrClosed m.body (authorized env c r replayable m w)
  unfolding authorized
  authorized-SentOrClosed replayable m w =
      let caller_set = sets_auth env c r m in
      elim (Sum-cases (inject_auth env (loop_request env c r) caller_set m w).result) [
        | inl (f, q) ↦
            rw (q, authorized)
              (elim (Option-cases m.body) [
                | inl bare ↦ rw bare (inr (_, refl, refl))
                | inr (content, has) ↦ rw has (inr (_, refl, refl))
              ])
        | inr (m', q) ↦
            rw (q, authorized)
              (inl (
                do_with_retry-sends_once env (loop_request env c r) m' replayable caller_set
                  (inject_auth env (loop_request env c r) caller_set m w).world))
      ]

  -- What `abort` closes of the body that the draft has.
  abbrev pub content_of : Option BodyProvider → Option String
  content_of none = none
  content_of (some body) = some (provide c.encoders body).content

  -- The request could not be made, or it was sent, or it failed and its body was closed.
  abbrev pub Ended : Option Err → Option String → Step W (Option (Option Reply)) → Type 0
  Ended (some err) body t = (t.events ≡ []) × ((f : Failure) × (t.result ≡ inl f))
  Ended none body t = SentOrClosed body t

  prepared :
      (method : String)
      → (p : Prepared) × (apply_body (provided env c r r.body) (blank env c r method) ≡ inr p)
        × (p.message.body ≡ content_of r.body)
  unfolding apply_body
  prepared method = elim (Option-cases r.body) [
    | inl bare ↦ rw bare (_, refl, refl)
    | inr (body, has) ↦ rw has (_, refl, refl)
  ]

  hooked-SentOrClosed :
      (p : Prepared) (w : W)
      → All KeepsBody c.before_request
      → All KeepsBody r.before
      → SentOrClosed p.message.body
          (with_hooks env c r p (run_both c.before_request r.before p.message) w)
  hooked-SentOrClosed p w keep keep' =
      elim (Sum-cases (run_both c.before_request r.before p.message)) [
        | inl (err, q) ↦ rw q (elim (Option-cases p.message.body) [
          | inl bare ↦ rw bare (inr (_, refl, refl))
          | inr (content, has) ↦ rw has (inr (_, refl, refl))
        ])
        | inr (m, q) ↦ rw q (
            subst
              (λ (b : Option String).
                SentOrClosed b
                  (authorized env c r p.replayable (inject_tracing c.session_id c.request_id m) w))
              (inject_tracing-body c.session_id c.request_id m
                ∙ run_both-body c.before_request r.before p.message m keep keep' q)
              (authorized-SentOrClosed p.replayable (inject_tracing c.session_id c.request_id m) w))
      ]

  -- Where no hook changes the body, `execute` sends the request at least once, or fails. A request that
  -- net/http refuses to make costs nothing; one that fails after its body was opened, by a hook or by
  -- the token source, has that body closed, and nothing was sent.
  pub execute-closes :
      (method target : String) (w : W)
      → All KeepsBody c.before_request
      → All KeepsBody r.before
      → Ended
          (c.new_request_err method target)
          (content_of r.body)
          (execute env c r method target w)
  unfolding execute
  execute-closes method target w keep keep' =
      elim (Option-cases (c.new_request_err method target)) [
        | inr (err, q) ↦ rw (q, execute) (refl, (_, refl))
        | inl q ↦
            let (p, made, body) = prepared method in
            rw (q, execute, made)
              (subst
                (λ (b : Option String).
                  SentOrClosed b
                    (with_hooks env c r p (run_both c.before_request r.before p.message) w))
                body (hooked-SentOrClosed p w keep keep'))
      ]

-- ===== src/Rest/Handlers.antt =====
-- What the route handlers of rest/route.go and rest/unrouted.go send and log.
use Prim.Native.String.{◌++◌ as str_append}
use garlic.Common.{
  ◌&&◌, not, ap, sym, if◌then◌else◌, arith, ◌↔◌, insert, Bool-cases, ℕ, String, ◌≡◌, refl, ◌∙◌, inl,
  inr, Bool, true, false, Option, none, some, List, [], ◌∷◌,
}
use garlic.Errors.Primitive.{kind_user_error}
use garlic.Errors.Store.{M, Store, bind-some}
use garlic.Errors.ErrorT.{Err, ErrorT, is_nil}
use garlic.Errors.Chain.{is_kind}
use garlic.Errors.Dto.{Dto}
use garlic.Errors.Kind.{is}
use garlic.Errors.Chain.Laws.{InChain, is_kind_iff}
use garlic.Rest.{
  is_valid, is_informational, body_allowed, accepts, encoded_to, Response, Writer, Entry, Level,
  set_header, write_header, write_body, http_error, must, fallback, write_error, handler, log_entry,
}

-- A status that net/http takes for the final one.
abbrev pub is_final : ℕ → Bool
is_final status = is_valid status && not (is_informational status)

abbrev pub text_of : Option String → String
text_of (some text) = text
text_of none = str_append fallback "\n"

-- The body after a payload was written; it is as it was where the status has no body.
abbrev pub body_after : ℕ → Option String → String → String
body_after status payload body =
    if body_allowed status then str_append body (text_of payload) else body

pub write_header_first :
    (status : ℕ) (w : Writer)
    → w.sent ≡ none
    → is_final status ≡ true
    → write_header status w ≡ record w { sent = some (status, w.header) }
unfolding write_header
write_header_first status w unsent final =
    let valid : is_valid status ≡ true = ground (arith, final) in
    let last : is_informational status ≡ false = ground (arith, final) in
    rw (unsent, write_header, valid, last) refl

pub write_header_again :
    (status : ℕ) (w : Writer) (sent : ℕ × List (String × String))
    → w.sent ≡ some sent
    → write_header status w ≡ w
unfolding write_header
write_header_again status w sent e = simp (e, write_header)

pub accepts-sent :
    (w : Writer) (status : ℕ) (header : List (String × String))
    → w.sent ≡ some (status, header)
    → accepts w ≡ body_allowed status
unfolding accepts
accepts-sent w status header e = rw (e, accepts) refl

pub write_body-sent :
    (text : String) (w : Writer) (status : ℕ) (header : List (String × String))
    → w.sent ≡ some (status, header)
    → write_body text w
      ≡ (if body_allowed status then record w { body = str_append w.body text } else w)
unfolding write_body accepts
write_body-sent text w status header e =
    rw (write_header_again 200 w (status, header) e, accepts-sent w status header e) refl

-- What a writer has after a payload, once a status is sent.
record Written (w : Writer) (status : ℕ) (header : List (String × String)) (payload : Option String)
    (w' : Writer) : Type 0 where
  sent : w'.sent ≡ some (status, header)
  body : w'.body ≡ body_after status payload w.body
  panicked : w'.panicked ≡ w.panicked

write_body-Written :
    (payload : Option String) (w : Writer) (status : ℕ) (header : List (String × String))
    → w.sent ≡ some (status, header)
    → Written w status header payload (write_body (text_of payload) w)
write_body-Written payload w status header e = elim (Bool-cases (body_allowed status)) [
  | inl allowed ↦
      rw (write_body-sent (text_of payload) w status header e, allowed)
        (record { sent = e; body = rw allowed refl; panicked = refl })
  | inr bare ↦
      rw (write_body-sent (text_of payload) w status header e, bare)
        (record { sent = e; body = rw bare refl; panicked = refl })
]

http_error-Written :
    (w : Writer) (status : ℕ) (header : List (String × String))
    → w.sent ≡ some (status, header)
    → Written w status header none (http_error fallback 500 w)
unfolding http_error set_header
http_error-Written w status header e =
    let headed : Writer =
      set_header "X-Content-Type-Options" "nosniff"
        (set_header "Content-Type" "text/plain; charset=utf-8" w) in
    let written = write_body-Written none headed status header e in
    rw (write_header_again 500 headed (status, header) e)
      (record { sent = written.sent; body = written.body; panicked = written.panicked })

encoded_to-Written :
    (payload : Option String) (w : Writer) (status : ℕ) (header : List (String × String))
    → w.sent ≡ some (status, header)
    → Written w status header payload (encoded_to payload w)
unfolding encoded_to accepts
encoded_to-Written none w status header e = http_error-Written w status header e
encoded_to-Written (some text) w status header e = elim (Bool-cases (body_allowed status)) [
  | inl allowed ↦
      rw (accepts-sent w status header e ∙ allowed)
        (write_body-Written (some text) w status header e)
  | inr bare ↦
      let written = http_error-Written w status header e in
      rw (accepts-sent w status header e ∙ bare) (record {
        sent = written.sent;
        body = written.body ∙ rw bare refl;
        panicked = written.panicked;
      })
]

pub if-false : (b : Bool) (x y : Writer) → b ≡ false → (if b then x else y) ≡ y
if-false b x y h = rw h refl

module _ {ℓ} {P : Type ℓ} (encode : P → Option String) (r : Response P) (w : Writer)
    (unsent : w.sent ≡ none) (running : w.panicked ≡ false)
    (final : is_final r.status_code ≡ true) where
  -- A response with a final status, written to a writer that has sent nothing, is sent as JSON with
  -- exactly its own status, also where the payload does not encode: then the fallback envelope is the
  -- body, and the status 500 that comes with it is ignored. After a status that has no body none is sent.
  pub must_sent :
      ((must encode r w).sent
        ≡ some (r.status_code, insert "Content-Type" "application/json" w.header))
      × ((must encode r w).body ≡ body_after r.status_code (encode r.payload) w.body)
      × ((must encode r w).panicked ≡ false)
  unfolding must set_header
  must_sent =
      let headed : Writer = set_header "Content-Type" "application/json" w in
      let written =
        encoded_to-Written (encode r.payload)
          (record headed { sent = some (r.status_code, headed.header) }) r.status_code headed.header
          refl in
      rw
        (
          write_header_first r.status_code headed unsent final,
          if-false w.panicked (record headed { sent = some (r.status_code, headed.header) })
              (encoded_to (encode r.payload)
                (record headed { sent = some (r.status_code, headed.header) }))
              running,
        )
        (written.sent, written.body, written.panicked ∙ running)

-- The level that an error is logged at.
abbrev pub level_of : Bool → Level
level_of true = Level.warn
level_of false = Level.error

log_entry_lem :
    (err : Err)
    → ((log_entry err).err ≡ err) × ((log_entry err).level ≡ level_of (is_kind err kind_user_error))
unfolding log_entry
log_entry_lem err = elim (Bool-cases (is_kind err kind_user_error)) [
  | inl user ↦ rw user (refl, refl)
  | inr system ↦ rw system (refl, refl)
]

module _ (spare : ℕ → ℕ) (unknown : Response Dto) (encode : Dto → Option String)
    (fn : Writer → M (Writer × Err)) (w : Writer) (s : Store) where
  -- A route whose function returns nil sends what the function sent, and logs nothing.
  pub handler-nil :
      {w' : Writer} {err : Err} {s' : Store}
      → fn w s ≡ some ((w', err), s')
      → is_nil err ≡ true
      → handler spare unknown encode fn w s ≡ some ((w', []), s')
  unfolding handler
  handler-nil done fine = bind-some _ done ∙ rw (fine, handler) refl

  -- A route whose function returns an error, having sent nothing, sends the response of `WriteError`
  -- as JSON: its status, the headers so far with the content type, and the encoded payload, or the
  -- fallback where that does not encode, behind what the body has. It logs one entry with the error: a
  -- warning exactly if some garlic error in the chain is of a user kind, else an error. The condition
  -- is that the status is a final one of net/http.
  pub handler-error :
      {w' : Writer} {err : Err} {s₁ s₂ : Store} {response : Response Dto}
      → fn w s ≡ some ((w', err), s₁)
      → is_nil err ≡ false
      → write_error spare unknown err s₁ ≡ some (response, s₂)
      → w'.sent ≡ none
      → w'.panicked ≡ false
      → is_final response.status_code ≡ true
      → (out : Writer) × (entry : Entry) × (handler spare unknown encode fn w s
          ≡ some ((out, entry ∷ []), s₂))
        × (out.sent
            ≡ some (response.status_code, insert "Content-Type" "application/json" w'.header))
        × (out.body ≡ body_after response.status_code (encode response.payload) w'.body)
        × (entry.err ≡ err)
        × ((entry.level ≡ Level.warn)
            ↔ ((e : ErrorT) × InChain e err × (is e.kind kind_user_error ≡ true)))
  unfolding handler
  handler-error {w'} {err} {s₁} {s₂} {response} done there written unsent running final =
      let (sent, body, _) = must_sent encode response w' unsent running final in
      (
        must encode response w',
        log_entry err,
        bind-some _ done ∙ rw (there, handler) (bind-some _ written),
        sent,
        body,
        (log_entry_lem err).0,
        (
          λ warned.
              (is_kind_iff err kind_user_error).0
                (warn_iff (is_kind err kind_user_error) (sym (log_entry_lem err).1 ∙ warned)),
          λ user. (log_entry_lem err).1 ∙ ap level_of ((is_kind_iff err kind_user_error).1 user),
        ),
      )
    where
      warn_iff : (b : Bool) → level_of b ≡ Level.warn → b ≡ true
      warn_iff true h = refl
      warn_iff false h = absurd (cc h)

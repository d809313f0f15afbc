-- ===== src/Middleware/Must.antt =====
-- What middleware/monitoring.go counts for a response that rest/response.go sends.
use Prim.Native.String.{◌++◌ as str_append}
use garlic.Common.{
  ℕ, ◌≡◌, refl, ◌∙◌, ap, sym, String, true, false, if◌then◌else◌, Option, none, some, List, [], ◌∷◌,
  Bool-cases, inl, inr, insert,
}
use garlic.Rest.{
  Response, Writer, set_header, write_body, http_error, must, encoded_to, accepts, body_allowed,
  fallback,
}
use garlic.Rest.Handlers.{
  is_final, write_header_again, write_body-sent, accepts-sent, must_sent, if-false,
}
use garlic.Middleware.{
  sets, heads, writes, Recorder, recorder, made, run, Ending, is_ignored_route, metrics_monitor,
  must_calls, payload_calls, fallback_calls,
}
use garlic.Middleware.Laws.{run-cons, made-heads, traffic}

-- The status that is counted for a response.
abbrev pub counted_as : ℕ → Option String → ℕ
counted_as status none = 500
counted_as status (some text) = if body_allowed status then status else 500

run-fallback :
    (rec : Recorder) (sent : ℕ × List (String × String))
    → rec.writer.sent ≡ some sent
    → rec.writer.panicked ≡ false
    → ((run fallback_calls rec).writer ≡ http_error fallback 500 rec.writer)
      × ((run fallback_calls rec).status ≡ 500)
unfolding run made set_header http_error
run-fallback rec sent e running =
    let typed : Recorder = made (sets "Content-Type" "text/plain; charset=utf-8") rec in
    let guarded : Recorder = made (sets "X-Content-Type-Options" "nosniff") typed in
    let headed : Recorder = made (heads 500) guarded in
    let body : String = str_append fallback "\n" in
    let still : headed.writer.panicked ≡ false =
      ap (λ (w : Writer). w.panicked) (write_header_again 500 guarded.writer sent e) ∙ running in
    let all : run fallback_calls rec ≡ made (writes body) headed =
      run-cons (sets "Content-Type" "text/plain; charset=utf-8")
        (sets "X-Content-Type-Options" "nosniff" ∷ heads 500 ∷ writes body ∷ []) rec running
      ∙ run-cons (sets "X-Content-Type-Options" "nosniff") (heads 500 ∷ writes body ∷ []) typed
          running
      ∙ run-cons (heads 500) (writes body ∷ []) guarded running
      ∙ run-cons (writes body) [] headed still in
    (ap (λ (r : Recorder). r.writer) all, ap (λ (r : Recorder). r.status) all)

run-payload :
    (payload : Option String) (rec : Recorder) (header : List (String × String))
    → rec.writer.sent ≡ some (rec.status, header)
    → rec.writer.panicked ≡ false
    → ((run (payload_calls payload (accepts rec.writer)) rec).writer
        ≡ encoded_to payload rec.writer)
      × ((run (payload_calls payload (accepts rec.writer)) rec).status
          ≡ counted_as rec.status payload)
unfolding run made encoded_to
run-payload none rec header e running = run-fallback rec (rec.status, header) e running
run-payload (some text) rec header e running = elim (Bool-cases (body_allowed rec.status)) [
  | inl allowed ↦
      let yes = accepts-sent rec.writer rec.status header e ∙ allowed in
      let all = run-cons (writes text) [] rec running in
      rw (yes, allowed) (ap (λ (r : Recorder). r.writer) all, ap (λ (r : Recorder). r.status) all)
  | inr bare ↦
      let no = accepts-sent rec.writer rec.status header e ∙ bare in
      let same : write_body text rec.writer ≡ rec.writer =
        write_body-sent text rec.writer rec.status header e ∙ rw bare refl in
      let written : Recorder = made (writes text) rec in
      let (out, status) =
        run-fallback written (rec.status, header) (ap (λ (w : Writer). w.sent) same ∙ e)
          (ap (λ (w : Writer). w.panicked) same ∙ running) in
      let all = run-cons (writes text) fallback_calls rec running in
      rw (no, bare)
        (
          ap (λ (r : Recorder). r.writer) all ∙ out ∙ ap (http_error fallback 500) same,
          ap (λ (r : Recorder). r.status) all ∙ status,
        )
]

module _ {ℓ} {P : Type ℓ} (encode : P → Option String) (r : Response P) (w : Writer)
    (unsent : w.sent ≡ none) (running : w.panicked ≡ false)
    (final : is_final r.status_code ≡ true) where
  run-must_calls :
      ((run (must_calls encode r w) (recorder w)).writer ≡ must encode r w)
      × ((run (must_calls encode r w) (recorder w)).status
          ≡ counted_as r.status_code (encode r.payload))
  unfolding must_calls must made set_header
  run-must_calls =
      let typed : Recorder = made (sets "Content-Type" "application/json") (recorder w) in
      let headed : Recorder = made (heads r.status_code) typed in
      let h = made-heads r.status_code typed unsent running final in
      let rest = payload_calls (encode r.payload) (accepts headed.writer) in
      let all : run (must_calls encode r w) (recorder w) ≡ run rest headed =
        run-cons (sets "Content-Type" "application/json") (heads r.status_code ∷ rest) (recorder w)
          running
        ∙ run-cons (heads r.status_code) rest typed running in
      let (out, status) = run-payload (encode r.payload) headed h.header h.sent h.running in
      (
        ap (λ (rec : Recorder). rec.writer) all
            ∙ out
            ∙ sym (
                if-false headed.writer.panicked headed.writer
                  (encoded_to (encode r.payload) headed.writer) h.running),
        ap (λ (rec : Recorder). rec.status) all ∙ status,
      )

  -- A response with a final status that `Must` sends, on a route that is not ignored and to a writer that
  -- has sent nothing: the client gets exactly the response's own status, and the request is counted with
  -- that status where the payload encodes and the status has a body; otherwise, for a payload that does
  -- not encode, or after 204 and 304, it is counted with 500.
  pub metrics_monitor-must :
      (method route : String) (ending : Ending)
      → is_ignored_route route ≡ false
      → let served =
          metrics_monitor true method route
            (record { calls = must_calls encode r w; ending = ending })
            w in
        (served.writer ≡ must encode r w)
        × (served.writer.sent
            ≡ some (r.status_code, insert "Content-Type" "application/json" w.header))
        × (traffic served.observed ≡ counted_as r.status_code (encode r.payload) ∷ [])
  unfolding metrics_monitor
  metrics_monitor-must method route ending kept =
      let (out, status) = run-must_calls in
      (
        out,
        ap (λ (x : Writer). x.sent) out ∙ (must_sent encode r w unsent running final).0,
        rw (kept, metrics_monitor) (ap (λ s. s ∷ []) status),
      )

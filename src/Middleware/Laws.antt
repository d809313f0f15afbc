-- ===== src/Middleware/Laws.antt =====
-- What middleware/monitoring.go records of a response.
use Prim.Native.String.{◌++◌ as str_append}
use garlic.Common.{
  ℕ, ◌+◌, ◌≡◌, refl, ◌∙◌, ap, sym, String, Bool, true, false, ◌&&◌, if◌then◌else◌, none, some, List,
  [], ◌∷◌, inl, inr, Bool-cases,
}
use garlic.Rest.{Writer, set_header, write_body, accepts, body_allowed}
use garlic.Rest.Handlers.{is_final, write_header_first, write_body-sent}
use garlic.Middleware.{
  Call, sets, heads, writes, Recorder, recorder, made, done, run, Handler, Metric,
  increment_active_requests, decrement_active_requests, increment_traffic, observe_latency,
  is_ignored_route, metrics_monitor,
}

-- A handler that sends one status at most, a final one, and before anything else.
abbrev pub is_orderly : Bool → List Call → Bool
is_orderly sent [] = true
is_orderly sent (sets key value ∷ calls) = is_orderly sent calls
is_orderly true (heads code ∷ calls) = false
is_orderly false (heads code ∷ calls) = is_final code && is_orderly true calls
is_orderly sent (writes body ∷ calls) = is_orderly true calls

-- The writer has sent the status that is recorded.
pub record Sent (rec : Recorder) : Type 0 where
  pub header : List (String × String)
  pub sent : rec.writer.sent ≡ some (rec.status, header)
  pub running : rec.writer.panicked ≡ false

done-made :
    (call : Call) (rec : Recorder) → rec.writer.panicked ≡ false → done call rec ≡ made call rec
unfolding done
done-made call rec running = pick rec.writer.panicked running
  where
    pick : (b : Bool) → b ≡ false → (if b then rec else made call rec) ≡ made call rec
    pick b h = rw h refl

pub run-cons :
    (call : Call) (calls : List Call) (rec : Recorder)
    → rec.writer.panicked ≡ false
    → run (call ∷ calls) rec ≡ run calls (made call rec)
unfolding run
run-cons call calls rec running = ap (run calls) (done-made call rec running)

made-writes : (body : String) (rec : Recorder) → Sent rec → Sent (made (writes body) rec)
unfolding made
made-writes body rec h = elim (Bool-cases (body_allowed rec.status)) [
  | inl allowed ↦ record {
    header = h.header;
    sent =
        ap (λ (w : Writer). w.sent) (write_body-sent body rec.writer rec.status h.header h.sent)
        ∙ rw allowed h.sent;
    running =
        ap (λ (w : Writer). w.panicked) (write_body-sent body rec.writer rec.status h.header h.sent)
        ∙ rw allowed h.running;
  }
  | inr bare ↦ record {
    header = h.header;
    sent =
        ap (λ (w : Writer). w.sent) (write_body-sent body rec.writer rec.status h.header h.sent)
        ∙ rw bare h.sent;
    running =
        ap (λ (w : Writer). w.panicked) (write_body-sent body rec.writer rec.status h.header h.sent)
        ∙ rw bare h.running;
  }
]

run-Sent :
    (calls : List Call) (rec : Recorder)
    → Sent rec
    → is_orderly true calls ≡ true
    → Sent (run calls rec)
unfolding run made set_header
run-Sent [] rec h orderly = h
run-Sent (sets key value ∷ calls) rec h orderly =
    rw (run-cons (sets key value) calls rec h.running) (
      run-Sent calls (made (sets key value) rec)
        (record { header = h.header; sent = h.sent; running = h.running }) orderly)
run-Sent (heads code ∷ calls) rec h orderly = absurd (cc orderly)
run-Sent (writes body ∷ calls) rec h orderly =
    rw (run-cons (writes body) calls rec h.running)
      (run-Sent calls (made (writes body) rec) (made-writes body rec h) orderly)

both_true : (a b : Bool) → (a && b) ≡ true → (a ≡ true) × (b ≡ true)
both_true true b h = (refl, h)
both_true false b h = absurd (cc h)

pub made-heads :
    (code : ℕ) (rec : Recorder)
    → rec.writer.sent ≡ none
    → rec.writer.panicked ≡ false
    → is_final code ≡ true
    → Sent (made (heads code) rec)
unfolding made
made-heads code rec unsent running final =
    let first = write_header_first code rec.writer unsent final in
    record {
      header = rec.writer.header;
      sent = ap (λ (w : Writer). w.sent) first;
      running = ap (λ (w : Writer). w.panicked) first ∙ running;
    }

write_body_first :
    (body : String) (w : Writer)
    → w.sent ≡ none
    → write_body body w ≡ record w { sent = some (200, w.header); body = str_append w.body body }
unfolding write_body accepts body_allowed
write_body_first body w unsent = rw (write_header_first 200 w unsent refl) refl

made-writes_first :
    (body : String) (rec : Recorder)
    → rec.writer.sent ≡ none
    → rec.writer.panicked ≡ false
    → rec.status ≡ 200
    → Sent (made (writes body) rec)
unfolding made
made-writes_first body rec unsent running first =
    let written = write_body_first body rec.writer unsent in
    record {
      header = rec.writer.header;
      sent =
          ap (λ (w : Writer). w.sent) written ∙ ap (λ s. some (s, rec.writer.header)) (sym first);
      running = ap (λ (w : Writer). w.panicked) written ∙ running;
    }

-- What a handler has sent that ran to its end: the recorded status, or none, and 200 is recorded.
data Ran (rec : Recorder) : Type 0 where
  sent_one : Sent rec → Ran rec
  sent_none : rec.writer.sent ≡ none → rec.status ≡ 200 → rec.writer.panicked ≡ false → Ran rec

run-Ran :
    (calls : List Call) (rec : Recorder)
    → rec.writer.sent ≡ none
    → rec.writer.panicked ≡ false
    → rec.status ≡ 200
    → is_orderly false calls ≡ true
    → Ran (run calls rec)
unfolding run made set_header
run-Ran [] rec unsent running first orderly = sent_none unsent first running
run-Ran (sets key value ∷ calls) rec unsent running first orderly =
    rw (run-cons (sets key value) calls rec running)
      (run-Ran calls (made (sets key value) rec) unsent running first orderly)
run-Ran (heads code ∷ calls) rec unsent running first orderly =
    let (final, rest) = both_true (is_final code) (is_orderly true calls) orderly in
    rw (run-cons (heads code) calls rec running) (
      sent_one
        (run-Sent calls (made (heads code) rec) (made-heads code rec unsent running final) rest))
run-Ran (writes body ∷ calls) rec unsent running first orderly =
    rw (run-cons (writes body) calls rec running) (
      sent_one (
        run-Sent calls (made (writes body) rec) (made-writes_first body rec unsent running first)
          orderly))

-- The active requests that are begun and those that are over.
abbrev pub begun : List Metric → ℕ
begun [] = 0
begun (increment_active_requests m r ∷ ms) = 1 + begun ms
begun (decrement_active_requests m r ∷ ms) = begun ms
begun (increment_traffic m r s ∷ ms) = begun ms
begun (observe_latency m r s ∷ ms) = begun ms

abbrev pub over : List Metric → ℕ
over [] = 0
over (increment_active_requests m r ∷ ms) = over ms
over (decrement_active_requests m r ∷ ms) = 1 + over ms
over (increment_traffic m r s ∷ ms) = over ms
over (observe_latency m r s ∷ ms) = over ms

-- The requests that are counted, with their statuses.
abbrev pub traffic : List Metric → List ℕ
traffic [] = []
traffic (increment_active_requests m r ∷ ms) = traffic ms
traffic (decrement_active_requests m r ∷ ms) = traffic ms
traffic (increment_traffic m r s ∷ ms) = s ∷ traffic ms
traffic (observe_latency m r s ∷ ms) = traffic ms

-- What is counted for what was sent.
pub data Counted (w : Writer) (counted : List ℕ) : Type 0 where
  as_sent :
      (status : ℕ) (header : List (String × String))
      → w.sent ≡ some (status, header)
      → counted ≡ status ∷ []
      → Counted w counted
  as_ok : w.sent ≡ none → counted ≡ 200 ∷ [] → Counted w counted

Ran-Counted : (rec : Recorder) → Ran rec → Counted rec.writer (rec.status ∷ [])
Ran-Counted rec (sent_one h) = as_sent rec.status h.header h.sent refl
Ran-Counted rec (sent_none unsent first running) = as_ok unsent (ap (λ s. s ∷ []) first)

Ran-running : (rec : Recorder) → Ran rec → rec.writer.panicked ≡ false
Ran-running rec (sent_one h) = h.running
Ran-running rec (sent_none unsent first running) = running

-- For a route that is not ignored, a writer that has sent nothing, and a handler that sends one status at
-- most, a final one and before any body: however the handler ends, one active request is begun and one
-- is over, and one request is counted, with the status that the handler sent, or with 200 where it sent
-- none, which is so also where it panics and the client gets no response.
pub metrics_monitor_counts :
    (method route : String) (next : Handler) (w : Writer)
    → w.sent ≡ none
    → w.panicked ≡ false
    → is_ignored_route route ≡ false
    → is_orderly false next.calls ≡ true
    → let served = metrics_monitor true method route next w in
      (begun served.observed ≡ 1)
      × (over served.observed ≡ 1)
      × Counted served.writer (traffic served.observed)
      × (served.ending ≡ next.ending)
unfolding metrics_monitor
metrics_monitor_counts method route next w unsent running kept orderly =
    let ran = run-Ran next.calls (recorder w) unsent running refl orderly in
    let counted = Ran-Counted (run next.calls (recorder w)) ran in
    rw (kept, metrics_monitor)
      (refl, refl, counted, rw (Ran-running (run next.calls (recorder w)) ran) refl)

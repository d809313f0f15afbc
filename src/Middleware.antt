-- ===== src/Middleware.antt =====
-- middleware/monitoring.go, middleware/logging.go and middleware/content_type_json.go, with the calls of
-- monitoring/monitoring.go that they make. A handler is the calls that it makes on the response writer, and how it
-- ends. The router is a third-party package: what it says of a request is an argument. Durations are left out.
pub mod Laws
pub mod Must
mod Tests
use garlic.Common.{
  ℕ, ◌+◌, String, Bool, true, false, if◌then◌else◌, Option, none, some, List, [], ◌∷◌, ◌++◌, str_eq,
}
use garlic.Rest.{Response, Writer, set_header, write_header, write_body, accepts, fallback}
use Prim.Native.String.{◌++◌ as str_append}

pub data Call : Type 0 where
  sets : String → String → Call
  heads : ℕ → Call
  writes : String → Call

-- `statusRecorder` and `loggingResponseWriter`: the status at first, or of the latest `WriteHeader`, and
-- the texts that the writer has accepted, which only the latter reads.
pub record Recorder : Type 0 where
  pub writer : Writer
  pub status : ℕ
  pub written : List String

abbrev pub recorder : Writer → Recorder
recorder w = record { writer = w; status = 200; written = [] }

unfoldable pub made : Call → Recorder → Recorder
made (sets key value) rec = record rec { writer = set_header key value rec.writer }
made (heads code) rec = record rec { writer = write_header code rec.writer; status = code }
made (writes body) rec = record rec {
  writer = write_body body rec.writer;
  written = if accepts rec.writer then rec.written ++ body ∷ [] else rec.written;
}

-- After a panic the handler makes no more calls.
unfoldable pub done : Call → Recorder → Recorder
done call rec = if rec.writer.panicked then rec else made call rec

unfoldable pub run : List Call → Recorder → Recorder
run [] rec = rec
run (call ∷ calls) rec = run calls (done call rec)

pub data Ending : Type 0 where
  returns panics : Ending

pub record Handler : Type 0 where
  pub calls : List Call
  pub ending : Ending

-- How a handler ends: a call with an invalid status panics.
abbrev pub ended : Recorder → Ending → Ending
ended rec ending = if rec.writer.panicked then panics else ending

-- A call of the package monitoring, with the method and the route of the request.
pub data Metric : Type 0 where
  increment_active_requests decrement_active_requests : String → String → Metric
  increment_traffic observe_latency : String → String → ℕ → Metric

-- Without instruments the calls do nothing; whether there are any is found out once.
abbrev pub measured : Bool → List Metric → List Metric
measured false metrics = []
measured true metrics = metrics

unfoldable pub is_ignored_route : String → Bool
is_ignored_route route = str_eq route "/health"

-- What a middleware leaves behind.
pub record Served (A : Type 0) : Type 0 where
  pub writer : Writer
  pub ending : Ending
  pub observed : List A

-- The deferred function runs on either ending.
unfoldable pub metrics_monitor : Bool → String → String → Handler → Writer → Served Metric
metrics_monitor instruments method route next w =
    let rec = run next.calls (recorder w) in
    record {
      writer = rec.writer;
      ending = ended rec next.ending;
      observed =
          if is_ignored_route route
          then []
          else measured instruments (
              increment_active_requests method route
              ∷ decrement_active_requests method route
              ∷ increment_traffic method route rec.status
              ∷ observe_latency method route rec.status
              ∷ []);
    }

-- `getRoutePattern`: whether there is a route context, its pattern, and, for the path of the URL, the
-- pattern that the router finds.
unfoldable pub get_route_pattern :
    Option String → (String → Option String) → String → String → String
get_route_pattern none match path raw_path = "unknown"
get_route_pattern (some pattern) match path raw_path =
    if str_eq pattern ""
    then matched (match (if str_eq raw_path "" then path else raw_path))
    else pattern
  where
    matched : Option String → String
    matched none = "unknown"
    matched (some found) = found

-- The sizes of what was written.
unfoldable pub response_size : (String → ℕ) → List String → ℕ
response_size size [] = 0
response_size size (body ∷ bodies) = size body + response_size size bodies

pub record Logged : Type 0 where
  pub request_method : String
  pub request_url : String
  pub response_status : ℕ
  pub response_size : ℕ

-- The entry of `Logging`; nothing is deferred here.
abbrev pub logged_on : Ending → String → Logged → List Logged
logged_on panics url entry = []
logged_on returns url entry = if str_eq url "/health" then [] else entry ∷ []

unfoldable pub logging : (String → ℕ) → String → String → Handler → Writer → Served Logged
logging size method url next w =
    let rec = run next.calls (recorder w) in
    let ending = ended rec next.ending in
    record {
      writer = rec.writer;
      ending = ending;
      observed = logged_on ending url (record {
        request_method = method;
        request_url = url;
        response_status = rec.status;
        response_size = response_size size rec.written;
      });
    }

unfoldable pub content_type_json : Handler → Handler
content_type_json next = record next { calls = sets "Content-Type" "application/json" ∷ next.calls }

-- The calls that `Must` of rest/response.go makes: after the header it encodes, and where that or the
-- write fails it sends the fallback.
abbrev pub fallback_calls : List Call
fallback_calls =
    sets "Content-Type" "text/plain; charset=utf-8"
    ∷ sets "X-Content-Type-Options" "nosniff"
    ∷ heads 500
    ∷ writes (str_append fallback "\n")
    ∷ []

abbrev pub payload_calls : Option String → Bool → List Call
payload_calls none accepted = fallback_calls
payload_calls (some text) true = writes text ∷ []
payload_calls (some text) false = writes text ∷ fallback_calls

unfoldable pub must_calls {ℓ} : {P : Type ℓ} → (P → Option String) → Response P → Writer → List Call
must_calls encode r w =
    sets "Content-Type" "application/json"
    ∷ heads r.status_code
    ∷ payload_calls (encode r.payload)
        (accepts (write_header r.status_code (set_header "Content-Type" "application/json" w)))

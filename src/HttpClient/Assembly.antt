-- ===== src/HttpClient/Assembly.antt =====
-- How httpclient/request.go prepares the request that it sends, before the send loop: the body, the hooks
-- and the tracing headers; and what httpclient/response.go says of a response. A header has one value; the
-- names are in canonical form.
use garlic.Common.{
  ◌==◌, ℕ, String, Bool, true, false, not, ◌&&◌, Option, none, some, List, [], ◌∷◌, if◌then◌else◌,
  ltb, leb, str_eq, lookup, insert, length, ◌⊎◌, inl, inr,
}
use garlic.Errors.Store.{Table, text, num, flag}
use garlic.Errors.ErrorT.{Err}
use garlic.HttpClient.Retry.{Message, Headers}
use garlic.HttpClient.Diagnostic.{Capture, capture_diagnostic}

-- What a body provider yields; a negative length is none.
pub record Provided : Type 0 where
  pub content : String
  pub content_type : String
  pub content_length : Option ℕ
  pub replayable : Bool

-- `Header.Get`
abbrev pub header_value : String → Headers → String
header_value key header = elim (lookup key header) [ none ↦ "" | some value ↦ value ]

abbrev pub set_if_missing : String → String → Message → Message
set_if_missing key value m =
    if str_eq (header_value key m.header) ""
    then record m { header = insert key value m.header }
    else m

abbrev length_or_zero : Option ℕ → ℕ
length_or_zero none = 0
length_or_zero (some n) = n

-- The message with its body, the content length, and whether the body can be replayed. A replayable
-- provider yields the same content at every call.
pub record Prepared : Type 0 where
  pub message : Message
  pub content_length : ℕ
  pub replayable : Bool

abbrev with_body : Provided → Message → Message
with_body p m =
    let typed =
      if not (str_eq p.content_type "")
      then set_if_missing "Content-Type" p.content_type m
      else m in
    record typed {
      body = some p.content;
      get_body = if p.replayable then some (inr p.content) else m.get_body;
    }

-- `applyBody`
unfoldable pub apply_body : Option (Err ⊎ Provided) → Message → Err ⊎ Prepared
apply_body none m = inr (record { message = m; content_length = 0; replayable = true })
apply_body (some (inl err)) m = inl err
apply_body (some (inr p)) m = inr (record {
  message = with_body p m;
  content_length = length_or_zero p.content_length;
  replayable = p.replayable;
})

-- One loop of `runBefore` or `runAfter`, over hooks that change what they get.
unfoldable pub run_hooks : {A : Type 0} → List (A → Err ⊎ A) → A → Err ⊎ A
run_hooks [] a = inr a
run_hooks (hook ∷ hooks) a = elim (hook a) [ inl err ↦ inl err | inr a' ↦ run_hooks hooks a' ]

-- The client's hooks run before the request's.
unfoldable pub run_both : {A : Type 0} → List (A → Err ⊎ A) → List (A → Err ⊎ A) → A → Err ⊎ A
run_both client request a = elim (run_hooks client a) [
  | inl err ↦ inl err
  | inr a' ↦ run_hooks request a'
]

abbrev pub set_known : String → Option String → Message → Message
set_known key none m = m
set_known key (some value) m = set_if_missing key value m

-- `injectTracing`, with the identifiers that the context has.
unfoldable pub inject_tracing : Option String → Option String → Message → Message
inject_tracing session_id request_id m =
    set_known "X-Request-Id" request_id (set_known "X-Session-Id" session_id m)

unfoldable pub is_success : ℕ → Bool
is_success status = leb 200 status && ltb status 300

unfoldable pub is_error : ℕ → Bool
is_error status = leb 400 status

abbrev pub no_capture : Capture
no_capture = record { text = []; length_of = 0; truncated = false; readable = false }

-- `describeBody`
unfoldable pub describe_body : List ℕ → Bool → Capture × String
describe_body body read_failed =
    if read_failed
    then (capture_diagnostic body, "failed reading the upstream error response")
    else if length body == 0
    then (no_capture, "upstream returned an empty error response")
    else (capture_diagnostic body, "upstream returned a non-garlic error response")

-- `responseMetadata`
unfoldable pub response_metadata : ℕ → String → Capture → Table
response_metadata status media_type body =
    let metadata : Table =
      ("http_status", num status)
      ∷ ("body_bytes", num body.length_of)
      ∷ ("truncated", flag body.truncated)
      ∷ [] in
    if str_eq media_type "" then metadata else insert "content_type" (text media_type) metadata

-- ===== src/Tracing.antt =====
-- tracing/tracing.go, request/tracing.go and middleware/tracing.go: the identifiers of a request and of a
-- session, in the context of a request and in its headers. The identifiers of requests are UUIDs of a
-- third-party package, so their type, their parser and their text are arguments.
pub mod Middleware
pub mod Laws
mod Tests
use garlic.Common.{
  ℕ, String, Bool, true, false, Option, none, some, List, [], ◌∷◌, ◌++◌, if◌then◌else◌, str_eq,
  insert, ◌⊎◌, inl, inr,
}
use garlic.Errors.Catalog.{
  kind_context_error, kind_context_value_not_found_error, kind_invalid_request_error,
}
use garlic.Errors.ErrorT.{Err}
use garlic.Errors.Failure.{Failure, new, propagate_as, propagate}
use garlic.HttpClient.Retry.{Headers, Message}
use garlic.HttpClient.Assembly.{header_value, inject_tracing}

pub data Key : Type 0 where
  request_id_key session_id_key : Key

abbrev pub same_key : Key → Key → Bool
same_key request_id_key request_id_key = true
same_key request_id_key session_id_key = false
same_key session_id_key request_id_key = false
same_key session_id_key session_id_key = true

-- What a key of a context can hold, since a caller may store anything.
pub data ContextValue (Uuid : Type 0) : Type 0 where
  uuid : Uuid → ContextValue Uuid
  string : String → ContextValue Uuid
  another : ContextValue Uuid

-- The values that were stored, the latest first.
abbrev pub Context : Type 0 → Type 0
Context Uuid = List (Key × ContextValue Uuid)

abbrev pub header_request_id : String
header_request_id = "X-Request-Id"

abbrev pub header_session_id : String
header_session_id = "X-Session-Id"

pub record Uuids : Type 1 where
  pub Uuid : Type 0
  pub parse : String → Err ⊎ Uuid
  pub print : Uuid → String

-- A request in a server, with the fields of the logger in its context.
pub record HttpRequest (Uuid : Type 0) : Type 0 where
  pub header : Headers
  pub context : Context Uuid
  pub log_fields : List (String × String)

-- What a middleware hands on: the request, the headers of the response and what it logged as an error.
pub record Passed (Uuid : Type 0) : Type 0 where
  pub request : HttpRequest Uuid
  pub response_header : Headers
  pub logged : List Failure

module _ (u : Uuids) where
  open u use {Uuid, parse, print}

  -- `ctx.Value(key)`
  unfoldable pub value : Key → Context Uuid → Option (ContextValue Uuid)
  value key [] = none
  value key ((other, v) ∷ ctx) = if same_key other key then some v else value key ctx

  abbrev pub as_uuid : Option (ContextValue Uuid) → Failure ⊎ Uuid
  as_uuid none =
      inl (new kind_context_value_not_found_error "request id is not set in this context")
  as_uuid (some (uuid id)) = inr id
  as_uuid (some (string s)) = inl (new kind_context_error "invalid request id found in context")
  as_uuid (some another) = inl (new kind_context_error "invalid request id found in context")

  abbrev pub as_string : Option (ContextValue Uuid) → Failure ⊎ String
  as_string none =
      inl (new kind_context_value_not_found_error "session id is not set in this context")
  as_string (some (string s)) = inr s
  as_string (some (uuid id)) = inl (new kind_context_error "invalid session id found in context")
  as_string (some another) = inl (new kind_context_error "invalid session id found in context")

  unfoldable pub get_request_id_from_context : Context Uuid → Failure ⊎ Uuid
  get_request_id_from_context ctx = as_uuid (value request_id_key ctx)

  unfoldable pub get_session_id_from_context : Context Uuid → Failure ⊎ String
  get_session_id_from_context ctx = as_string (value session_id_key ctx)

  unfoldable pub set_context_request_id : Uuid → Context Uuid → Context Uuid
  set_context_request_id id ctx = (request_id_key, uuid id) ∷ ctx

  unfoldable pub set_context_session_id : String → Context Uuid → Context Uuid
  set_context_session_id id ctx = (session_id_key, string id) ∷ ctx

  -- The value, or nothing where the program ends with a fatal message.
  abbrev pub or_fatal : {A : Type 0} → Failure ⊎ A → Option A
  or_fatal (inl f) = none
  or_fatal (inr a) = some a

  unfoldable pub must_get_request_id_from_context : Context Uuid → Option Uuid
  must_get_request_id_from_context ctx = or_fatal (get_request_id_from_context ctx)

  unfoldable pub must_get_session_id_from_context : Context Uuid → Option String
  must_get_session_id_from_context ctx = or_fatal (get_session_id_from_context ctx)

  abbrev pub rewrapped : {A : Type 0} → String → Failure ⊎ A → Failure ⊎ A
  rewrapped message (inl f) = inl (propagate f message)
  rewrapped message (inr a) = inr a

  unfoldable pub get_request_id : HttpRequest Uuid → Failure ⊎ Uuid
  get_request_id r =
      rewrapped "failed to get request id in this request" (get_request_id_from_context r.context)

  unfoldable pub get_session_id : HttpRequest Uuid → Failure ⊎ String
  get_session_id r =
      rewrapped "failed to get session id in this request" (get_session_id_from_context r.context)

  unfoldable pub set_request_id : Uuid → HttpRequest Uuid → HttpRequest Uuid
  set_request_id id r = record r { context = set_context_request_id id r.context }

  unfoldable pub set_session_id : String → HttpRequest Uuid → HttpRequest Uuid
  set_session_id id r = record r { context = set_context_session_id id r.context }

-- ===== src/Tracing/Middleware.antt =====
-- middleware/tracing.go: what the two tracing middlewares hand on, and `injectTracing` of
-- httpclient/request.go on the context of a request.
use garlic.Common.{
  String, Option, none, some, [], ◌∷◌, ◌++◌, if◌then◌else◌, str_eq, insert, ◌⊎◌, inl, inr,
}
use garlic.Errors.Catalog.{kind_invalid_request_error}
use garlic.Errors.ErrorT.{Err}
use garlic.Errors.Failure.{Failure, new, propagate_as}
use garlic.HttpClient.Retry.{Headers, Message}
use garlic.HttpClient.Assembly.{header_value, inject_tracing}
use garlic.Tracing.{
  Context, header_request_id, header_session_id, Uuids, HttpRequest, Passed,
  get_request_id_from_context, get_session_id_from_context, set_request_id, set_session_id,
}

module _ (u : Uuids) where
  open u use {Uuid, parse, print}

  abbrev pub parsed : Err ⊎ Uuid → Failure ⊎ Uuid
  parsed (inl err) =
      inl (propagate_as kind_invalid_request_error err "missing mandatory request header")
  parsed (inr id) = inr id

  unfoldable pub request_header_request_id : HttpRequest Uuid → Failure ⊎ Uuid
  request_header_request_id r = parsed (parse (header_value header_request_id r.header))

  unfoldable pub request_header_session_id : HttpRequest Uuid → Failure ⊎ String
  request_header_session_id r =
      let session_id = header_value header_session_id r.header in
      if str_eq session_id ""
      then inl (new kind_invalid_request_error "missing mandatory request header")
      else inr session_id

  abbrev pub log_with : String → String → HttpRequest Uuid → HttpRequest Uuid
  log_with key text r = record r { log_fields = r.log_fields ++ (key, text) ∷ [] }

  abbrev pub with_request_id : Failure ⊎ Uuid → Passed Uuid → Passed Uuid
  with_request_id (inl f) p = record p { logged = p.logged ++ f ∷ [] }
  with_request_id (inr id) p = record p {
    request = set_request_id u id (log_with "request_id" (print id) p.request);
    response_header = insert header_request_id (print id) p.response_header;
  }

  abbrev pub with_session_id : Failure ⊎ String → Passed Uuid → Passed Uuid
  with_session_id (inl f) p = record p { logged = p.logged ++ f ∷ [] }
  with_session_id (inr id) p = record p {
    request = set_session_id u id (log_with "session_id" id p.request);
    response_header = insert header_session_id id p.response_header;
  }

  abbrev pub received : HttpRequest Uuid → Headers → Passed Uuid
  received r response_header = record {
    request = r;
    response_header = response_header;
    logged = [];
  }

  -- `Tracing`, with the identifier that `uuid.New` gives.
  unfoldable pub tracing : Uuid → HttpRequest Uuid → Headers → Passed Uuid
  tracing fresh r response_header = with_request_id (inr fresh) (received r response_header)

  -- `PropagateTracing`
  unfoldable pub propagate_tracing : HttpRequest Uuid → Headers → Passed Uuid
  propagate_tracing r response_header =
      let p = with_request_id (request_header_request_id r) (received r response_header) in
      with_session_id (request_header_session_id p.request) p

  abbrev pub if_found : {A : Type 0} → (A → String) → Failure ⊎ A → Option String
  if_found show (inl f) = none
  if_found show (inr a) = some (show a)

  -- `injectTracing` of a client that serves a request with this context.
  unfoldable pub injected : Context Uuid → Message → Message
  injected ctx m =
      inject_tracing (if_found (λ s. s) (get_session_id_from_context u ctx))
        (if_found print (get_request_id_from_context u ctx)) m

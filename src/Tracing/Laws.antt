-- ===== src/Tracing/Laws.antt =====
-- The identifiers that a client of httpclient/request.go sends are those that the server behind it, with
-- `PropagateTracing` of middleware/tracing.go, has in its context.
use garlic.Common.{
  ◌≡◌, ◌≢◌, refl, ◌∙◌, ap, String, false, [], str_eq, eq_iff, eq_refl, insert, lookup-insert, inl,
  inr, Bool-cases,
}
use garlic.HttpClient.Retry.{Headers, Message}
use garlic.HttpClient.Assembly.{header_value, inject_tracing}
use garlic.Tracing.{
  Context, header_request_id, header_session_id, Uuids, HttpRequest, get_request_id_from_context,
  get_session_id_from_context, get_request_id, get_session_id, set_request_id, set_session_id,
  value, set_context_request_id, set_context_session_id,
}
use garlic.Tracing.Middleware.{
  request_header_request_id, request_header_session_id, propagate_tracing, injected,
}

header_value-insert : (key v : String) (h : Headers) → header_value key (insert key v h) ≡ v
header_value-insert key v h = rw (lookup-insert key key v h, header_value, eq_refl key) refl

header_value-insert_ne :
    (key other v : String) (h : Headers)
    → str_eq other key ≡ false
    → header_value key (insert other v h) ≡ header_value key h
header_value-insert_ne key other v h apart =
    rw (lookup-insert other key v h, header_value, apart) refl

not-empty : (s : String) → s ≢ "" → str_eq s "" ≡ false
not-empty s ne = elim (Bool-cases (str_eq s "")) [
  | inl same ↦ absurd (ne ((eq_iff s "").0 same))
  | inr other ↦ other
]

module _ (u : Uuids) where
  open u use {Uuid, parse, print}

  injected-header :
      (ctx : Context Uuid) (id : Uuid) (s : String) (m : Message)
      → get_request_id_from_context u ctx ≡ inr id
      → get_session_id_from_context u ctx ≡ inr s
      → header_value header_request_id m.header ≡ ""
      → header_value header_session_id m.header ≡ ""
      → (injected u ctx m).header
        ≡ insert header_request_id (print id) (insert header_session_id s m.header)
  unfolding injected inject_tracing
  injected-header ctx id s m has_id has_session no_id no_session =
      rw
        (
          has_id,
          has_session,
          no_session,
          header_value-insert_ne header_request_id header_session_id s m.header refl,
          no_id,
        )
        refl

  -- Where the context of the client has both identifiers, the session's is not empty, the text of a UUID
  -- is read back, and the request that is sent has neither header of its own, the server that receives
  -- its headers has both identifiers in the context of the request that it handles, sends both back in
  -- the headers of its response, and logs no error.
  pub propagate_tracing-injected :
      (ctx : Context Uuid) (id : Uuid) (s : String) (m : Message) (r : HttpRequest Uuid)
      (h : Headers)
      → parse (print id) ≡ inr id
      → s ≢ ""
      → get_request_id_from_context u ctx ≡ inr id
      → get_session_id_from_context u ctx ≡ inr s
      → header_value header_request_id m.header ≡ ""
      → header_value header_session_id m.header ≡ ""
      → r.header ≡ (injected u ctx m).header
      → (get_request_id u (propagate_tracing u r h).request ≡ inr id)
        × (get_session_id u (propagate_tracing u r h).request ≡ inr s)
        × (header_value header_request_id (propagate_tracing u r h).response_header ≡ print id)
        × (header_value header_session_id (propagate_tracing u r h).response_header ≡ s)
        × ((propagate_tracing u r h).logged ≡ [])
  unfolding propagate_tracing request_header_request_id request_header_session_id get_request_id
      get_session_id get_request_id_from_context get_session_id_from_context value set_request_id
      set_session_id set_context_request_id set_context_session_id
  propagate_tracing-injected ctx id s m r h read_back there has_id has_session no_id no_session
        same =
      let sent = same ∙ injected-header ctx id s m has_id has_session no_id no_session in
      let arrived_id : header_value header_request_id r.header ≡ print id =
        ap (header_value header_request_id) sent
        ∙ header_value-insert header_request_id (print id) _ in
      let arrived_session : header_value header_session_id r.header ≡ s =
        ap (header_value header_session_id) sent
        ∙ header_value-insert_ne header_session_id header_request_id (print id) _ refl
        ∙ header_value-insert header_session_id s m.header in
      rw (arrived_id, read_back, arrived_session, not-empty s there)
        (
          refl,
          refl,
          header_value-insert_ne header_request_id header_session_id s _ refl
              ∙ header_value-insert header_request_id (print id) h,
          header_value-insert header_session_id s _,
          refl,
        )

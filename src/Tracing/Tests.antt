-- ===== src/Tracing/Tests.antt =====
-- Two services: one calls the other while it serves a request, with the identifiers of both.
use garlic.Common.{String, ◌≡◌, refl, none, [], ◌∷◌, inr, lookup}
use garlic.HttpClient.Retry.{Message}
use garlic.HttpClient.Assembly.{header_value}
use garlic.Tracing.{
  Context, request_id_key, session_id_key, uuid, string, header_request_id, header_session_id,
  Uuids, HttpRequest, value, get_request_id_from_context, get_session_id_from_context,
  get_request_id, get_session_id,
}
use garlic.Tracing.Middleware.{propagate_tracing, injected}
use garlic.Tracing.Laws.{propagate_tracing-injected}

-- The text of an identifier stands for it.
abbrev uuids : Uuids
uuids = record { Uuid = String; parse = λ s. inr s; print = λ s. s }

abbrev context : Context String
context = (session_id_key, string "s1") ∷ (request_id_key, uuid "r1") ∷ []

abbrev call : Message
call = record { method = "GET"; header = []; body = none; get_body = none }

abbrev arriving : HttpRequest String
arriving = record { header = (injected uuids context call).header; context = []; log_fields = [] }

propagate_tracing-injected_example :
    (get_request_id uuids (propagate_tracing uuids arriving []).request ≡ inr "r1")
    × (get_session_id uuids (propagate_tracing uuids arriving []).request ≡ inr "s1")
    × (header_value header_request_id (propagate_tracing uuids arriving []).response_header ≡ "r1")
    × (header_value header_session_id (propagate_tracing uuids arriving []).response_header ≡ "s1")
    × ((propagate_tracing uuids arriving []).logged ≡ [])
unfolding get_request_id_from_context get_session_id_from_context value lookup
propagate_tracing-injected_example =
    propagate_tracing-injected uuids context "r1" "s1" call arriving [] refl (λ e. cc) refl refl
      refl refl refl

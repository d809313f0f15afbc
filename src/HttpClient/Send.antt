-- ===== src/HttpClient/Send.antt =====
-- `Send`, `execute` and `handleResponse` of httpclient/request.go, and `NewClient` and `buildURL` of
-- httpclient/client.go as far as a send uses them. The parsers of net/url and of net/http are arguments.
-- The deadline of the context, the logger and the fields of the error's context are left out.
pub mod Laws
pub mod Answers
mod Tests
use Prim.Native.String.{◌++◌ as str_append}
use garlic.Common.{
  ℕ, String, Bool, true, false, not, ◌&&◌, Option, none, some, List, [], ◌∷◌, ◌++◌, if◌then◌else◌,
  str_eq, insert, ◌⊎◌, inl, inr,
}
use garlic.Errors.Primitive.{kind_system_error}
use garlic.Errors.Catalog.{kind_response_decode_error}
use garlic.Errors.ErrorT.{Err}
use garlic.HttpClient.Retry.{
  Headers, Reply, Message, Failure, propagate_as, propagate, given, RetryConfig, Env, Request,
  Event, drained, closed, Step, S, pure, fail, after, ◌>>=◌, inject_auth, do_with_retry,
}
use garlic.HttpClient.Assembly.{
  Provided, header_value, apply_body, run_both, inject_tracing, is_success, Prepared,
}
use garlic.HttpClient.Draft.{Encoders, BodyProvider, provide, Draft}

-- A URL as net/url reads it: the address without a query, and the query.
pub record Url : Type 0 where
  pub address : String
  pub query : List (String × String)

pub record UrlParser : Type 0 where
  pub parse : String → Err ⊎ Url
  pub join_path : Url → String → Url
  pub print : Url → String

abbrev pub set_query : List (String × String) → List (String × String) → List (String × String)
set_query [] q = q
set_query ((key, value) ∷ params) q = set_query params (insert key value q)

abbrev pub joined : UrlParser → String → Url → Url
joined urls uri u = if str_eq uri "" then u else urls.join_path u uri

abbrev pub with_params : List (String × String) → Url → Url
with_params [] u = u
with_params (p ∷ params) u = record u { query = set_query (p ∷ params) u.query }

-- `buildURL`
unfoldable pub build_url : UrlParser → String → String → List (String × String) → Err ⊎ String
build_url urls base_url uri params =
    let none_given = str_eq base_url "" in
    elim (urls.parse (if none_given then uri else base_url)) [
      | inl err ↦ inl err
      | inr u ↦
          inr (urls.print (with_params params (joined urls (if none_given then "" else uri) u)))
    ]

-- What the client gives to each of its requests. `session_id` and `request_id` are those of the context.
pub record Client (W : Type 0) : Type 0 where
  pub urls : UrlParser
  pub encoders : Encoders
  pub new_request_err : String → String → Option Err
  pub decode_err : ℕ → Reply → Option Err
  pub base_url : String
  pub base_headers : Headers
  pub before_request : List (Message → Err ⊎ Message)
  pub after_response : List (Reply → Err ⊎ Reply)
  pub retry : RetryConfig W
  pub token_source : Option (W → (Err ⊎ String) × W)
  pub session_id : Option String
  pub request_id : Option String

-- The base headers of the client under those of the request.
abbrev pub over : Headers → Headers → Headers
over [] base = base
over ((key, value) ∷ header) base = over header (insert key value base)

-- How a call ends: with a response and an error, either of which can be nil, or with a panic.
pub data Exit : Type 0 where
  returned : Option Reply → Option Failure → Exit
  panicked : Exit

pub record Sent (W : Type 0) : Type 0 where
  pub exit : Exit
  pub world : W
  pub events : List Event

module _ {W : Type 0} (env : Env W) (c : Client W) (r : Draft Message Reply) where
  unfoldable pub loop_request : Request W
  loop_request = record {
    retry = c.retry;
    retry_override = r.retry_override;
    has_basic = r.has_basic;
    basic_user = r.basic_user;
    basic_pass = r.basic_pass;
    auth_token = r.auth_token;
    token_source = c.token_source;
  }

  -- `abort`: the request will not be sent, and its body is closed.
  abbrev pub abort : {A : Type 0} → Message → Failure → S W A
  abort m f w = record {
    result = inl f;
    world = w;
    events = elim m.body [ none ↦ [] | some content ↦ closed (some content) ∷ [] ];
  }

  abbrev pub provided : Option BodyProvider → Option (Err ⊎ Provided)
  provided none = none
  provided (some body) = some (inr (provide c.encoders body))

  abbrev pub sets_auth : Message → Bool
  sets_auth m =
      not (str_eq (header_value "Authorization" m.header) "")
      && (str_eq r.auth_token "" && not r.has_basic)

  -- What follows the hooks. A failure of the token source ends the request like one of a hook.
  unfoldable pub authorized : Bool → Message → S W (Option (Option Reply))
  authorized replayable m w =
      let caller_set = sets_auth m in
      let t = inject_auth env loop_request caller_set m w in
      elim t.result [
        | inl f ↦ abort m (propagate f "failed to inject authorization") t.world
        | inr m' ↦ do_with_retry env loop_request m' replayable caller_set t.world
      ]

  abbrev pub with_hooks : Prepared → Err ⊎ Message → S W (Option (Option Reply))
  with_hooks p (inl err) = abort p.message (propagate (given err) "before-request hook failed")
  with_hooks p (inr m) = authorized p.replayable (inject_tracing c.session_id c.request_id m)

  abbrev pub with_applied : Err ⊎ Prepared → S W (Option (Option Reply))
  with_applied (inl err) = fail (propagate (given err) "failed to set request body")
  with_applied (inr p) = with_hooks p (run_both c.before_request r.before p.message)

  abbrev pub blank : String → Message
  blank method = record {
    method = method;
    header = over r.header (over c.base_headers []);
    body = none;
    get_body = none;
  }

  -- `execute`
  unfoldable pub execute : String → String → S W (Option (Option Reply))
  unfolding authorized loop_request
  execute method target = elim (c.new_request_err method target) [
    | some err ↦ fail (propagate_as kind_system_error err "failed to create HTTP request")
    | none ↦ with_applied (apply_body (provided r.body) (blank method))
  ]

  -- The hooks after a response.
  abbrev pub with_hooked : Reply → W → List Event → Err ⊎ Reply → Sent W
  with_hooked reply w events (inl err) = record {
    exit = returned (some reply) (
        some (
          propagate (propagate (given err) "after-response hook failed")
            "failed to handle response"));
    world = w;
    events = events;
  }
  with_hooked reply w events (inr reply') = record {
    exit = returned (some reply') none;
    world = w;
    events = events;
  }

  abbrev pub hooked : Reply → W → List Event → Sent W
  hooked reply w events = with_hooked reply w events (run_both c.after_response r.after reply)

  -- The result that the response is decoded to, where it is.
  abbrev pub target_of : Reply → Option ℕ
  target_of reply = if is_success reply.status_code && not r.no_parse then r.result else none

  -- `Decode` closes the body, whether or not it can be decoded.
  unfoldable pub handle_response : Reply → W → List Event → Sent W
  handle_response reply w events = elim (target_of reply) [
    | none ↦ hooked reply w events
    | some v ↦ elim (c.decode_err v reply) [
      | some err ↦ record {
        exit = returned (some reply) (
            some (
              propagate
                (propagate
                  (propagate_as kind_response_decode_error err "failed to decode response body")
                  "error handling response")
                "failed to handle response"));
        world = w;
        events = events ++ drained reply.body ∷ [];
      }
      | none ↦ hooked reply w (events ++ drained reply.body ∷ [])
    ]
  ]

  -- A `Do` that gives neither a response nor an error makes the use of the response panic.
  unfoldable pub handled : Step W (Option (Option Reply)) → Sent W
  unfolding handle_response
  handled t = elim t.result [
    | inl f ↦ record {
      exit = returned none (some (propagate f "failed to send request"));
      world = t.world;
      events = t.events;
    }
    | inr none ↦ record { exit = panicked; world = t.world; events = t.events }
    | inr (some none) ↦ record { exit = panicked; world = t.world; events = t.events }
    | inr (some (some reply)) ↦ handle_response reply t.world t.events
  ]

  abbrev pub unsent : Failure → W → Sent W
  unsent f w = record { exit = returned none (some f); world = w; events = [] }

  -- `Send`
  unfoldable pub send_request : String → String → W → Sent W
  unfolding handled
  send_request method path w = elim (build_url c.urls c.base_url path r.query) [
    | inl err ↦ unsent (propagate_as kind_system_error err "failed to build request URL") w
    | inr target ↦ elim r.build_err [
      | some f ↦ unsent (propagate f "invalid request") w
      | none ↦ handled (execute method target w)
    ]
  ]

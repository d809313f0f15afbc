-- ===== src/Rest.antt =====
-- rest/response.go, rest/route.go, rest/unrouted.go: the responses of the HTTP server and the handler
-- that turns an error into one. The response writer is the one of net/http: the first final
-- `WriteHeader` is sent and later ones are ignored; a write after a status that has no body fails.
pub mod Server
pub mod Laws
pub mod Handlers
mod Tests
use garlic.Common.{
  leb, ◌==◌, ◌&&◌, ◌||◌, ℕ, String, Bool, true, false, not, Option, none, some, List, [], ◌∷◌, ◌++◌,
  insert, if◌then◌else◌,
}
use Prim.Native.String.{◌++◌ as str_append}
use garlic.Errors.Kind.{Kind, status_code, is}
use garlic.Errors.Primitive.{kind_user_error, kind_system_error}
use garlic.Errors.Status.{kind_for_status}
use garlic.Errors.Store.{M, pure, ◌>>=◌}
use garlic.Errors.ErrorT.{Err, ErrorT, Opt, as_error, is_nil, raw, mirror, mirror_override}
use garlic.Errors.Chain.{as_error_t, is_kind}
use garlic.Errors.Dto.{Dto, error_dto}

pub record PayloadMessage : Type 0 where
  pub message : String

pub record Response {ℓ} (P : Type ℓ) : Type ℓ where
  pub status_code : ℕ
  pub payload : P

-- `WriteResponse`
unfoldable pub write_response {ℓ} : {P : Type ℓ} → ℕ → P → Response P
write_response code payload = record { status_code = code; payload = payload }

unfoldable pub write_message : ℕ → String → Response PayloadMessage
write_message code message = write_response code (record { message = message })

abbrev pub suppressed : String
suppressed = "Suppressed system error, contact the support"

module _ (spare : ℕ → ℕ) where
  -- `protectErrorDTO`
  unfoldable pub protect_error_dto : ErrorT → M Dto
  protect_error_dto err = elim (is err.kind kind_user_error) [
    | true ↦ pure (error_dto err)
    | false ↦ do
      generic ←
          mirror_override spare (kind_for_status (status_code err.kind)) (as_error err)
            (Opt.hint suppressed ∷ [])
      pure (error_dto generic)
  ]

  -- The initial value of `unknownErrorResponse`.
  unfoldable pub new_unknown_error_response : M (Response Dto)
  new_unknown_error_response = do
    e ← raw spare kind_system_error "unknown error" []
    dto ← protect_error_dto e
    pure (write_response 500 dto)

  -- The error whose kind and body `WriteError` takes.
  unfoldable pub reported : Err → M ErrorT
  reported err = elim (as_error_t err) [
    | some e ↦ pure e
    | none ↦ raw spare kind_system_error "internal server error" []
  ]

  -- `unknown` is the package variable `unknownErrorResponse`.
  unfoldable pub write_error : Response Dto → Err → M (Response Dto)
  write_error unknown err = elim (is_nil err) [
    | true ↦ pure unknown
    | false ↦ do
      e ← reported err
      dto ← protect_error_dto e
      pure (write_response (status_code e.kind) dto)
  ]

-- `http.ResponseWriter` of net/http: the headers to send, the status and headers sent, the body so far,
-- and whether a call has panicked.
pub record Writer : Type 0 where
  pub header : List (String × String)
  pub sent : Option (ℕ × List (String × String))
  pub body : String
  pub panicked : Bool

abbrev pub unused : Writer
unused = record { header = []; sent = none; body = ""; panicked = false }

unfoldable pub set_header : String → String → Writer → Writer
set_header key value w = record w { header = insert key value w.header }

abbrev pub is_valid : ℕ → Bool
is_valid status = leb 100 status && leb status 999

abbrev pub is_informational : ℕ → Bool
is_informational status = leb 100 status && leb status 199 && not (status == 101)

-- Only the first status that is not informational counts; an informational one goes out at once. A
-- status without three digits panics.
unfoldable pub write_header : ℕ → Writer → Writer
write_header status w = elim w.sent [
  | some _ ↦ w
  | none ↦
      if not (is_valid status)
      then record w { panicked = true }
      else if is_informational status
      then w
      else record w { sent = some (status, w.header) }
]

unfoldable pub body_allowed : ℕ → Bool
body_allowed status = not ((leb 100 status && leb status 199) || (status == 204) || (status == 304))

-- Whether a write, which is not empty, fails: after a status that has no body.
unfoldable pub accepts : Writer → Bool
accepts w = elim w.sent [ none ↦ true | some (status, _) ↦ body_allowed status ]

-- The first write sends the status 200 if none was sent.
unfoldable pub write_body : String → Writer → Writer
write_body text w =
    let w' = write_header 200 w in
    if accepts w' then record w' { body = str_append w'.body text } else w'

-- `http.Error`
unfoldable pub http_error : String → ℕ → Writer → Writer
http_error text status w =
    let w' =
      set_header "X-Content-Type-Options" "nosniff"
        (set_header "Content-Type" "text/plain; charset=utf-8" w) in
    write_body (str_append text "\n") (write_header status w')

abbrev pub fallback : String
fallback = "{\"error\":\"Internal Server Error\",\"kind\":\"P00002\"}"

-- `Encode` and what follows it: the encoder is an argument, and fails before it writes anything. Where it
-- or the write fails, the fallback is sent.
unfoldable pub encoded_to : Option String → Writer → Writer
encoded_to none w = http_error fallback 500 w
encoded_to (some text) w = if accepts w then write_body text w else http_error fallback 500 w

-- `Must`
unfoldable pub must {ℓ} : {P : Type ℓ} → (P → Option String) → Response P → Writer → Writer
must encode r w =
    let w' = write_header r.status_code (set_header "Content-Type" "application/json" w) in
    if w'.panicked then w' else encoded_to (encode r.payload) w'

pub data Level : Type 0 where
  warn error : Level

pub record Entry : Type 0 where
  pub level : Level
  pub message : String
  pub err : Err

unfoldable pub log_entry : Err → Entry
log_entry err =
    if is_kind err kind_user_error
    then record { level = warn; message = "[USER ERROR]"; err = err }
    else record { level = error; message = "[SYSTEM ERROR]"; err = err }

module _ (spare : ℕ → ℕ) (unknown : Response Dto) (encode : Dto → Option String) where
  -- `Route.Handler` for the function `fn` of the route.
  unfoldable pub handler : (Writer → M (Writer × Err)) → Writer → M (Writer × List Entry)
  handler fn w = do
    (w', err) ← fn w
    elim (is_nil err) [
      | true ↦ pure (w', [])
      | false ↦ do
        response ← write_error spare unknown err
        pure (must encode response w', log_entry err ∷ [])
    ]

  -- What `notFoundHandler` and `methodNotAllowedHandler` share.
  unrouted : ℕ → String → Writer → M Writer
  unrouted status hint w = do
    e ← mirror spare (kind_for_status status) (Opt.hint hint ∷ [])
    response ← write_error spare unknown (as_error e)
    pure (must encode response w)

  unfoldable pub not_found_handler : Writer → M Writer
  unfolding unrouted
  not_found_handler = unrouted 404 "No route matches the requested path."

  unfoldable pub method_not_allowed_handler : Writer → M Writer
  unfolding unrouted
  method_not_allowed_handler = unrouted 405 "The request method is not allowed for this path."

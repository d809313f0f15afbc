-- ===== src/HttpClient/DecodeError/Tests.antt =====
-- Responses that are no garlic errors, by `DecodeError` of httpclient/response.go.
use garlic.Common.{◌≡◌, refl, subst, false, none, some, [], ◌∷◌, arith}
use garlic.Errors.Kind.{status_code}
use garlic.Errors.Registry.{Registry}
use garlic.Errors.Store.{Store, fresh}
use garlic.Errors.ErrorT.{Err, ErrorT, as_error, as_garlic, is_nil}
use garlic.HttpClient.Peer.{Json}
use garlic.HttpClient.DecodeError.{Received, closed, decode_error}
use garlic.HttpClient.DecodeError.Laws.{decode_error-status}

abbrev json : Json
json = record {
  envelope = λ body. none;
  dto = λ body. none;
  raw_fields = λ body. none;
  string = λ raw. none;
  quote = λ text. text;
  text_of = λ bytes. "text";
}

abbrev registry : Registry
registry = record { codes = []; names = [] }

abbrev truncated : Received
truncated = record {
  status = 503;
  media_type = none;
  body = some (record { arrived = 60 ∷ []; read_err = some (Err.plain "unexpected EOF") });
}

decode_error-status_example :
    (e : ErrorT) × (s' : Store) × (decode_error
        (λ n. n)
        json
        registry
        "f"
        "f:1"
        (some truncated)
        fresh
      ≡ some ((as_error e, some (closed truncated)), s'))
    × (status_code e.kind ≡ 503)
unfolding is_nil as_garlic
decode_error-status_example =
    decode_error-status (λ n. n) json registry "f" "f:1" truncated fresh (omega arith)
      (λ err e.
        let same : Err.plain "unexpected EOF" ≡ err = cc in
        subst (λ (x : Err). (is_nil x ≡ false) × (as_garlic x ≡ none)) same (refl, refl))

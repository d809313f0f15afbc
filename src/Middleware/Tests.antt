-- ===== src/Middleware/Tests.antt =====
-- Requests behind the middlewares of the package middleware.
use garlic.Common.{ℕ, String, ◌≡◌, refl, Option, none, some, [], ◌∷◌, true, insert}
use garlic.Rest.{
  Response, unused, must, encoded_to, http_error, set_header, write_header, write_body, accepts,
  body_allowed,
}
use garlic.Middleware.{
  heads, writes, made, done, run, Handler, returns, panics, metrics_monitor, logging, response_size,
  must_calls, get_route_pattern, is_ignored_route,
}
use garlic.Middleware.Laws.{begun, over, traffic, Counted, metrics_monitor_counts}
use garlic.Middleware.Must.{metrics_monitor-must}

abbrev greeting : Handler
greeting = record { calls = heads 201 ∷ writes "hello" ∷ []; ending = returns }

abbrev crash : Handler
crash = record { calls = []; ending = panics }

no_entry : (logging (λ body. 5) "GET" "/users" crash unused).observed ≡ []
unfolding logging run
no_entry = refl

one_entry :
    (logging (λ body. 5) "GET" "/users" greeting unused).observed
    ≡ (record {
      request_method = "GET";
      request_url = "/users";
      response_status = 201;
      response_size = 5;
    })
      ∷ []
unfolding logging run done made write_header write_body accepts body_allowed response_size
one_entry = refl

matched_again :
    get_route_pattern (some "") (λ path. some "/users/{id}") "/users/7" "" ≡ "/users/{id}"
unfolding get_route_pattern
matched_again = refl

metrics_monitor_counts_example :
    let served = metrics_monitor true "GET" "/users" greeting unused in
    (begun served.observed ≡ 1)
    × (over served.observed ≡ 1)
    × Counted served.writer (traffic served.observed)
    × (served.ending ≡ returns)
unfolding is_ignored_route
metrics_monitor_counts_example =
    metrics_monitor_counts "GET" "/users" greeting unused refl refl refl refl

abbrev created : Response ℕ
created = record { status_code = 201; payload = 7 }

abbrev no_text : ℕ → Option String
no_text n = none

metrics_monitor-must_example :
    let served =
      metrics_monitor true "GET" "/users"
        (record { calls = must_calls no_text created unused; ending = returns })
        unused in
    (served.writer ≡ must no_text created unused)
    × (served.writer.sent ≡ some (201, ("Content-Type", "application/json") ∷ []))
    × (traffic served.observed ≡ 500 ∷ [])
unfolding is_ignored_route insert
metrics_monitor-must_example =
    metrics_monitor-must no_text created unused refl refl refl "GET" "/users" returns refl

-- A status without a body: the text of the payload is refused, and the fallback with it.
abbrev gone : Response ℕ
gone = record { status_code = 204; payload = 7 }

no_body : must (λ n. some "7") gone unused ≡ record unused {
  header =
      ("Content-Type", "text/plain; charset=utf-8") ∷ ("X-Content-Type-Options", "nosniff") ∷ [];
  sent = some (204, ("Content-Type", "application/json") ∷ []);
}
unfolding must encoded_to http_error set_header write_header write_body accepts body_allowed insert
no_body = refl

-- A status of no three digits panics, and nothing is sent.
no_status : (must (λ n. some "7") (record gone { status_code = 0 }) unused).panicked ≡ true
unfolding must set_header write_header insert
no_status = refl

-- ===== src/HttpClient/Send/Tests.antt =====
-- A request to a network that answers, by `Send` of httpclient/request.go.
use garlic.Common.{ℕ, ◌+◌, lookup, ◌≡◌, refl, false, none, some, [], ◌∷◌, inl, inr, insert}
use garlic.Errors.ErrorT.{Err}
use garlic.HttpClient.Retry.{Env, Message, Reply, closed, with_token, inject_auth}
use garlic.HttpClient.Assembly.{apply_body, run_hooks, run_both, inject_tracing}
use garlic.HttpClient.Draft.{Encoders, provide, Draft, new_draft, set_body, string_value}
use garlic.HttpClient.Send.{Client, UrlParser, execute, send_request}
use garlic.HttpClient.Send.Laws.{Ended, content_of, execute-closes}
use garlic.HttpClient.Send.Answers.{IsAnswer, send_request-IsAnswer}

abbrev reply : Reply
reply = record { status_code = 200; header = []; body = 1 }

abbrev env : Env ℕ
env = record {
  do_request = λ m w. (record { reply = some reply; err = none; left = some "" }, w + 1);
  ctx_err = λ w. none;
  sleep = λ d w. (none, w);
  basic_auth = λ user pass. "Basic";
}

abbrev urls : UrlParser
urls = record {
  parse = λ text. inr (record { address = text; query = [] });
  join_path = λ u uri. record u { address = uri };
  print = λ u. u.address;
}

abbrev encoders : Encoders
encoders = record {
  size = λ s. 2;
  form = λ values. "a=b";
  form_data_content_type = "multipart/form-data";
  multipart = λ fields. "--";
}

-- The source of tokens is out of reach.
abbrev client : Client ℕ
client = record {
  urls = urls;
  encoders = encoders;
  new_request_err = λ method target. none;
  decode_err = λ v reply. none;
  base_url = "http://a";
  base_headers = [];
  before_request = [];
  after_response = [];
  retry = record {
    enabled = false;
    max_retries = 0;
    min_wait = 1;
    max_wait = 2;
    policy = record {
      check_retry = λ method reply err attempt w. inr false;
      backoff = λ lo hi attempt reply w. (lo, w);
    };
  };
  token_source = some (λ w. (inl (Err.plain "no token"), w));
  session_id = none;
  request_id = none;
}

abbrev draft : Draft Message Reply
draft = set_body (string_value "hi") new_draft

-- The body that was opened is closed, and nothing is sent.
token_fails : (execute env client draft "POST" "http://a" 0).events ≡ closed (some "hi") ∷ []
unfolding execute apply_body provide set_body new_draft run_both run_hooks inject_tracing
    inject_auth with_token insert lookup
token_fails = refl

execute-closes_example :
    Ended env client draft none
      (content_of env client draft draft.body)
      (execute env client draft "POST" "http://a" 0)
unfolding set_body new_draft
execute-closes_example = execute-closes env client draft "POST" "http://a" 0 tt tt

send_request-IsAnswer_example : IsAnswer (send_request env client draft "POST" "b" 0).exit
send_request-IsAnswer_example =
    send_request-IsAnswer env client draft (λ m w e. (reply, refl)) "POST" "b" 0

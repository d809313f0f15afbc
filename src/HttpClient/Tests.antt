-- ===== src/HttpClient/Tests.antt =====
-- A network that is down at first, and what the theorems of httpclient/retry.go say of a request to it.
use garlic.HttpClient.Diagnostic.{capture_diagnostic, decode_rune, lead, decode_long, continued}
use garlic.HttpClient.Diagnostic.Runes.{Boundary}
use garlic.HttpClient.Diagnostic.Laws.{IsCut, IsBroken, capture_diagnostic_lem}
use garlic.Common.{
  atoi, digits, unsigned, in_range, List, ℕ, zero, suc, ◌+◌, ◌≤◌, String, ◌≡◌, ◌≢◌, ◌⊎◌, refl, true,
  false, Option, none, some, [], ◌∷◌, inr, arith, if◌then◌else◌, All, lookup,
}
use garlic.HttpClient.Retry.{
  Env, Request, Message, Answer, Reply, Duration, can_retry, do_with_retry, do_with_retry_for,
}
use garlic.HttpClient.Retry.Totals.{sends}
use garlic.HttpClient.Retry.Laws.{do_with_retry-sends}
use garlic.HttpClient.Retry.Ends.{do_with_retry_returns}
use garlic.HttpClient.Retry.Bodies.{IsWhole, do_with_retry-IsWhole}
use garlic.HttpClient.Retry.Default.{backoff, default_retry_policy}
use garlic.HttpClient.Retry.Default.Laws.{backoff_huge}

abbrev ok : Reply
ok = record { status_code = 200; header = []; body = 1 }

abbrev busy : Reply
busy = record { status_code = 503; header = ("Retry-After", "9223372037") ∷ []; body = 0 }

-- The world counts the requests; the first is refused.
abbrev do_request : Message → ℕ → Answer × ℕ
do_request m zero = (record { reply = some busy; err = none; left = none }, 1)
do_request m (suc n) = (record { reply = some ok; err = none; left = some "" }, suc (suc n))

abbrev env : Env ℕ
env = record {
  do_request = do_request;
  ctx_err = λ w. none;
  sleep = λ d w. (none, w);
  basic_auth = λ user pass. "Basic";
}

abbrev trim_space : String → String
trim_space s = s

abbrev date_wait : String → Option Duration
date_wait s = none

abbrev exponential : Duration → Duration → ℕ → ℕ → Duration × ℕ
exponential lo hi attempt w = (lo + attempt, w)

abbrev request : Request ℕ
request = record {
  retry = record {
    enabled = true;
    max_retries = 3;
    min_wait = 100;
    max_wait = 2000;
    policy = default_retry_policy trim_space date_wait env exponential;
  };
  retry_override = none;
  has_basic = false;
  basic_user = "";
  basic_pass = "";
  auth_token = "secret";
  token_source = none;
}

abbrev put : Message
put = record { method = "PUT"; header = []; body = some "{}"; get_body = some (inr "{}") }

do_with_retry-sends_example :
    (1 ≤ sends (do_with_retry_for env request 9 put true false 0).events)
    × (sends (do_with_retry_for env request 9 put true false 0).events
        ≤ suc (if can_retry env request put true then 3 else 0))
do_with_retry-sends_example = do_with_retry-sends env request 8 put true false 0

do_with_retry_returns_example :
    ((do_with_retry env request put true false 0).result ≢ inr none)
    × (do_with_retry_for env request 9 put true false 0
        ≡ do_with_retry env request put true false 0)
do_with_retry_returns_example = do_with_retry_returns env request put true false 5 0

do_with_retry-IsWhole_example :
    All (IsWhole "PUT" "{}") (do_with_retry env request put true false 0).events
do_with_retry-IsWhole_example =
    do_with_retry-IsWhole env request "PUT" "{}" put true false 0 (refl, refl) refl

backoff_huge_example :
    backoff trim_space date_wait env exponential 100 2000 0 (some busy) 0 ≡ (100, 0)
unfolding atoi unsigned in_range digits lookup
backoff_huge_example =
    backoff_huge trim_space date_wait env exponential busy "9223372037" 9223372037 100 2000 0 0 refl
      refl (omega arith) (omega arith) (omega arith)

-- "é" and a broken byte.
abbrev broken : List ℕ
broken = 195 ∷ 169 ∷ 255 ∷ []

capture_diagnostic_example :
    ((capture_diagnostic broken).length_of ≡ 3)
    × (((capture_diagnostic broken).readable ≡ true) × IsCut broken (capture_diagnostic broken)
        ⊎ ((capture_diagnostic broken).readable ≡ false)
          × ((capture_diagnostic broken).text ≡ [])
          × ((place : ℕ) × IsBroken broken place))
capture_diagnostic_example = capture_diagnostic_lem broken

abbrev accented : List ℕ
accented = 195 ∷ 169 ∷ []

accented-Boundary : Boundary accented 2
unfolding decode_rune lead decode_long continued
accented-Boundary = Boundary.rune {n = 0} {size = 2} Boundary.start refl

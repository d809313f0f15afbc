-- ===== src/HttpClient/Retry/Default.antt =====
-- The default policy of httpclient/retry.go. A duration is the 64 bits of an int64 of nanoseconds, and
-- the product with a second wraps around. The date form of the header and the exponential wait, which
-- read the clock and the random source in floating point, are arguments.
pub mod Laws
use Prim.Native.Char.{Char, code}
use garlic.Common.{
  natural, negative, invalid, atoi, ℕ, zero, suc, ◌+◌, ◌-◌, ◌*◌, ◌%◌, ◌^◌, String, Bool, true,
  false, not, ◌&&◌, ◌||◌, Option, none, some, if◌then◌else◌, ltb, leb, ◌==◌, str_eq, lookup, ◌⊎◌,
  inl, inr,
}
use garlic.Errors.ErrorT.{Err}
use garlic.HttpClient.Retry.{Duration, Reply, Env, RetryPolicy}

-- The order of two's complement.
unfoldable pub less : Duration → Duration → Bool
less a b = ltb ((a + 2 ^ 63) % 2 ^ 64) ((b + 2 ^ 63) % 2 ^ 64)

unfoldable pub clamp_duration : Duration → Duration → Duration → Duration
clamp_duration d min_wait max_wait =
    if less d min_wait then min_wait else if less max_wait d then max_wait else d

unfoldable pub is_retryable : ℕ → Bool
is_retryable status =
    if status == 429 || status == 503 then true else leb 500 status && not (status == 501)

abbrev pub second : ℕ
second = 1000000000

module _ (trim_space : String → String) (date_wait : String → Option Duration) where
  -- `parseRetryAfter`; `date_wait` is the time until a date, zero if that is past.
  unfoldable pub parse_retry_after : String → Option Duration
  parse_retry_after value =
      let v = trim_space value in
      if str_eq v "" then none else elim (atoi v) [
        | natural secs ↦ some ((secs * second) % 2 ^ 64)
        | negative _ ↦ none
        | invalid ↦ date_wait v
      ]

  -- The value of the first header of that name, empty if there is none.
  unfoldable pub retry_after : Reply → Option Duration
  retry_after reply = elim (lookup "Retry-After" reply.header) [
    | none ↦ parse_retry_after ""
    | some value ↦ parse_retry_after value
  ]

  unfoldable pub hinted_wait : Option Reply → Option Duration
  hinted_wait none = none
  hinted_wait (some reply) = retry_after reply

  module _ {W : Type 0} (env : Env W)
      (exponential : Duration → Duration → ℕ → W → Duration × W) where
    unfoldable pub check_retry : Option Reply → Option Err → W → Err ⊎ Bool
    check_retry reply err w = elim (env.ctx_err w) [
      | some done ↦ inl done
      | none ↦ elim err [
        | some _ ↦ inr true
        | none ↦ elim reply [ none ↦ inr false | some r ↦ inr (is_retryable r.status_code) ]
      ]
    ]

    unfoldable pub backoff : Duration → Duration → ℕ → Option Reply → W → Duration × W
    backoff min_wait max_wait attempt reply w = elim (hinted_wait reply) [
      | some d ↦ (clamp_duration d min_wait max_wait, w)
      | none ↦
          let (d, w') = exponential min_wait max_wait attempt w in
          (clamp_duration d min_wait max_wait, w')
    ]

    -- `DefaultRetryPolicy`
    unfoldable pub default_retry_policy : RetryPolicy W
    default_retry_policy = record {
      check_retry = λ method reply err attempt. check_retry reply err;
      backoff = backoff;
    }

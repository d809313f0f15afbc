-- ===== src/HttpClient/Retry/Default/Laws.antt =====
-- The waits and the decisions of the default policy of httpclient/retry.go.
use garlic.Common.{
  atoi, natural, ap, lt→ltb, eq_iff, lookup, ℕ, ◌*◌, ◌%◌, ◌^◌, ◌≤◌, ◌<◌, String, ◌≡◌, refl, true,
  false, Option, some, inl, inr, arith, ◌↔◌, ◌⊎◌, ◌≢◌, Option-cases, str_eq, Bool-cases, lookup,
}
use garlic.HttpClient.Retry.{Duration, Reply, Env}
use garlic.HttpClient.Retry.Default.{
  less, clamp_duration, is_retryable, second, parse_retry_after, hinted_wait, retry_after, backoff,
}

less_irreflexive : (d : Duration) → less d d ≡ false
unfolding less
less_irreflexive d = ground arith

-- A wait lies between the bounds, where these are in order.
clamp_duration_bounds :
    (d min_wait max_wait : Duration)
    → less max_wait min_wait ≡ false
    → (less (clamp_duration d min_wait max_wait) min_wait ≡ false)
      × (less max_wait (clamp_duration d min_wait max_wait) ≡ false)
unfolding clamp_duration
clamp_duration_bounds d lo hi h = elim (Bool-cases (less d lo)) [
  | inl below ↦ rw below (less_irreflexive lo, h)
  | inr enough ↦ elim (Bool-cases (less hi d)) [
    | inl above ↦ rw (enough, above) (h, less_irreflexive hi)
    | inr within ↦ rw (enough, within) (enough, within)
  ]
]

clamped_below :
    (d min_wait max_wait : Duration)
    → less d min_wait ≡ true
    → clamp_duration d min_wait max_wait ≡ min_wait
unfolding clamp_duration
clamped_below d lo hi h = rw h

-- The statuses that are worth a retry: 429, and from 500 on all but 501.
pub is_retryable_iff :
    (status : ℕ)
    → (is_retryable status ≡ true) ↔ ((status ≡ 429) ⊎ ((500 ≤ status) × (status ≢ 501)))
unfolding is_retryable
is_retryable_iff status = (λ h. ground arith, λ h. ground arith)

-- Seconds whose nanoseconds reach 2 ^ 63 and not 2 ^ 64 become a negative duration.
wrapped_negative :
    (n min_wait : ℕ)
    → 9223372037 ≤ n
    → n < 18446744073
    → min_wait < 2 ^ 63
    → less ((n * second) % 2 ^ 64) min_wait ≡ true
unfolding less
wrapped_negative n lo many few h = lt→ltb _ _ (omega arith)

no_number : (n : ℕ) → atoi "" ≢ natural n
unfolding atoi
no_number n h = cc

number_is_text : (v : String) (n : ℕ) → atoi v ≡ natural n → str_eq v "" ≡ false
number_is_text v n h = elim (Bool-cases (str_eq v "")) [
  | inl same ↦ absurd (no_number n (rw ((eq_iff v "").0 same) at h))
  | inr other ↦ other
]

parsed :
    (trim_space : String → String) (date_wait : String → Option Duration) (value : String) (n : ℕ)
    → atoi (trim_space value) ≡ natural n
    → parse_retry_after trim_space date_wait value ≡ some ((n * second) % 2 ^ 64)
unfolding parse_retry_after
parsed trim_space date_wait value n h =
    rw (number_is_text (trim_space value) n h, h, parse_retry_after) refl

module _ (trim_space : String → String) (date_wait : String → Option Duration) {W : Type 0}
    (env : Env W) (exponential : Duration → Duration → ℕ → W → Duration × W) where
  -- Whatever the header asks for and whatever the random source gives, the default policy waits
  -- within the configured bounds, where these are in order.
  backoff_bounds :
      (min_wait max_wait : Duration) (attempt : ℕ) (reply : Option Reply) (w : W)
      → less max_wait min_wait ≡ false
      → (less
            (backoff trim_space date_wait env exponential min_wait max_wait attempt reply w).0
            min_wait
          ≡ false)
        × (less max_wait
              (backoff trim_space date_wait env exponential min_wait max_wait attempt reply w).0
            ≡ false)
  unfolding backoff
  backoff_bounds lo hi attempt reply w h =
      elim (Option-cases (hinted_wait trim_space date_wait reply)) [
        | inl free ↦ rw (free, backoff) (clamp_duration_bounds _ lo hi h)
        | inr (d, asked) ↦ rw (asked, backoff) (clamp_duration_bounds d lo hi h)
      ]

  -- A `Retry-After` of 9223372037 up to 18446744072 seconds, so of three centuries and more, is
  -- waited for the minimum only: the product with a second is a negative duration.
  pub backoff_huge :
      (reply : Reply) (value : String) (n min_wait max_wait : ℕ) (attempt : ℕ) (w : W)
      → lookup "Retry-After" reply.header ≡ some value
      → atoi (trim_space value) ≡ natural n
      → 9223372037 ≤ n
      → n < 18446744073
      → min_wait < 2 ^ 63
      → backoff trim_space date_wait env exponential min_wait max_wait attempt (some reply) w
        ≡ (min_wait, w)
  unfolding backoff hinted_wait retry_after
  backoff_huge reply value n lo hi attempt w there seconds many few h =
      rw (there, parsed trim_space date_wait value n seconds, backoff)
        (ap (λ d. (d, w)) (clamped_below _ lo hi (wrapped_negative n lo many few h)))

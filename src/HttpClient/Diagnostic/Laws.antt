-- ===== src/HttpClient/Diagnostic/Laws.antt =====
-- What a bounded capture of httpclient/response.go keeps of a value.
use garlic.Common.{
  ◌≢◌, ltb→lt, ℕ, zero, suc, ◌+◌, ◌≤◌, ◌<◌, ◌≡◌, refl, ap, subst, ◌⊎◌, inl, inr, true, false, ◌&&◌,
  Option, none, some, List, [], ◌∷◌, arith, ltb, length, take, drop, Option-cases, Bool-cases,
  length-take,
}
use garlic.HttpClient.Diagnostic.{
  max_diagnostic_bytes, decode_rune, bounded_end, bounded_prefix, Capture, capture_diagnostic,
}
use garlic.HttpClient.Diagnostic.Runes.{
  Boundary, start, rune, decode_rune-length, Boundary-le, after-Boundary,
}

-- The last boundary within the limit.
pub record IsLast (value : List ℕ) (end : ℕ) : Type 0 where
  pub boundary : Boundary value end
  pub within : end ≤ 4096
  pub last : (m : ℕ) → Boundary value m → m ≤ 4096 → m ≤ end
  -- It is not for an invalid rune that it is the last.
  pub sound : end < 4096 → end < length value → decode_rune (drop end value) ≢ none

-- A boundary within the limit where no rune follows, though there are bytes.
pub record IsBroken (value : List ℕ) (at : ℕ) : Type 0 where
  pub boundary : Boundary value at
  pub within : at < 4096
  pub inside : at < length value
  pub invalid : decode_rune (drop at value) ≡ none

abbrev Ended : List ℕ → Option ℕ → Type 0
Ended value none = (at : ℕ) × IsBroken value at
Ended value (some end) = IsLast value end

bounded_end-Ended :
    (fuel end : ℕ) (value : List ℕ)
    → Boundary value end
    → end ≤ 4096
    → length value ≤ fuel + end
    → Ended value (bounded_end fuel end value)
unfolding bounded_end
bounded_end-Ended zero end value b within enough = record {
  boundary = b;
  within = within;
  last = λ m c h. omega (arith, enough, Boundary-le value c);
  sound = λ room inside. absurd (omega (arith, enough, inside));
}
bounded_end-Ended (suc fuel) end value b within enough =
    elim (Bool-cases (ltb end (length value) && ltb end max_diagnostic_bytes)) [
      | inr over ↦
          rw (over, bounded_end)
            (record {
              boundary = b;
              within = within;
              last = λ m c h. let inside = Boundary-le value c in ground arith;
              sound = λ room inside. absurd (ground (arith, room, inside, over));
            })
      | inl on ↦ elim (Option-cases (decode_rune (drop end value))) [
        | inl broken ↦
            rw (on, broken, bounded_end)
              (
                end,
                record {
                  boundary = b;
                  within = ground arith;
                  inside = ground arith;
                  invalid = broken;
                },
              )
        | inr (size, here) ↦
            let (some_byte, _) = decode_rune-length (drop end value) size here in
            elim (Bool-cases (ltb max_diagnostic_bytes (end + size))) [
              | inl beyond ↦
                  rw (on, here, beyond, bounded_end)
                    (record {
                      boundary = b;
                      within = within;
                      last = λ m c h. elim (Bool-cases (ltb end m)) [
                        | inr low ↦ ground arith
                        | inl high ↦
                            let passed = after-Boundary value size b here c (ltb→lt end m high) in
                            absurd (ground (arith, passed))
                      ];
                      sound = λ room inside broken. cc;
                    })
              | inr fits ↦
                  rw (on, here, fits, bounded_end)
                    (bounded_end-Ended fuel (end + size) value (rune b here) (ground arith)
                      (omega (arith, enough, some_byte)))
            ]
      ]
    ]

bounded_end-whole : (value : List ℕ) → Ended value (bounded_end (length value) 0 value)
bounded_end-whole value = bounded_end-Ended (length value) 0 value start (omega arith) (omega arith)

-- What a readable capture shows: the value up to the last boundary between its runes within the limit.
pub record IsCut (value : List ℕ) (c : Capture) : Type 0 where
  pub end : ℕ
  pub is_last : IsLast value end
  pub text : c.text ≡ take end value
  pub truncated : c.truncated ≡ ltb end (length value)

-- A capture has the length of the value. It is readable unless an invalid rune starts within the
-- first 4096 bytes; then its text is the longest prefix of whole runes of at most 4096 bytes, and it
-- is truncated exactly if that is not all. An unreadable one keeps no text.
pub capture_diagnostic_lem :
    (value : List ℕ)
    → ((capture_diagnostic value).length_of ≡ length value)
      × (((capture_diagnostic value).readable ≡ true) × IsCut value (capture_diagnostic value)
          ⊎ ((capture_diagnostic value).readable ≡ false)
            × ((capture_diagnostic value).text ≡ [])
            × ((at : ℕ) × IsBroken value at))
unfolding capture_diagnostic bounded_prefix
capture_diagnostic_lem value = elim (Option-cases (bounded_end (length value) 0 value)) [
  | inl broken ↦
      rw (broken, capture_diagnostic, bounded_prefix)
        (refl, inr (refl, refl, subst (Ended value) broken (bounded_end-whole value)))
  | inr (end, found) ↦
      let last : IsLast value end = subst (Ended value) found (bounded_end-whole value) in
      let fits = Boundary-le value last.boundary in
      let size : length (take end value) ≡ end = omega (arith, length-take end value, fits) in
      rw (found, capture_diagnostic, bounded_prefix)
        (
          refl,
          inl (
            refl,
            record {
              end = end;
              is_last = last;
              text = refl;
              truncated = ap (λ n. ltb n (length value)) size;
            },
          ),
        )
]

take-length : (xs : List ℕ) → take (length xs) xs ≡ xs
take-length [] = refl
take-length (x ∷ xs) = ap (λ ys. x ∷ ys) (take-length xs)

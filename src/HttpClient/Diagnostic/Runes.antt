-- ===== src/HttpClient/Diagnostic/Runes.antt =====
-- The boundaries between the runes of a text in UTF-8, as a relation, and their order.
use garlic.Common.{
  ℕ, zero, suc, ◌+◌, ◌≤◌, ◌<◌, ◌≡◌, ◌∙◌, ap, sym, ◌⊎◌, inl, inr, true, Option, none, some, List, [],
  ◌∷◌, arith, ltb, length, drop, Bool-cases, length-drop,
}
use garlic.HttpClient.Diagnostic.{Lead, lead, continued, decode_long, decode_rune}

-- `n` is a boundary: the first `n` bytes are whole runes.
pub data Boundary (value : List ℕ) : ℕ → Type 0 where
  start : Boundary value 0
  rune :
      {n size : ℕ}
      → Boundary value n
      → decode_rune (drop n value) ≡ some size
      → Boundary value (n + size)

continued-length :
    (n low high : ℕ) (bytes : List ℕ) → continued n low high bytes ≡ true → n ≤ length bytes
unfolding continued
continued-length zero low high bytes h = omega arith
continued-length (suc n) low high [] h = cc
continued-length (suc n) low high (b ∷ bytes) h =
    let later : continued n 128 191 bytes ≡ true = ground arith in
    omega (arith, continued-length n 128 191 bytes later)

decode_long-length :
    (l : Option Lead) (bytes : List ℕ) (size : ℕ)
    → decode_long l bytes ≡ some size
    → (1 ≤ size) × (size ≤ suc (length bytes))
unfolding decode_long
decode_long-length none bytes size h = cc
decode_long-length (some l) bytes size h = elim (Bool-cases (continued l.more l.low l.high bytes)) [
  | inr cut ↦ absurd (cc (rw (cut, decode_long) at h))
  | inl whole ↦
      let e : suc l.more ≡ size = cc (rw (whole, decode_long) at h) in
      let fits = continued-length l.more l.low l.high bytes whole in
      (omega (arith, e), omega (arith, e, fits))
]

-- A rune has a byte, and all of them are there.
pub decode_rune-length :
    (bytes : List ℕ) (size : ℕ) → decode_rune bytes ≡ some size → (1 ≤ size) × (size ≤ length bytes)
unfolding decode_rune
decode_rune-length [] size h = cc
decode_rune-length (b ∷ bytes) size h = elim (Bool-cases (ltb b 128)) [
  | inl ascii ↦
      let e : 1 ≡ size = cc (rw (ascii, decode_rune) at h) in (omega (arith, e), omega (arith, e))
  | inr long ↦ decode_long-length (lead b) bytes size (rw (long, decode_rune) at h)
]

same_rune :
    (value : List ℕ) (m n s t : ℕ)
    → m ≡ n
    → decode_rune (drop m value) ≡ some s
    → decode_rune (drop n value) ≡ some t
    → s ≡ t
same_rune value m n s t e f g = cc (ap (λ k. decode_rune (drop k value)) e)

order-cases : (a b : ℕ) → (a < b) ⊎ ((a ≡ b) ⊎ (b < a))
order-cases a b = elim (Bool-cases (ltb a b)) [
  | inl low ↦ inl (ground arith)
  | inr high ↦ elim (Bool-cases (ltb b a)) [
    | inl low ↦ inr (inr (ground arith))
    | inr same ↦ inr (inl (ground arith))
  ]
]

module _ (value : List ℕ) where
  pub Boundary-le : {n : ℕ} → Boundary value n → n ≤ length value
  Boundary-le start = omega arith
  Boundary-le (rune {n} {size} b e) =
      let (_, fits) = decode_rune-length (drop n value) size e in
      omega (arith, fits, length-drop n value, Boundary-le b)

  -- From a boundary the next one is a rune further, where this holds of those before it.
  past :
      {m : ℕ} (e s : ℕ)
      → ((k t : ℕ) → Boundary value k → k < e → decode_rune (drop k value) ≡ some t → k + t ≤ e)
      → decode_rune (drop e value) ≡ some s
      → Boundary value m
      → e < m
      → e + s ≤ m
  past e s before here start h = absurd (omega (arith, h))
  past e s before here (rune {n} {size} b q) h = elim (order-cases n e) [
    | inl low ↦ absurd (omega (arith, h, before n size b low q))
    | inr (inl same) ↦
        let sizes : s ≡ size = same_rune value e n s size (sym same) here q in
        omega (arith, sizes, same)
    | inr (inr high) ↦ omega (arith, past e s before here b high)
  ]

  -- A rune that starts before a boundary ends there at the latest.
  pub next :
      {e m : ℕ} (s : ℕ)
      → Boundary value e
      → Boundary value m
      → m < e
      → decode_rune (drop m value) ≡ some s
      → m + s ≤ e
  next s start c h q = absurd (omega (arith, h))
  next {m} s (rune {n} {size} b p) c h q = elim (order-cases m n) [
    | inl low ↦ omega (arith, next s b c low q)
    | inr (inl same) ↦
        let sizes : s ≡ size = same_rune value m n s size same q p in omega (arith, sizes, same)
    | inr (inr high) ↦
        absurd (omega (arith, h, past n size (λ k t bk low qk. next t b bk low qk) p c high))
  ]

  -- Behind a boundary, the next one is behind its rune.
  pub after-Boundary :
      {e m : ℕ} (s : ℕ)
      → Boundary value e
      → decode_rune (drop e value) ≡ some s
      → Boundary value m
      → e < m
      → e + s ≤ m
  after-Boundary {e} s b here c h = past e s (λ k t bk low qk. next t b bk low qk) here c h

  -- At a boundary before another one there is a rune.
  pub rune_follows :
      {at m : ℕ}
      → Boundary value at
      → Boundary value m
      → at < m
      → (s : ℕ) × (decode_rune (drop at value) ≡ some s)
  rune_follows b start h = absurd (omega (arith, h))
  rune_follows {at} b (rune {n} {size} c q) h = elim (order-cases at n) [
    | inl low ↦ rune_follows b c low
    | inr (inl same) ↦ (size, ap (λ k. decode_rune (drop k value)) same ∙ q)
    | inr (inr high) ↦ absurd (omega (arith, h, after-Boundary size c q b high))
  ]

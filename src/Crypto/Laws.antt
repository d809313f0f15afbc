-- ===== src/Crypto/Laws.antt =====
-- `Decrypt` of crypto/crypto.go undoes `Encrypt`.
use garlic.Common.{
  ℕ, ◌≤◌, ◌≡◌, refl, ap, false, [], ◌∷◌, ◌++◌, ltb, length, take, drop, ◌⊎◌, inl, inr, arith,
  Sum-cases,
}
use garlic.Errors.ErrorT.{Err}
use garlic.Crypto.{Bytes, Aead, Primitives, Crypto, derive_key, new_aead, encrypt, decrypt, opened}

take-append_length : (xs ys : Bytes) → take (length xs) (xs ++ ys) ≡ xs
take-append_length [] ys = refl
take-append_length (x ∷ xs) ys = ap (λ t. x ∷ t) (take-append_length xs ys)

drop-append_length : (xs ys : Bytes) → drop (length xs) (xs ++ ys) ≡ ys
drop-append_length [] ys = refl
drop-append_length (x ∷ xs) ys = drop-append_length xs ys

length-le-append : (xs ys : Bytes) → length xs ≤ length (xs ++ ys)
length-le-append [] ys = omega arith
length-le-append (x ∷ xs) ys = omega (arith, length-le-append xs ys)

-- What the primitives promise: base64 is read back, and a sealed content opens with its nonce.
pub record IsReversible (p : Primitives) : Type 0 where
  pub base64 : (bytes : Bytes) → p.base64_decode (p.base64_encode bytes) ≡ inr bytes
  pub sealed :
      (block : p.Block) (aead : Aead)
      → p.new_gcm block ≡ inr aead
      → (nonce content : Bytes) → length nonce ≡ aead.nonce_size
      → aead.open_sealed nonce (aead.seal nonce content) ≡ inr content

module _ (p : Primitives) (law : IsReversible p) (c : Crypto) where
  opened-sealed :
      (block : p.Block) (aead : Aead) (nonce content : Bytes)
      → p.new_gcm block ≡ inr aead
      → length nonce ≡ aead.nonce_size
      → opened p c (nonce ++ aead.seal nonce content) aead ≡ inr content
  unfolding opened
  opened-sealed block aead nonce content made full =
      let sealed = aead.seal nonce content in
      let fits : ltb (length (nonce ++ sealed)) (length nonce) ≡ false =
        ground (arith, length-le-append nonce sealed) in
      rw (← full) (
        rw
          (
            fits,
            take-append_length nonce sealed,
            drop-append_length nonce sealed,
            law.sealed block aead made nonce content full,
          )
          refl)

  -- Where base64 can be read back, a sealed content opens with its nonce, and the random source gives as
  -- many bytes as it is asked for, `Decrypt` of what `Encrypt` returns is the content.
  pub decrypt-encrypt :
      (random : ℕ → Err ⊎ Bytes) (content encoded : Bytes)
      → ((n : ℕ) (bytes : Bytes) → random n ≡ inr bytes → length bytes ≡ n)
      → encrypt p c random content ≡ inr encoded
      → decrypt p c encoded ≡ inr content
  unfolding encrypt decrypt new_aead derive_key
  decrypt-encrypt random content encoded full e =
      elim (Sum-cases (p.hkdf c.master_key "garlic-aes-256-gcm")) [
        | inl (err, q) ↦ absurd (ground (arith, rw q at e))
        | inr (key, derived) ↦ elim (Sum-cases (p.new_cipher key)) [
          | inl (err, q) ↦ absurd (ground (arith, rw (derived, q) at e))
          | inr (block, ciphered) ↦ elim (Sum-cases (p.new_gcm block)) [
            | inl (err, q) ↦ absurd (ground (arith, rw (derived, ciphered, q) at e))
            | inr (aead, made) ↦ elim (Sum-cases (random aead.nonce_size)) [
              | inl (err, q) ↦ absurd (ground (arith, rw (derived, ciphered, made, q) at e))
              | inr (nonce, drawn) ↦
                  let text : p.base64_encode (nonce ++ aead.seal nonce content) ≡ encoded =
                    let sent = rw (derived, ciphered, made, drawn) at e in cc sent in
                  rw (← text) (
                    rw (law.base64 (nonce ++ aead.seal nonce content), derived, ciphered, made)
                      (opened-sealed block aead nonce content made
                        (full aead.nonce_size nonce drawn)))
            ]
          ]
        ]
      ]

-- ===== src/Crypto/Tests.antt =====
-- A round trip through crypto/crypto.go with primitives that only move bytes around.
use garlic.Common.{ℕ, zero, suc, ap, ◌≡◌, refl, subst, [], ◌∷◌, length, inl, inr}
use garlic.Errors.ErrorT.{Err}
use garlic.Crypto.{Bytes, Aead, Primitives, Crypto, derive_key, new_aead, encrypt, decrypt}
use garlic.Crypto.Laws.{IsReversible, decrypt-encrypt}

-- The content under a mark of one byte.
abbrev marking : Aead
marking = record {
  nonce_size = 2;
  seal = λ nonce content. 9 ∷ content;
  open_sealed =
      λ nonce sealed. elim sealed [ [] ↦ inl (Err.plain "short") | b ∷ content ↦ inr content ];
}

abbrev primitives : Primitives
primitives = record {
  Block = Bytes;
  hkdf = λ key info. inr (1 ∷ []);
  new_cipher = λ key. inr key;
  new_gcm = λ block. inr marking;
  base64_encode = λ bytes. bytes;
  base64_decode = λ text. inr text;
}

primitives-IsReversible : IsReversible primitives
primitives-IsReversible = record {
  base64 = λ bytes. refl;
  sealed = λ block aead made nonce content full.
      let same : marking ≡ aead = cc in
      subst (λ (a : Aead). a.open_sealed nonce (a.seal nonce content) ≡ inr content) same refl;
}

abbrev zeros : ℕ → Bytes
zeros zero = []
zeros (suc n) = 0 ∷ zeros n

abbrev crypto : Crypto
crypto = record { master_key = "secret" }

encrypted : encrypt primitives crypto (λ n. inr (zeros n)) (5 ∷ []) ≡ inr (0 ∷ 0 ∷ 9 ∷ 5 ∷ [])
unfolding encrypt new_aead derive_key
encrypted = refl

length-zeros : (n : ℕ) → length (zeros n) ≡ n
length-zeros zero = refl
length-zeros (suc n) = ap suc (length-zeros n)

decrypt-encrypt_example : decrypt primitives crypto (0 ∷ 0 ∷ 9 ∷ 5 ∷ []) ≡ inr (5 ∷ [])
decrypt-encrypt_example =
    decrypt-encrypt primitives primitives-IsReversible crypto (λ n. inr (zeros n)) (5 ∷ [])
      (0 ∷ 0 ∷ 9 ∷ 5 ∷ [])
      (λ n bytes e.
        let same : zeros n ≡ bytes = cc in
        subst (λ (b : Bytes). length b ≡ n) same (length-zeros n))
      encrypted

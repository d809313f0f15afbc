-- ===== src/Crypto.antt =====
-- crypto/crypto.go: encryption with a key that is derived from a master key. The primitives of the
-- standard library and of hkdf are arguments, and so is the random source. Bytes are numbers, and a text that
-- is encoded is its bytes.
pub mod Laws
mod Tests
use garlic.Common.{
  ℕ, String, Bool, true, false, Option, none, some, List, [], ◌∷◌, ◌++◌, if◌then◌else◌, ltb, length,
  take, drop, str_eq, ◌⊎◌, inl, inr,
}
use garlic.Errors.Kind.{Kind}
use garlic.Errors.Primitive.{kind_system_error}
use garlic.Errors.ErrorT.{Err}
use garlic.Errors.Failure.{Failure, new, propagate, given}

abbrev pub Bytes : Type 0
Bytes = List ℕ

-- An authenticated cipher with a nonce, as `cipher.NewGCM` gives it for a block cipher.
pub record Aead : Type 0 where
  pub nonce_size : ℕ
  pub seal : Bytes → Bytes → Bytes
  pub open_sealed : Bytes → Bytes → Err ⊎ Bytes

pub record Primitives : Type 1 where
  pub Block : Type 0
  -- `io.ReadFull` of 32 bytes from `hkdf.New` with SHA-256, for a master key and an info text.
  pub hkdf : String → String → Err ⊎ Bytes
  pub new_cipher : Bytes → Err ⊎ Block
  pub new_gcm : Block → Err ⊎ Aead
  pub base64_encode : Bytes → Bytes
  pub base64_decode : Bytes → Err ⊎ Bytes

pub record Crypto : Type 0 where
  pub master_key : String

unfoldable pub new_crypto : String → Failure ⊎ Crypto
new_crypto master_key =
    if str_eq master_key ""
    then inl (new kind_system_error "crypto master key must not be empty")
    else inr (record { master_key = master_key })

infixl 5 ◌>>=◌
abbrev pub ◌>>=◌ {ℓ κ} : {A : Type ℓ} {B : Type κ} → Failure ⊎ A → (A → Failure ⊎ B) → Failure ⊎ B
inl f >>= k = inl f
inr a >>= k = k a

-- `if err != nil { return errors.Propagate(err, message) }`
abbrev pub expect {ℓ} : {A : Type ℓ} → Err ⊎ A → String → Failure ⊎ A
expect (inl err) message = inl (propagate (given err) message)
expect (inr a) message = inr a

abbrev pub rewrapped {ℓ} : {A : Type ℓ} → Failure ⊎ A → String → Failure ⊎ A
rewrapped (inl f) message = inl (propagate f message)
rewrapped (inr a) message = inr a

module _ (p : Primitives) (c : Crypto) where
  unfoldable pub derive_key : Failure ⊎ Bytes
  derive_key = expect (p.hkdf c.master_key "garlic-aes-256-gcm") "failed to derive key with HKDF"

  unfoldable pub new_aead : String → Failure ⊎ Aead
  unfolding derive_key
  new_aead message = do
    key ← rewrapped derive_key message
    block ← expect (p.new_cipher key) "failed to create AES cipher"
    expect (p.new_gcm block) "failed to create GCM"

  -- `Encrypt`, with what the random source gives for a size.
  unfoldable pub encrypt : (ℕ → Err ⊎ Bytes) → Bytes → Failure ⊎ Bytes
  encrypt random content = do
    aead ← new_aead "failed to derive encryption key"
    nonce ← expect (random aead.nonce_size) "failed to generate nonce"
    inr (p.base64_encode (nonce ++ aead.seal nonce content))

  unfoldable pub opened : Bytes → Aead → Failure ⊎ Bytes
  opened bytes aead =
      if ltb (length bytes) aead.nonce_size
      then inl (new kind_system_error "ciphertext too short")
      else expect (aead.open_sealed (take aead.nonce_size bytes) (drop aead.nonce_size bytes))
          "failed to decrypt ciphertext"

  -- `Decrypt`
  unfoldable pub decrypt : Bytes → Failure ⊎ Bytes
  decrypt encoded_text = do
    bytes ← expect (p.base64_decode encoded_text) "failed to decode base64 string"
    aead ← new_aead "failed to derive decryption key"
    opened bytes aead

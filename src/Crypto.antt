-- ===== src/Crypto.antt =====
-- examples/crypto-basics/main.go: verify and authenticatedEncryption. The primitives of Go's crypto packages
-- are an interface; a byte is a number.
pub mod Sealing
mod Tests
use Prim.Native.String.{String}
use go_examples.Base.{
  ℕ, zero, suc, ◌+◌, ◌-◌, ◌%◌, ◌≡◌, Bool, true, false, List, [], ◌∷◌, ◌++◌, Option, none, some,
  Result, ok, err, Error, leaf, wrap, take, length, ◌==◌, if◌then◌else◌,
}

abbrev pub Bytes : Type 0
Bytes = List ℕ

-- `seal` gives what Seal appends to its first argument, and `open_sealed` what Open returns, or none for an error.
pub record Primitives : Type 0 where
  pub mac : Bytes → Bytes → Bytes
  pub key_fits : Bytes → Bool
  pub nonce_size : ℕ
  pub seal : Bytes → Bytes → Bytes → Bytes
  pub open_sealed : Bytes → Bytes → Bytes → Option Bytes
  pub open_sealed-seal :
      (key nonce plaintext : Bytes)
      → length nonce ≡ nonce_size
      → open_sealed key nonce (seal key nonce plaintext) ≡ some plaintext
  -- The 16 bytes of the tag.
  pub length-seal :
      (key nonce plaintext : Bytes) → length (seal key nonce plaintext) ≡ length plaintext + 16

pub data Leaf : Type 0 where
  bad_key_size random_failed not_authentic tampering_accepted : Leaf

pub data Context : Type 0 where
  creating_cipher generating_nonce decrypting : Context

abbrev pub CryptoError : Type 0
CryptoError = Error Context Leaf

-- hmac.Equal, less its constant time.
abbrev pub bytes_eq : Bytes → Bytes → Bool
bytes_eq [] [] = true
bytes_eq [] (y ∷ ys) = false
bytes_eq (x ∷ xs) [] = false
bytes_eq (x ∷ xs) (y ∷ ys) = if x == y then bytes_eq xs ys else false

-- `s[n:]`
abbrev pub drop_bytes : ℕ → Bytes → Bytes
drop_bytes zero xs = xs
drop_bytes (suc n) [] = []
drop_bytes (suc n) (x ∷ xs) = drop_bytes n xs

-- `x ^ 0x01`
abbrev pub flip_low_bit : ℕ → ℕ
flip_low_bit x = if x % 2 == 0 then x + 1 else x - 1

abbrev pub flip_first : Bytes → Bytes
flip_first [] = []
flip_first (x ∷ xs) = flip_low_bit x ∷ xs

module _ (p : Primitives) where
  open p use {mac, key_fits, nonce_size, seal, open_sealed}

  unfoldable pub verify : Bytes → Bytes → Bytes → Bool
  verify key message tag = bytes_eq tag (mac key message)

  -- What the demonstration prints and returns: whether the decryption is the plaintext, and the error.
  pub record Shown : Type 0 where
    pub sealed_length : ℕ
    pub matches : Bool
    pub result : Result CryptoError (Unit {0})

  abbrev pub tampered : Option Bytes → Result CryptoError (Unit {0})
  tampered none = ok tt
  tampered (some b) = err (leaf tampering_accepted)

  -- After Open.
  abbrev pub opened : Bytes → Bytes → Bytes → Bytes → Bytes → Option Bytes → Shown
  opened key plaintext sealed nonce ciphertext none = record {
    sealed_length = length sealed;
    matches = false;
    result = err (wrap decrypting (leaf not_authentic));
  }
  opened key plaintext sealed nonce ciphertext (some decrypted) = record {
    sealed_length = length sealed;
    matches = bytes_eq decrypted plaintext;
    result = tampered (open_sealed key nonce (flip_first ciphertext));
  }

  -- After Seal, which appends to the nonce.
  abbrev pub split_sealed : Bytes → Bytes → Bytes → Shown
  split_sealed key plaintext sealed =
      let nonce = take nonce_size sealed in
      let ciphertext = drop_bytes nonce_size sealed in
      opened key plaintext sealed nonce ciphertext (open_sealed key nonce ciphertext)

  abbrev pub failed : CryptoError → Shown
  failed e = record { sealed_length = 0; matches = false; result = err e }

  -- `random` is what rand.Read puts into the nonce.
  unfoldable pub authenticated_encryption : Bytes → Bytes → Option Bytes → Shown
  authenticated_encryption key plaintext random =
      if key_fits key
      then elim random [
        | none ↦ failed (wrap generating_nonce (leaf random_failed))
        | some nonce ↦ split_sealed key plaintext (nonce ++ seal key nonce plaintext)
      ]
      else failed (wrap creating_cipher (leaf bad_key_size))

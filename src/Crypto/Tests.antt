-- ===== src/Crypto/Tests.antt =====
-- A toy that meets the interface, and the theorems at it.
use go_examples.Base.{
  ◌+◌, ◌≡◌, ◌≢◌, refl, true, false, [], ◌∷◌, ◌++◌, Option, none, some, ok, arith, take, length,
  replicate, if◌then◌else◌,
}
use go_examples.Crypto.{
  Bytes, Primitives, bytes_eq, drop_bytes, flip_first, verify, tampered, authenticated_encryption,
}
use go_examples.Crypto.Sealing.{verify_iff, encryption_opens}

abbrev tag : Bytes
tag = replicate 16 7

-- The tag is a constant.
abbrev toy_seal : Bytes → Bytes → Bytes → Bytes
toy_seal key nonce plaintext = tag ++ plaintext

abbrev toy_open : Bytes → Bytes → Bytes → Option Bytes
toy_open key nonce c = if bytes_eq (take 16 c) tag then some (drop_bytes 16 c) else none

toy_open-toy_seal :
    (key nonce plaintext : Bytes)
    → length nonce ≡ 2
    → toy_open key nonce (toy_seal key nonce plaintext) ≡ some plaintext
toy_open-toy_seal key nonce plaintext h = refl

length-toy_seal :
    (key nonce plaintext : Bytes) → length (toy_seal key nonce plaintext) ≡ length plaintext + 16
length-toy_seal key nonce plaintext = omega arith

abbrev toy : Primitives
toy = record {
  mac = λ key message. message ++ key;
  key_fits = λ key. true;
  nonce_size = 2;
  seal = toy_seal;
  open_sealed = toy_open;
  open_sealed-seal = toy_open-toy_seal;
  length-seal = length-toy_seal;
}

-- The flipped bit is in the tag, and Open rejects it.
encryption-run :
    authenticated_encryption toy (1 ∷ []) (4 ∷ 5 ∷ 6 ∷ []) (some (8 ∷ 9 ∷ []))
    ≡ record { sealed_length = 21; matches = true; result = ok tt }
unfolding authenticated_encryption
encryption-run = refl

encryption_opens_example :
    (authenticated_encryption toy (1 ∷ []) (4 ∷ 5 ∷ []) (some (8 ∷ 9 ∷ [])) ≡ record {
      sealed_length = 20;
      matches = true;
      result = tampered toy (toy_open (1 ∷ []) (8 ∷ 9 ∷ []) (flip_first (tag ++ 4 ∷ 5 ∷ [])));
    })
    × (flip_first (tag ++ 4 ∷ 5 ∷ []) ≢ tag ++ 4 ∷ 5 ∷ [])
encryption_opens_example = encryption_opens toy (1 ∷ []) (4 ∷ 5 ∷ []) (8 ∷ 9 ∷ []) refl refl

tampered-verify : verify toy (1 ∷ []) (4 ∷ 6 ∷ []) (4 ∷ 5 ∷ 1 ∷ []) ≡ false
unfolding verify
tampered-verify = refl

genuine-verify : verify toy (1 ∷ []) (4 ∷ 5 ∷ []) (4 ∷ 5 ∷ 1 ∷ []) ≡ true
genuine-verify = (verify_iff toy (1 ∷ []) (4 ∷ 5 ∷ []) (4 ∷ 5 ∷ 1 ∷ [])).1 refl

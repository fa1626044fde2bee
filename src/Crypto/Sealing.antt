-- ===== src/Crypto/Sealing.antt =====
-- What a genuine message and a sealed blob give back.
use go_examples.Base.{
  ℕ, ◌+◌, ◌<◌, ◌≡◌, ◌≢◌, ◌↔◌, refl, sym, ap, ◌∙◌, true, [], ◌∷◌, ◌++◌, some, arith, take, length,
  length-append, ==_iff,
}
use go_examples.Crypto.{
  Bytes, Primitives, bytes_eq, drop_bytes, flip_low_bit, flip_first, verify, tampered,
  authenticated_encryption,
}

bytes_eq_refl : (xs : Bytes) → bytes_eq xs xs ≡ true
bytes_eq_refl [] = refl
bytes_eq_refl (x ∷ xs) = ground (arith, bytes_eq_refl xs, ==_iff x x)

bytes_eq_sound : (xs ys : Bytes) → bytes_eq xs ys ≡ true → xs ≡ ys
bytes_eq_sound [] [] h = refl
bytes_eq_sound [] (y ∷ ys) h = ground (arith, h)
bytes_eq_sound (x ∷ xs) [] h = ground (arith, h)
bytes_eq_sound (x ∷ xs) (y ∷ ys) h = ground (arith, h, bytes_eq_sound xs ys, ==_iff x y)

take-append : (xs ys : Bytes) → take (length xs) (xs ++ ys) ≡ xs
take-append [] ys = refl
take-append (x ∷ xs) ys = ap (λ zs. x ∷ zs) (take-append xs ys)

drop_bytes-append : (xs ys : Bytes) → drop_bytes (length xs) (xs ++ ys) ≡ ys
drop_bytes-append [] ys = refl
drop_bytes-append (x ∷ xs) ys = drop_bytes-append xs ys

flip_low_bit-ne : (x : ℕ) → flip_low_bit x ≢ x
flip_low_bit-ne x e = ground (arith, e)

flip_first-ne : (xs : Bytes) → 0 < length xs → flip_first xs ≢ xs
flip_first-ne [] h e = ground (arith, h)
flip_first-ne (x ∷ xs) h e = ground (arith, e, flip_low_bit-ne x)

module _ (p : Primitives) where
  open p use {mac, key_fits, nonce_size, seal, open_sealed, open_sealed-seal, length-seal}

  -- verify accepts a tag exactly if it is the one of the message under the key.
  pub verify_iff :
      (key message tag : Bytes) → (verify p key message tag ≡ true) ↔ (tag ≡ mac key message)
  unfolding verify
  verify_iff key message tag = (
    λ h. bytes_eq_sound tag (mac key message) h,
    λ e. ap (λ t. bytes_eq t (mac key message)) e ∙ bytes_eq_refl (mac key message),
  )

  -- With a key that fits and a nonce of the right size, the sealed blob is the nonce, the
  -- ciphertext and 16 bytes; the split of the blob decrypts to the plaintext; and the example ends without an error
  -- exactly if Open rejects the ciphertext with a flipped bit, which is another one.
  pub encryption_opens :
      (key plaintext nonce : Bytes)
      → key_fits key ≡ true
      → length nonce ≡ nonce_size
      → (authenticated_encryption p key plaintext (some nonce) ≡ record {
        sealed_length = nonce_size + (length plaintext + 16);
        matches = true;
        result = tampered p (open_sealed key nonce (flip_first (seal key nonce plaintext)));
      })
        × (flip_first (seal key nonce plaintext) ≢ seal key nonce plaintext)
  unfolding authenticated_encryption
  encryption_opens key plaintext nonce k n =
      let c = seal key nonce plaintext in
      let s = length-seal key nonce plaintext in
      let t : take nonce_size (nonce ++ c) ≡ nonce =
        ap (λ i. take i (nonce ++ c)) (sym n) ∙ take-append nonce c in
      let d : drop_bytes nonce_size (nonce ++ c) ≡ c =
        ap (λ i. drop_bytes i (nonce ++ c)) (sym n) ∙ drop_bytes-append nonce c in
      let o = open_sealed-seal key nonce plaintext n in
      let q = bytes_eq_refl plaintext in
      let l = length-append nonce c in
      (ground (arith, k, n, s, t, d, o, q, l), flip_first-ne c (omega (arith, s)))

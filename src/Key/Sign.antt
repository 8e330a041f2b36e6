-- ===== src/Key/Sign.antt =====
-- `SecretKey::public_key`, `SecretKey::sign` and `KeyPair` of types/key.rs. Key generation and
-- signing of the crates `ed25519-dalek`, `k256` and `ml-dsa` are parameters, with their laws.
use near_kit_rs.Prelude.{
  ℕ, ◌<◌, ◌≡◌, sym, ap, ◌∙◌, true, false, [], ◌∷◌, ◌++◌, Bytes, length, take, drop, ltb,
  take-length-append, drop-length-append, arith,
}
use near_kit_rs.Key.Defs.{
  Crypto, PublicKey, Signature, ml_dsa_65_public_key_length, ml_dsa_65_signature_length,
}
use near_kit_rs.Key.Verify.{verify, at_byte, first_byte}
use near_kit_rs.Key.Secret.{SecretKey, MlDsa65SecretKey, seed, expanded, SecretSchemes, IsSecretKey}

pub record Signing : Type 0 where
  pub ed25519_public_key : (secret : Bytes) → Bytes
  pub ed25519_sign : (secret message : Bytes) → Bytes
  -- The uncompressed form behind its byte `0x04`, and a signature with its recovery ID.
  pub secp256k1_public_key : (secret : Bytes) → Bytes
  pub secp256k1_sign_prehash : (secret hash : Bytes) → Bytes × ℕ
  pub ml_dsa_public_key : (expanded_key : Bytes) → Bytes
  pub ml_dsa_sign : (expanded_key message : Bytes) → Bytes

-- The documented behaviour of the crates.
pub record IsSigning (c : Crypto) (s : SecretSchemes) (g : Signing) : Type 0 where
  pub ed25519_point :
      (k : Bytes) → length k ≡ 32 → c.is_ed25519_point (g.ed25519_public_key k) ≡ true
  pub ed25519_verifies :
      (k m : Bytes)
      → length k ≡ 32
      → c.ed25519_verify_strict (g.ed25519_public_key k) m (g.ed25519_sign k m) ≡ true
  pub secp256k1_point :
      (k : Bytes)
      → s.is_secp256k1_scalar k ≡ true
      → c.is_secp256k1_point (4 ∷ g.secp256k1_public_key k) ≡ true
  pub secp256k1_signature :
      (k h : Bytes)
      → s.is_secp256k1_scalar k ≡ true
      → (length (g.secp256k1_sign_prehash k h).0 ≡ 64)
        × ((g.secp256k1_sign_prehash k h).1 < 4)
        × (c.is_secp256k1_signature (g.secp256k1_sign_prehash k h).0 ≡ true)
  pub secp256k1_verifies :
      (k h : Bytes)
      → s.is_secp256k1_scalar k ≡ true
      → c.secp256k1_verify_prehash (4 ∷ g.secp256k1_public_key k) h (g.secp256k1_sign_prehash k h).0
        ≡ true
  -- An ML-DSA key as the generation of the crate makes it, the expansion of a seed of 32 bytes.
  pub ml_dsa_lengths :
      (k m : Bytes)
      → length k ≡ 32
      → (length (g.ml_dsa_public_key (s.ml_dsa_expand k)) ≡ ml_dsa_65_public_key_length)
        × (length (g.ml_dsa_sign (s.ml_dsa_expand k) m) ≡ ml_dsa_65_signature_length)
  pub ml_dsa_verifies :
      (k m : Bytes)
      → length k ≡ 32
      → (c.is_ml_dsa_signature (g.ml_dsa_sign (s.ml_dsa_expand k) m) ≡ true)
        × (c.ml_dsa_verify
              (g.ml_dsa_public_key (s.ml_dsa_expand k))
              m
              (g.ml_dsa_sign (s.ml_dsa_expand k) m)
            ≡ true)

-- An expanded ML-DSA key is the expansion of some seed. The source takes more keys than these: it
-- tests only that the bytes decode.
abbrev pub IsGenerated : SecretSchemes → SecretKey → Type 0
IsGenerated s (SecretKey.ml_dsa65 (expanded k)) =
    (from : Bytes) × (length from ≡ 32) × (k ≡ s.ml_dsa_expand from)
IsGenerated s _ = Unit

pub record KeyPair : Type 0 where
  pub secret_key : SecretKey
  pub public_key : PublicKey

module _ (c : Crypto) (s : SecretSchemes) (g : Signing) where
  -- `ml_dsa65_signing_key`, as its expanded bytes.
  unfoldable pub ml_dsa65_signing_key : MlDsa65SecretKey → Bytes
  ml_dsa65_signing_key (seed bytes) = s.ml_dsa_expand bytes
  ml_dsa65_signing_key (expanded bytes) = bytes

  unfoldable pub derive_public_key : SecretKey → PublicKey
  unfolding ml_dsa65_signing_key
  derive_public_key (SecretKey.ed25519 bytes) = PublicKey.ed25519 (g.ed25519_public_key bytes)
  derive_public_key (SecretKey.secp256k1 bytes) = PublicKey.secp256k1 (g.secp256k1_public_key bytes)
  derive_public_key (SecretKey.ml_dsa65 key) =
      PublicKey.ml_dsa65 (g.ml_dsa_public_key (ml_dsa65_signing_key key))

  -- The signature and the recovery ID behind it.
  abbrev pub with_recovery : Bytes × ℕ → Bytes
  with_recovery (signature, recovery_id) = signature ++ recovery_id ∷ []

  unfoldable pub secret_sign : SecretKey → (message : Bytes) → Signature
  unfolding ml_dsa65_signing_key
  secret_sign (SecretKey.ed25519 bytes) message = Signature.ed25519 (g.ed25519_sign bytes message)
  secret_sign (SecretKey.secp256k1 bytes) message =
      Signature.secp256k1 (with_recovery (g.secp256k1_sign_prehash bytes (c.sha256 message)))
  secret_sign (SecretKey.ml_dsa65 key) message =
      Signature.ml_dsa65 (g.ml_dsa_sign (ml_dsa65_signing_key key) message)

  unfoldable pub from_secret_key : SecretKey → KeyPair
  unfolding derive_public_key
  from_secret_key key = record { secret_key = key; public_key = derive_public_key key }

  front_and_id :
      (front : Bytes) (id : ℕ)
      → length front ≡ 64
      → (take 64 (front ++ id ∷ []) ≡ front) × (at_byte (front ++ id ∷ []) 64 ≡ id)
  unfolding at_byte
  front_and_id front id h =
      let rest : drop 64 (front ++ id ∷ []) ≡ id ∷ [] =
        ap (λ n. drop n (front ++ id ∷ [])) (sym h) ∙ drop-length-append front (id ∷ []) in
      (
        ap (λ n. take n (front ++ id ∷ [])) (sym h) ∙ take-length-append front (id ∷ []),
        ap first_byte rest,
      )

  below_four : (id : ℕ) → id < 4 → ltb 3 id ≡ false
  below_four id h = ground arith

  -- Given the laws of the signature crates (their own verification accepts what they sign, with the
  -- public key and the hash that they were given), a signature that a valid secret key, an expanded
  -- ML-DSA key the expansion of some seed, makes of a message is accepted by `Signature::verify`
  -- for that message under the public key of its key pair.
  pub verify-secret_sign :
      IsSigning c s g
      → (key : SecretKey) (message : Bytes) → IsSecretKey c s key
      → IsGenerated s key
      → verify c (secret_sign key message) message (from_secret_key key).public_key ≡ true
  unfolding verify secret_sign from_secret_key derive_public_key ml_dsa65_signing_key
  verify-secret_sign w (SecretKey.ed25519 k) m h _ =
      rw (w.ed25519_point k h) (w.ed25519_verifies k m h)
  verify-secret_sign w (SecretKey.secp256k1 k) m (_, h) _ =
      let digest = c.sha256 m in
      let (len, small, valid) = w.secp256k1_signature k digest h in
      let (front, id) =
        front_and_id (g.secp256k1_sign_prehash k digest).0 (g.secp256k1_sign_prehash k digest).1
          len in
      rw
        (
          w.secp256k1_point k h,
          id,
          front,
          below_four (g.secp256k1_sign_prehash k digest).1 small,
          valid,
        )
        (w.secp256k1_verifies k digest h)
  verify-secret_sign w (SecretKey.ml_dsa65 (seed k)) m h _ =
      let (l, n) = w.ml_dsa_lengths k m h in let (p, q) = w.ml_dsa_verifies k m h in rw (l, n, p) q
  verify-secret_sign w (SecretKey.ml_dsa65 (expanded k)) m _ (from, h, same) =
      let (l, n) = w.ml_dsa_lengths from m h in
      let (p, q) = w.ml_dsa_verifies from m h in rw (same, l, n, p) q

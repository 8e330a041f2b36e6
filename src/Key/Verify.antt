-- ===== src/Key/Verify.antt =====
-- `Signature::verify` of types/key.rs.
use near_kit_rs.Prelude.{
  ℕ, ◌≡◌, refl, Bool, true, false, not, [], ◌∷◌, Bytes, length, take, drop, ltb, ◌==◌,
  if◌then◌else◌,
}
use near_kit_rs.Key.Defs.{
  Crypto, PublicKey, Signature, uncompressed, key_type, signature_key_type,
  ml_dsa_65_public_key_length, ml_dsa_65_signature_length,
}

abbrev pub first_byte : Bytes → ℕ
first_byte [] = 0
first_byte (x ∷ _) = x

-- The byte at an index of an array; the indices used are within the array.
unfoldable pub at_byte : Bytes → ℕ → ℕ
at_byte xs i = first_byte (drop i xs)

module _ (c : Crypto) where
  unfoldable pub verify : Signature → Bytes → PublicKey → Bool
  unfolding at_byte
  verify (Signature.ed25519 sig_bytes) message (PublicKey.ed25519 pk_bytes) =
      if not (c.is_ed25519_point pk_bytes)
      then false
      else c.ed25519_verify_strict pk_bytes message sig_bytes
  verify (Signature.secp256k1 sig_bytes) message (PublicKey.secp256k1 pk_bytes) =
      if not (c.is_secp256k1_point (uncompressed pk_bytes))
      then false
      else if ltb 3 (at_byte sig_bytes 64)
      then false
      else if not (c.is_secp256k1_signature (take 64 sig_bytes))
      then false
      else c.secp256k1_verify_prehash (uncompressed pk_bytes) (c.sha256 message) (take 64 sig_bytes)
  verify (Signature.ml_dsa65 sig_bytes) message (PublicKey.ml_dsa65 pk_bytes) =
      if not (length pk_bytes == ml_dsa_65_public_key_length)
      then false
      else if not (length sig_bytes == ml_dsa_65_signature_length)
      then false
      else if not (c.is_ml_dsa_signature sig_bytes)
      then false
      else c.ml_dsa_verify pk_bytes message sig_bytes
  verify _ _ _ = false

  -- A signature is accepted only under a key of its own type.
  pub verify-key_type :
      (s : Signature) (message : Bytes) (k : PublicKey)
      → verify s message k ≡ true
      → signature_key_type s ≡ key_type k
  unfolding verify signature_key_type key_type
  verify-key_type (Signature.ed25519 _) m (PublicKey.ed25519 _) h = refl
  verify-key_type (Signature.secp256k1 _) m (PublicKey.secp256k1 _) h = refl
  verify-key_type (Signature.ml_dsa65 _) m (PublicKey.ml_dsa65 _) h = refl
  verify-key_type (Signature.ed25519 _) m (PublicKey.secp256k1 _) h = cc
  verify-key_type (Signature.ed25519 _) m (PublicKey.ml_dsa65 _) h = cc
  verify-key_type (Signature.secp256k1 _) m (PublicKey.ed25519 _) h = cc
  verify-key_type (Signature.secp256k1 _) m (PublicKey.ml_dsa65 _) h = cc
  verify-key_type (Signature.ml_dsa65 _) m (PublicKey.ed25519 _) h = cc
  verify-key_type (Signature.ml_dsa65 _) m (PublicKey.secp256k1 _) h = cc

-- ===== src/Key/Secret.antt =====
-- `SecretKey` of types/key.rs: its accessors, `Display` and `FromStr`. What `k256` and `ml-dsa`
-- accept as a secret key, and the expansion of a seed, are parameters.
use near_kit_rs.Prelude.{
  ℕ, ◌≡◌, refl, Bool, true, ◌||◌, Option, none, some, ◌∷◌, ◌++◌, Bytes, length, take, Result, ok,
  err, ◌>>=◌, map_err, ok_or, if◌then◌else◌, ◌==◌, split_once, bytes_eq, take-length-append,
  append-nil, [], >>=-ensures, ◌≤◌, zero, suc, Bool-cases, inl, inr, arith, ap, ◌∙◌, sym,
}
use mathlib.Core.Path.{subst}
use near_kit_rs.Key.Defs.{
  ParseKeyError, invalid_format, invalid_base58, invalid_length, invalid_scalar, KeyType, Crypto,
  IsCrypto, as_str,
}
use near_kit_rs.Key.Text.{colon, signature_prefix, split_display}

abbrev pub ml_dsa_65_secret_key_length : ℕ
ml_dsa_65_secret_key_length = 4032

pub record SecretSchemes : Type 0 where
  pub is_secp256k1_scalar : Bytes → Bool
  pub is_ml_dsa_expanded : Bytes → Bool
  pub ml_dsa_expand : (seed : Bytes) → Bytes

pub data MlDsa65SecretKey : Type 0 where
  seed expanded : Bytes → MlDsa65SecretKey

pub data SecretKey : Type 0 where
  ed25519 secp256k1 : Bytes → SecretKey
  ml_dsa65 : MlDsa65SecretKey → SecretKey

unfoldable pub secret_key_type : SecretKey → KeyType
secret_key_type (SecretKey.ed25519 _) = KeyType.ed25519
secret_key_type (SecretKey.secp256k1 _) = KeyType.secp256k1
secret_key_type (SecretKey.ml_dsa65 _) = KeyType.ml_dsa65

unfoldable pub secret_bytes : SecretKey → Bytes
secret_bytes (SecretKey.ed25519 bytes) = bytes
secret_bytes (SecretKey.secp256k1 bytes) = bytes
secret_bytes (SecretKey.ml_dsa65 (seed bytes)) = bytes
secret_bytes (SecretKey.ml_dsa65 (expanded bytes)) = bytes

module _ (c : Crypto) (s : SecretSchemes) where
  -- `to_ml_dsa65_expanded_bytes` and `to_ml_dsa65_expanded`
  unfoldable pub to_ml_dsa65_expanded_bytes : SecretKey → Option Bytes
  to_ml_dsa65_expanded_bytes (SecretKey.ml_dsa65 (expanded bytes)) = some bytes
  to_ml_dsa65_expanded_bytes (SecretKey.ml_dsa65 (seed bytes)) = some (s.ml_dsa_expand bytes)
  to_ml_dsa65_expanded_bytes _ = none

  abbrev pub as_expanded : Option Bytes → Option SecretKey
  as_expanded none = none
  as_expanded (some bytes) = some (SecretKey.ml_dsa65 (expanded bytes))

  unfoldable pub to_ml_dsa65_expanded : SecretKey → Option SecretKey
  unfolding to_ml_dsa65_expanded_bytes
  to_ml_dsa65_expanded key = as_expanded (to_ml_dsa65_expanded_bytes key)

  unfoldable pub secp256k1_from_bytes : Bytes → Result ParseKeyError SecretKey
  secp256k1_from_bytes bytes =
      if s.is_secp256k1_scalar bytes then ok (SecretKey.secp256k1 bytes) else err invalid_scalar

  unfoldable pub ml_dsa65_from_expanded : Bytes → Result ParseKeyError SecretKey
  ml_dsa65_from_expanded bytes =
      if s.is_ml_dsa_expanded bytes
      then ok (SecretKey.ml_dsa65 (expanded bytes))
      else err invalid_scalar

  -- The rest of `from_str`, by the key type: a key of 64 bytes is a seed and its public key.
  unfoldable pub secret_key_of : KeyType → (decoded : Bytes) → Result ParseKeyError SecretKey
  unfolding secp256k1_from_bytes ml_dsa65_from_expanded
  secret_key_of KeyType.ml_dsa65 decoded =
      if length decoded == 32
      then ok (SecretKey.ml_dsa65 (seed decoded))
      else if length decoded == ml_dsa_65_secret_key_length
      then ml_dsa65_from_expanded decoded
      else err (invalid_length 32 (length decoded))
  secret_key_of KeyType.ed25519 decoded =
      if length decoded == 32 || length decoded == 64
      then ok (SecretKey.ed25519 (take 32 decoded))
      else err (invalid_length 32 (length decoded))
  secret_key_of KeyType.secp256k1 decoded =
      if length decoded == 32
      then secp256k1_from_bytes (take 32 decoded)
      else err (invalid_length 32 (length decoded))

  unfoldable pub secret_key_from_str : Bytes → Result ParseKeyError SecretKey
  unfolding signature_prefix secret_key_of
  secret_key_from_str text = do
    p ← ok_or (split_once colon text) invalid_format
    kt ← signature_prefix p.0
    decoded ← map_err invalid_base58 (c.bs58_decode p.1)
    secret_key_of kt decoded

  -- A key of a type, by its bytes.
  abbrev pub secret_text : KeyType → Bytes → Bytes
  secret_text kt bytes = as_str kt ++ colon ∷ c.bs58_encode bytes

  unfoldable pub secret_key_display : SecretKey → Bytes
  unfolding as_str secret_key_type secret_bytes
  secret_key_display key = secret_text (secret_key_type key) (secret_bytes key)

  -- What the constructors of `SecretKey` accept.
  abbrev pub IsSecretKey : SecretKey → Type 0
  IsSecretKey (SecretKey.ed25519 bytes) = length bytes ≡ 32
  IsSecretKey (SecretKey.secp256k1 bytes) =
      (length bytes ≡ 32) × (s.is_secp256k1_scalar bytes ≡ true)
  IsSecretKey (SecretKey.ml_dsa65 (seed bytes)) = length bytes ≡ 32
  IsSecretKey (SecretKey.ml_dsa65 (expanded bytes)) =
      (length bytes ≡ ml_dsa_65_secret_key_length) × (s.is_ml_dsa_expanded bytes ≡ true)

  take-all : (bytes : Bytes) (n : ℕ) → length bytes ≡ n → take n bytes ≡ bytes
  take-all bytes n h =
      ap (λ k. take k bytes) (sym h)
      ∙ ap (take (length bytes)) (sym (append-nil bytes))
      ∙ take-length-append bytes []

  -- Reading a text gives what its type makes of its bytes.
  from_str-text :
      IsCrypto c
      → (kt : KeyType) (bytes : Bytes)
      → secret_key_from_str (secret_text kt bytes) ≡ secret_key_of kt bytes
  unfolding secret_key_from_str signature_prefix as_str bytes_eq
  from_str-text w KeyType.ed25519 bytes =
      rw (split_display KeyType.ed25519 (c.bs58_encode bytes), w.bs58_round bytes) refl
  from_str-text w KeyType.secp256k1 bytes =
      rw (split_display KeyType.secp256k1 (c.bs58_encode bytes), w.bs58_round bytes) refl
  from_str-text w KeyType.ml_dsa65 bytes =
      rw (split_display KeyType.ml_dsa65 (c.bs58_encode bytes), w.bs58_round bytes) refl

  -- Given the laws of base58, every secret key of the length of its form, which the crate of its
  -- scheme accepts, is parsed back from its print, an ML-DSA key in the form in which it is held.
  pub secret_key_from_str-display :
      IsCrypto c
      → (key : SecretKey) → IsSecretKey key
      → secret_key_from_str (secret_key_display key) ≡ ok key
  unfolding secret_key_display secret_key_type secret_bytes secret_key_of secp256k1_from_bytes
      ml_dsa65_from_expanded
  secret_key_from_str-display w (SecretKey.ed25519 bytes) h =
      from_str-text w KeyType.ed25519 bytes ∙ rw (h, take-all bytes 32 h) refl
  secret_key_from_str-display w (SecretKey.secp256k1 bytes) (h, k) =
      from_str-text w KeyType.secp256k1 bytes ∙ rw (h, take-all bytes 32 h, k) refl
  secret_key_from_str-display w (SecretKey.ml_dsa65 (seed bytes)) h =
      from_str-text w KeyType.ml_dsa65 bytes ∙ rw (h) refl
  secret_key_from_str-display w (SecretKey.ml_dsa65 (expanded bytes)) (h, k) =
      from_str-text w KeyType.ml_dsa65 bytes ∙ rw (h, k) refl

  length-take : (n : ℕ) (bytes : Bytes) → n ≤ length bytes → length (take n bytes) ≡ n
  length-take zero bytes h = refl
  length-take (suc n) [] h = omega arith
  length-take (suc n) (x ∷ bytes) h = ap suc (length-take n bytes (omega arith))

  secret_key_of-IsSecretKey :
      (kt : KeyType) (bytes : Bytes) (key : SecretKey)
      → secret_key_of kt bytes ≡ ok key
      → IsSecretKey key
  unfolding secret_key_of secp256k1_from_bytes ml_dsa65_from_expanded
  secret_key_of-IsSecretKey KeyType.ed25519 bytes key e =
      let long : 32 ≤ length bytes = ground arith in
      let shape : SecretKey.ed25519 (take 32 bytes) ≡ key = ground arith in
      subst IsSecretKey shape (length-take 32 bytes long)
  secret_key_of-IsSecretKey KeyType.secp256k1 bytes key e =
      let long : 32 ≤ length bytes = ground arith in
      let scalar : s.is_secp256k1_scalar (take 32 bytes) ≡ true = ground arith in
      let shape : SecretKey.secp256k1 (take 32 bytes) ≡ key = ground arith in
      subst IsSecretKey shape (length-take 32 bytes long, scalar)
  secret_key_of-IsSecretKey KeyType.ml_dsa65 bytes key e = elim (Bool-cases (length bytes == 32)) [
    | inl y ↦
        let shape : SecretKey.ml_dsa65 (seed bytes) ≡ key = ground arith in
        subst IsSecretKey shape (ground arith)
    | inr n ↦
        let long : length bytes ≡ ml_dsa_65_secret_key_length = ground arith in
        let valid : s.is_ml_dsa_expanded bytes ≡ true = ground arith in
        let shape : SecretKey.ml_dsa65 (expanded bytes) ≡ key = ground arith in
        subst IsSecretKey shape (long, valid)
  ]

  -- Every secret key that is parsed from text has the length of its form, and was accepted by the
  -- crate of its scheme.
  pub secret_key_from_str-IsSecretKey :
      (text : Bytes) (key : SecretKey) → secret_key_from_str text ≡ ok key → IsSecretKey key
  unfolding secret_key_from_str
  secret_key_from_str-IsSecretKey text =
      >>=-ensures IsSecretKey (ok_or (split_once colon text) invalid_format) _ (λ p split.
        >>=-ensures IsSecretKey (signature_prefix p.0) _ (λ kt known.
          >>=-ensures IsSecretKey (map_err invalid_base58 (c.bs58_decode p.1)) _
            (λ decoded read key. secret_key_of-IsSecretKey kt decoded key)))

-- ===== src/Key/Text.antt =====
-- `Display` and `FromStr` of `PublicKey` and `Signature`: the name of the key type, a colon, and the
-- bytes in base58.
use near_kit_rs.Prelude.{
  ℕ, ◌≡◌, ◌≢◌, true, not, some, ◌∷◌, ◌++◌, Bytes, codes, All, Result, ok, err, ◌>>=◌, map_err,
  ok_or, if◌then◌else◌, ◌==◌, arith, length, bytes_eq, split_once, split_once-append, >>=-ensures,
}
use mathlib.Core.Path.{subst}
use near_kit_rs.Key.Defs.{
  ParseKeyError, invalid_format, unknown_key_type, invalid_base58, invalid_length,
  invalid_curve_point, ml_dsa65_hash_handle, KeyType, PublicKey, Signature, Crypto, IsCrypto,
  uncompressed, as_str, public_key_len, signature_len, key_type, as_bytes, signature_key_type,
  signature_bytes, IsPublicKey, IsSignature,
}

abbrev pub colon : ℕ
colon = b':'

abbrev pub ml_dsa_65_hash_prefix : Bytes
ml_dsa_65_hash_prefix = codes "ml-dsa-65-hash"

-- the `match prefix` of `PublicKey::from_str`
public_key_prefix : Bytes → Result ParseKeyError KeyType
unfolding bytes_eq
public_key_prefix prefix =
    if bytes_eq prefix (codes "ed25519")
    then ok KeyType.ed25519
    else if bytes_eq prefix (codes "secp256k1")
    then ok KeyType.secp256k1
    else if bytes_eq prefix (codes "ml-dsa-65")
    then ok KeyType.ml_dsa65
    else if bytes_eq prefix ml_dsa_65_hash_prefix
    then err ml_dsa65_hash_handle
    else err (unknown_key_type prefix)

-- the same `match` of `Signature::from_str`
unfoldable pub signature_prefix : Bytes → Result ParseKeyError KeyType
unfolding bytes_eq
signature_prefix prefix =
    if bytes_eq prefix (codes "ed25519")
    then ok KeyType.ed25519
    else if bytes_eq prefix (codes "secp256k1")
    then ok KeyType.secp256k1
    else if bytes_eq prefix (codes "ml-dsa-65")
    then ok KeyType.ml_dsa65
    else err (unknown_key_type prefix)

-- the `match key_type`, where the length has been checked
build_public_key : Crypto → KeyType → Bytes → Result ParseKeyError PublicKey
build_public_key c KeyType.ed25519 bytes =
    if c.is_ed25519_point bytes then ok (PublicKey.ed25519 bytes) else err invalid_curve_point
build_public_key c KeyType.secp256k1 bytes =
    if not (c.is_sec1_encoding (uncompressed bytes))
    then err invalid_curve_point
    else if not (c.is_secp256k1_point (uncompressed bytes))
    then err invalid_curve_point
    else ok (PublicKey.secp256k1 bytes)
build_public_key c KeyType.ml_dsa65 bytes = ok (PublicKey.ml_dsa65 bytes)

build_signature : KeyType → Bytes → Signature
build_signature KeyType.ed25519 bytes = Signature.ed25519 bytes
build_signature KeyType.secp256k1 bytes = Signature.secp256k1 bytes
build_signature KeyType.ml_dsa65 bytes = Signature.ml_dsa65 bytes

module _ (c : Crypto) where
  unfoldable pub public_key_from_str : Bytes → Result ParseKeyError PublicKey
  unfolding public_key_prefix public_key_len build_public_key
  public_key_from_str s = do
    p ← ok_or (split_once colon s) invalid_format
    kt ← public_key_prefix p.0
    decoded ← map_err invalid_base58 (c.bs58_decode p.1)
    if not (length decoded == public_key_len kt)
        then err (invalid_length (public_key_len kt) (length decoded))
        else build_public_key c kt decoded

  unfoldable pub public_key_display : PublicKey → Bytes
  unfolding as_str key_type as_bytes
  public_key_display k = as_str (key_type k) ++ colon ∷ c.bs58_encode (as_bytes k)

  unfoldable pub signature_from_str : Bytes → Result ParseKeyError Signature
  unfolding signature_prefix signature_len build_signature
  signature_from_str s = do
    p ← ok_or (split_once colon s) invalid_format
    kt ← signature_prefix p.0
    decoded ← map_err invalid_base58 (c.bs58_decode p.1)
    if not (length decoded == signature_len kt)
        then err (invalid_length (signature_len kt) (length decoded))
        else ok (build_signature kt decoded)

  unfoldable pub signature_display : Signature → Bytes
  unfolding as_str signature_key_type signature_bytes
  signature_display s = as_str (signature_key_type s) ++ colon ∷ c.bs58_encode (signature_bytes s)

as_str_no_colon : (kt : KeyType) → All (λ x. x ≢ colon) (as_str kt)
unfolding as_str
as_str_no_colon KeyType.ed25519 = omega arith
as_str_no_colon KeyType.secp256k1 = omega arith
as_str_no_colon KeyType.ml_dsa65 = omega arith

pub split_display :
    (kt : KeyType) (s : Bytes) → split_once colon (as_str kt ++ colon ∷ s) ≡ some (as_str kt, s)
split_display kt s = split_once-append colon (as_str kt) s (as_str_no_colon kt)

-- Given the laws of the key crates, every public key of the length of its type, and on its curve,
-- is parsed back from its print.
pub public_key_from_str-display :
    (c : Crypto)
    → IsCrypto c
    → (k : PublicKey) → IsPublicKey c k
    → public_key_from_str c (public_key_display c k) ≡ ok k
unfolding public_key_from_str public_key_display
public_key_from_str-display c w (PublicKey.ed25519 bytes) (h, p) =
    rw (split_display KeyType.ed25519 (c.bs58_encode bytes), w.bs58_round bytes, h, p)
public_key_from_str-display c w (PublicKey.secp256k1 bytes) (h, p, q) =
    rw (split_display KeyType.secp256k1 (c.bs58_encode bytes), w.bs58_round bytes, h, p, q)
public_key_from_str-display c w (PublicKey.ml_dsa65 bytes) h =
    rw (split_display KeyType.ml_dsa65 (c.bs58_encode bytes), w.bs58_round bytes, h)

-- Given the laws of the key crates, every signature of the right length is parsed back from its
-- print.
pub signature_from_str-display :
    (c : Crypto)
    → IsCrypto c
    → (s : Signature) → IsSignature s
    → signature_from_str c (signature_display c s) ≡ ok s
unfolding signature_from_str signature_display
signature_from_str-display c w (Signature.ed25519 bytes) h =
    rw (split_display KeyType.ed25519 (c.bs58_encode bytes), w.bs58_round bytes, h)
signature_from_str-display c w (Signature.secp256k1 bytes) h =
    rw (split_display KeyType.secp256k1 (c.bs58_encode bytes), w.bs58_round bytes, h)
signature_from_str-display c w (Signature.ml_dsa65 bytes) h =
    rw (split_display KeyType.ml_dsa65 (c.bs58_encode bytes), w.bs58_round bytes, h)

build_public_key-IsPublicKey :
    (c : Crypto) (kt : KeyType) (bytes : Bytes) (k : PublicKey)
    → length bytes ≡ public_key_len kt
    → build_public_key c kt bytes ≡ ok k
    → IsPublicKey c k
unfolding build_public_key public_key_len
build_public_key-IsPublicKey c KeyType.ed25519 bytes k h e =
    let (p, shape) : (c.is_ed25519_point bytes ≡ true) × (PublicKey.ed25519 bytes ≡ k) =
      (ground arith, ground arith) in
    subst (IsPublicKey c) shape (h, p)
build_public_key-IsPublicKey c KeyType.secp256k1 bytes k h e =
    let p : c.is_sec1_encoding (uncompressed bytes) ≡ true = ground arith in
    let q : c.is_secp256k1_point (uncompressed bytes) ≡ true = ground arith in
    let shape : PublicKey.secp256k1 bytes ≡ k = ground arith in
    subst (IsPublicKey c) shape (h, p, q)
build_public_key-IsPublicKey c KeyType.ml_dsa65 bytes k h e =
    let shape : PublicKey.ml_dsa65 bytes ≡ k = cc in subst (IsPublicKey c) shape h

-- the last step of `from_str`: the length, then the point
checked-IsPublicKey :
    (c : Crypto) (kt : KeyType) (bytes : Bytes) (k : PublicKey)
    → (if not (length bytes == public_key_len kt)
        then err (invalid_length (public_key_len kt) (length bytes))
        else build_public_key c kt bytes)
      ≡ ok k
    → IsPublicKey c k
checked-IsPublicKey c kt bytes k e =
    build_public_key-IsPublicKey c kt bytes k (ground arith) (ground arith)

-- Every public key that is parsed from text has the length of its type and lies on its curve.
pub public_key_from_str-IsPublicKey :
    (c : Crypto) (s : Bytes) {k : PublicKey} → public_key_from_str c s ≡ ok k → IsPublicKey c k
unfolding public_key_from_str
public_key_from_str-IsPublicKey c s {k} e =
    >>=-ensures (IsPublicKey c) (ok_or (split_once colon s) invalid_format) _
      (λ p split. >>=-ensures (IsPublicKey c) (public_key_prefix p.0) _ (λ kt known.
        >>=-ensures (IsPublicKey c) (map_err invalid_base58 (c.bs58_decode p.1)) _
          (λ decoded read key. checked-IsPublicKey c kt decoded key)))
      k e

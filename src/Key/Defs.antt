-- ===== src/Key/Defs.antt =====
-- The types of types/key.rs and their accessors. A fixed array is its bytes, and the predicates
-- `Is…` state the length of the array and what its constructors check.
use near_kit_rs.Prelude.{
  ℕ, ◌≡◌, Bool, true, ◌∷◌, Bytes, codes, length, Result, ok, err, to_string, ◌==◌, if◌then◌else◌,
}

-- ParseKeyError of error.rs.
pub data ParseKeyError : Type 0 where
  invalid_format : ParseKeyError
  unknown_key_type : Bytes → ParseKeyError
  invalid_base58 : Bytes → ParseKeyError
  invalid_length : (expected actual : ℕ) → ParseKeyError
  invalid_curve_point : ParseKeyError
  invalid_scalar : ParseKeyError
  ml_dsa65_hash_handle : ParseKeyError

abbrev pub ml_dsa_65_public_key_length : ℕ
ml_dsa_65_public_key_length = 1952

abbrev pub ml_dsa_65_signature_length : ℕ
ml_dsa_65_signature_length = 3309

abbrev pub ml_dsa_65_hash_length : ℕ
ml_dsa_65_hash_length = 32

pub data KeyType : Type 0 where
  ed25519 : KeyType
  secp256k1 : KeyType
  ml_dsa65 : KeyType

-- `self.key_type() as u8`
unfoldable pub discriminant : KeyType → ℕ
discriminant KeyType.ed25519 = 0
discriminant KeyType.secp256k1 = 1
discriminant KeyType.ml_dsa65 = 2

unfoldable pub as_str : KeyType → Bytes
as_str KeyType.ed25519 = codes "ed25519"
as_str KeyType.secp256k1 = codes "secp256k1"
as_str KeyType.ml_dsa65 = codes "ml-dsa-65"

unfoldable pub public_key_len : KeyType → ℕ
public_key_len KeyType.ed25519 = 32
public_key_len KeyType.secp256k1 = 64
public_key_len KeyType.ml_dsa65 = ml_dsa_65_public_key_length

unfoldable pub signature_len : KeyType → ℕ
signature_len KeyType.ed25519 = 64
signature_len KeyType.secp256k1 = 65
signature_len KeyType.ml_dsa65 = ml_dsa_65_signature_length

-- `KeyType::try_from(u8)`
unfoldable pub try_from : ℕ → Result ParseKeyError KeyType
try_from value =
    if value == 0
    then ok KeyType.ed25519
    else if value == 1
    then ok KeyType.secp256k1
    else if value == 2
    then ok KeyType.ml_dsa65
    else err (unknown_key_type (to_string value))

pub data PublicKey : Type 0 where
  ed25519 : Bytes → PublicKey
  secp256k1 : Bytes → PublicKey
  ml_dsa65 : Bytes → PublicKey

unfoldable pub key_type : PublicKey → KeyType
key_type (PublicKey.ed25519 _) = KeyType.ed25519
key_type (PublicKey.secp256k1 _) = KeyType.secp256k1
key_type (PublicKey.ml_dsa65 _) = KeyType.ml_dsa65

unfoldable pub as_bytes : PublicKey → Bytes
as_bytes (PublicKey.ed25519 bytes) = bytes
as_bytes (PublicKey.secp256k1 bytes) = bytes
as_bytes (PublicKey.ml_dsa65 bytes) = bytes

pub data Signature : Type 0 where
  ed25519 : Bytes → Signature
  secp256k1 : Bytes → Signature
  ml_dsa65 : Bytes → Signature

-- `Signature::key_type` and `Signature::as_bytes`
unfoldable pub signature_key_type : Signature → KeyType
signature_key_type (Signature.ed25519 _) = KeyType.ed25519
signature_key_type (Signature.secp256k1 _) = KeyType.secp256k1
signature_key_type (Signature.ml_dsa65 _) = KeyType.ml_dsa65

unfoldable pub signature_bytes : Signature → Bytes
signature_bytes (Signature.ed25519 bytes) = bytes
signature_bytes (Signature.secp256k1 bytes) = bytes
signature_bytes (Signature.ml_dsa65 bytes) = bytes

-- What the program takes from the crates `ed25519-dalek`, `k256`, `ml-dsa`, `sha2`, `sha3` and
-- `bs58`: whether bytes are a point, the digests, verification by each scheme, and base58.
pub record Crypto : Type 0 where
  pub is_ed25519_point : Bytes → Bool
  pub is_sec1_encoding : Bytes → Bool
  pub is_secp256k1_point : Bytes → Bool
  pub sha256 : Bytes → Bytes
  pub sha3_256 : Bytes → Bytes
  pub bs58_encode : Bytes → Bytes
  pub bs58_decode : Bytes → Result Bytes Bytes
  pub ed25519_verify_strict : (key message signature : Bytes) → Bool
  pub is_secp256k1_signature : Bytes → Bool
  pub secp256k1_verify_prehash : (key hash signature : Bytes) → Bool
  pub is_ml_dsa_signature : Bytes → Bool
  pub ml_dsa_verify : (key message signature : Bytes) → Bool

-- The documented behaviour of the digests and of base58.
pub record IsCrypto (c : Crypto) : Type 0 where
  pub length-sha256 : (m : Bytes) → length (c.sha256 m) ≡ 32
  pub length-sha3_256 : (m : Bytes) → length (c.sha3_256 m) ≡ 32
  pub bs58_round : (m : Bytes) → c.bs58_decode (c.bs58_encode m) ≡ ok m

-- The 65-byte SEC1 form: `0x04` and the 64 bytes that are stored.
abbrev pub uncompressed : Bytes → Bytes
uncompressed bytes = 4 ∷ bytes

-- Public keys that can be built or parsed: the length of the array, and a point on the curve.
abbrev pub IsPublicKey : Crypto → PublicKey → Type 0
IsPublicKey c (PublicKey.ed25519 bytes) = (length bytes ≡ 32) × (c.is_ed25519_point bytes ≡ true)
IsPublicKey c (PublicKey.secp256k1 bytes) =
    (length bytes ≡ 64)
    × (c.is_sec1_encoding (uncompressed bytes) ≡ true)
    × (c.is_secp256k1_point (uncompressed bytes) ≡ true)
IsPublicKey c (PublicKey.ml_dsa65 bytes) = length bytes ≡ ml_dsa_65_public_key_length

abbrev pub IsSignature : Signature → Type 0
IsSignature (Signature.ed25519 bytes) = length bytes ≡ 64
IsSignature (Signature.secp256k1 bytes) = length bytes ≡ 65
IsSignature (Signature.ml_dsa65 bytes) = length bytes ≡ ml_dsa_65_signature_length

-- ===== src/Key/Wire.antt =====
-- The borsh codecs of `PublicKey` and `Signature`: the key type as a byte, and the array.
use near_kit_rs.Prelude.{ℕ, ◌++◌, Bytes, ok, err, ◌>>=◌, map_err, if◌then◌else◌, arith}
use near_kit_rs.Borsh.{Io, invalid_data, Reader, Codec, RoundTrips, read_exact, Borsh, IsBorsh}
use near_kit_rs.Borsh.Laws.{read_exact-append}
use near_kit_rs.Key.Defs.{
  KeyType, PublicKey, Signature, Crypto, uncompressed, discriminant, try_from, key_type, as_bytes,
  signature_key_type, signature_bytes, ml_dsa_65_public_key_length, ml_dsa_65_signature_length,
  IsPublicKey, IsSignature,
}

-- the bytes behind the key type, checked
read_public_key : Crypto → KeyType → Reader PublicKey
read_public_key c KeyType.ed25519 r = do
  (bytes, r') ← read_exact 32 r
  if c.is_ed25519_point bytes then ok (PublicKey.ed25519 bytes, r') else err invalid_data
read_public_key c KeyType.secp256k1 r = do
  (bytes, r') ← read_exact 64 r
  if c.is_sec1_encoding (uncompressed bytes)
      then (if c.is_secp256k1_point (uncompressed bytes)
          then ok (PublicKey.secp256k1 bytes, r')
          else err invalid_data)
      else err invalid_data
read_public_key c KeyType.ml_dsa65 r = do
  (bytes, r') ← read_exact ml_dsa_65_public_key_length r
  ok (PublicKey.ml_dsa65 bytes, r')

read_signature : KeyType → Reader Signature
read_signature KeyType.ed25519 r = do
  (bytes, r') ← read_exact 64 r
  ok (Signature.ed25519 bytes, r')
read_signature KeyType.secp256k1 r = do
  (bytes, r') ← read_exact 65 r
  ok (Signature.secp256k1 bytes, r')
read_signature KeyType.ml_dsa65 r = do
  (bytes, r') ← read_exact ml_dsa_65_signature_length r
  ok (Signature.ml_dsa65 bytes, r')

-- `KeyType::try_from` on the byte that was read, its error as `InvalidData`
read_key_type : ℕ → Io KeyType
unfolding try_from
read_key_type t = map_err (λ e. invalid_data) (try_from t)

module _ (b : Borsh) where
  unfoldable pub serialize_public_key : PublicKey → Bytes
  unfolding discriminant key_type as_bytes
  serialize_public_key k = b.u8.put (discriminant (key_type k)) ++ as_bytes k

  unfoldable pub deserialize_public_key : Crypto → Reader PublicKey
  unfolding read_public_key read_key_type
  deserialize_public_key c r = do
    (t, r') ← b.u8.get r
    kt ← read_key_type t
    read_public_key c kt r'

  unfoldable pub serialize_signature : Signature → Bytes
  unfolding discriminant signature_key_type signature_bytes
  serialize_signature s = b.u8.put (discriminant (signature_key_type s)) ++ signature_bytes s

  unfoldable pub deserialize_signature : Reader Signature
  unfolding read_signature read_key_type
  deserialize_signature r = do (t, r') ← b.u8.get r; kt ← read_key_type t; read_signature kt r'

abbrev pub public_key : Borsh → Crypto → Codec PublicKey
public_key b c = record { put = serialize_public_key b; get = deserialize_public_key b c }

abbrev pub signature : Borsh → Codec Signature
signature b = record { put = serialize_signature b; get = deserialize_signature b }

-- Given the laws of the borsh codecs, every public key of the length of its type, and on its curve,
-- is read back from its bytes, whatever bytes follow.
pub public_key_round :
    (b : Borsh) (c : Crypto)
    → IsBorsh b
    → (k : PublicKey) → IsPublicKey c k
    → RoundTrips (public_key b c) k
unfolding serialize_public_key deserialize_public_key
public_key_round b c w (PublicKey.ed25519 bytes) (h, p) rest =
    rw (w.u8_put 0 (omega arith), w.u8_get 0 _, read_exact-append bytes rest 32 h, p)
public_key_round b c w (PublicKey.secp256k1 bytes) (h, p, q) rest =
    rw (w.u8_put 1 (omega arith), w.u8_get 1 _, read_exact-append bytes rest 64 h, p, q)
public_key_round b c w (PublicKey.ml_dsa65 bytes) h rest =
    rw (w.u8_put 2 (omega arith), w.u8_get 2 _, read_exact-append bytes rest _ h)

-- Given the laws of the borsh codecs, every signature of the right length is read back from its
-- bytes, whatever bytes follow.
pub signature_round :
    (b : Borsh) → IsBorsh b → (s : Signature) → IsSignature s → RoundTrips (signature b) s
unfolding serialize_signature deserialize_signature
signature_round b w (Signature.ed25519 bytes) h rest =
    rw (w.u8_put 0 (omega arith), w.u8_get 0 _, read_exact-append bytes rest 64 h)
signature_round b w (Signature.secp256k1 bytes) h rest =
    rw (w.u8_put 1 (omega arith), w.u8_get 1 _, read_exact-append bytes rest 65 h)
signature_round b w (Signature.ml_dsa65 bytes) h rest =
    rw (w.u8_put 2 (omega arith), w.u8_get 2 _, read_exact-append bytes rest _ h)

-- ===== src/Nep413/Text.antt =====
-- types/nep413.rs: `serialize_signature_base64` and `deserialize_signature_flexible`, without the
-- text of errors. The crate `base64` is a parameter.
use near_kit_rs.Prelude.{
  ◌≡◌, ◌≢◌, refl, false, Option, none, some, [], ◌∷◌, ◌++◌, Bytes, All, codes, length, ◌==◌,
  if◌then◌else◌, strip_prefix, Result, ok, err, Bool-cases, inl, inr, arith,
}
use near_kit_rs.Key.{Crypto, IsCrypto, Signature, signature_bytes}

pub record Base64 : Type 0 where
  pub encode : Bytes → Bytes
  pub decode : Bytes → Option Bytes

-- What is documented of the two alphabets: base64 has no colon, base58 has none either, and 64
-- bytes in base64 end in a padding that base58 lacks.
pub record IsBase64 (c : Crypto) (b : Base64) : Type 0 where
  pub round : (m : Bytes) → b.decode (b.encode m) ≡ some m
  pub no_colon : (front back : Bytes) → b.decode (front ++ b':' ∷ back) ≡ none
  pub base58_no_colon : (m : Bytes) → All (λ x. x ≢ b':') (c.bs58_encode m)
  pub base58_no_padding :
      (m n : Bytes) → b.decode (c.bs58_encode m) ≡ some n → (length n == 64) ≡ false

-- A prefix with a colon at its end is not one of a text without a colon.
no_prefix : (front s : Bytes) → All (λ x. x ≢ b':') s → strip_prefix (front ++ b':' ∷ []) s ≡ none
unfolding strip_prefix
no_prefix [] [] h = refl
no_prefix [] (c ∷ s) (h, hs) = let other : (b':' == c) ≡ false = ground arith in rw (other) refl
no_prefix (p ∷ front) [] h = refl
no_prefix (p ∷ front) (c ∷ s) (h, hs) = elim (Bool-cases (p == c)) [
  | inl y ↦ rw (y) (no_prefix front s hs)
  | inr n ↦ rw (n) refl
]

module _ (c : Crypto) (b : Base64) where
  unfoldable pub serialize_signature_base64 : Signature → Bytes
  unfolding signature_bytes
  serialize_signature_base64 signature = b.encode (signature_bytes signature)

  -- A signature of 64 bytes, or what is tried next.
  abbrev pub if_64 : Option Bytes → Option Signature → Option Signature
  if_64 none other = other
  if_64 (some bytes) other = if length bytes == 64 then some (Signature.ed25519 bytes) else other

  abbrev pub decoded : Result Bytes Bytes → Option Bytes
  decoded (err e) = none
  decoded (ok bytes) = some bytes

  unfoldable pub plain : Bytes → Option Signature
  plain s = if_64 (decoded (c.bs58_decode s)) none

  -- Behind `ed25519:` the base58 must be valid, or the text is refused.
  abbrev pub prefixed : Result Bytes Bytes → Option Signature → Option Signature
  prefixed (err e) other = none
  prefixed (ok bytes) other = if_64 (some bytes) other

  abbrev pub if_prefixed : Option Bytes → Option Signature → Option Signature
  if_prefixed none other = other
  if_prefixed (some data_text) other = prefixed (c.bs58_decode data_text) other

  unfoldable pub deserialize_signature_flexible : Bytes → Option Signature
  unfolding plain strip_prefix
  deserialize_signature_flexible s =
      if_64 (b.decode s) (if_prefixed (strip_prefix (codes "ed25519:") s) (plain s))

  if_64-other :
      (o : Option Bytes) (other : Option Signature)
      → ((n : Bytes) → o ≡ some n → (length n == 64) ≡ false)
      → if_64 o other ≡ other
  if_64-other none other h = refl
  if_64-other (some n) other h = rw (h n refl) refl

  behind_prefix :
      IsCrypto c
      → IsBase64 c b
      → (m : Bytes) → length m ≡ 64
      → deserialize_signature_flexible (codes "ed25519:" ++ c.bs58_encode m)
        ≡ some (Signature.ed25519 m)
  unfolding deserialize_signature_flexible strip_prefix
  behind_prefix w v m h =
      rw (v.no_colon (codes "ed25519") (c.bs58_encode m), w.bs58_round m, h) refl

  -- Given the laws of base58 and base64 (both read back what they write, neither has a colon, and
  -- base58 of a text is never the base64 of 64 bytes), an Ed25519 signature of 64 bytes is read
  -- back from its base64 form, from base58 behind `ed25519:`, and from plain base58.
  pub deserialize_signature_flexible-forms :
      IsCrypto c
      → IsBase64 c b
      → (m : Bytes) → length m ≡ 64
      → (deserialize_signature_flexible (serialize_signature_base64 (Signature.ed25519 m))
          ≡ some (Signature.ed25519 m))
        × (deserialize_signature_flexible (codes "ed25519:" ++ c.bs58_encode m)
            ≡ some (Signature.ed25519 m))
        × (deserialize_signature_flexible (c.bs58_encode m) ≡ some (Signature.ed25519 m))
  unfolding deserialize_signature_flexible serialize_signature_base64 signature_bytes plain
  deserialize_signature_flexible-forms w v m h = (
    rw (v.round m, h) refl,
    behind_prefix w v m h,
    rw
        (
          if_64-other (b.decode (c.bs58_encode m)) _ (v.base58_no_padding m),
          no_prefix (codes "ed25519") (c.bs58_encode m) (v.base58_no_colon m),
          w.bs58_round m,
          h,
        )
        refl,
  )

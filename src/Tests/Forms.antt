-- ===== src/Tests/Forms.antt =====
-- The forms of a signature, with toy alphabets: base58 adds 100 to each byte, and base64 does so
-- behind the byte of its padding.
use near_kit_rs.Prelude.{
  ℕ, ◌+◌, ◌-◌, ◌≡◌, ◌≢◌, refl, ap, sym, ◌∙◌, Bool, true, false, ◌&&◌, Bool-cases, inl, inr, Option,
  none, some, [], ◌∷◌, ◌++◌, Bytes, All, codes, length, leb, ◌==◌, if◌then◌else◌, ok, arith,
}
use near_kit_rs.Key.{Crypto, IsCrypto, Signature}
use near_kit_rs.Nep413.Text.{
  Base64, IsBase64, serialize_signature_base64, deserialize_signature_flexible,
  deserialize_signature_flexible-forms,
}
use near_kit_rs.Tests.Samples.{crypto, zeros}

abbrev up : Bytes → Bytes
up [] = []
up (x ∷ m) = (x + 100) ∷ up m

abbrev down : Bytes → Bytes
down [] = []
down (x ∷ m) = (x - 100) ∷ down m

down-up : (m : Bytes) → down (up m) ≡ m
down-up [] = refl
down-up (x ∷ m) =
    let same : x + 100 - 100 ≡ x = omega arith in ap (◌∷ down (up m)) same ∙ ap (x ∷◌) (down-up m)

all_high : Bytes → Bool
all_high [] = true
all_high (x ∷ m) = leb 100 x && all_high m

abbrev decode_after : ℕ → Bytes → Option Bytes
decode_after c s = if c == b'=' then (if all_high s then some (down s) else none) else none

abbrev decode : Bytes → Option Bytes
decode [] = none
decode (c ∷ s) = decode_after c s

abbrev toy_crypto : Crypto
toy_crypto = record crypto { bs58_encode = up; bs58_decode = λ m. ok (down m) }

abbrev toy_base64 : Base64
toy_base64 = record { encode = λ m. b'=' ∷ up m; decode = decode }

all_high-up : (m : Bytes) → all_high (up m) ≡ true
unfolding all_high
all_high-up [] = refl
all_high-up (x ∷ m) = ground (arith, all_high-up m)

colon_not_high : (front back : Bytes) → all_high (front ++ b':' ∷ back) ≡ false
unfolding all_high
colon_not_high [] back = refl
colon_not_high (x ∷ front) back = ground (arith, colon_not_high front back)

up_no_colon : (m : Bytes) → All (λ x. x ≢ b':') (up m)
up_no_colon [] = tt
up_no_colon (x ∷ m) = (λ e. omega arith, up_no_colon m)

toy-IsCrypto : IsCrypto toy_crypto
toy-IsCrypto = record {
  length-sha256 = λ _. refl;
  length-sha3_256 = λ _. refl;
  bs58_round = λ m. ap ok (down-up m);
}

no_colon : (front back : Bytes) → decode (front ++ b':' ∷ back) ≡ none
no_colon [] back = refl
no_colon (x ∷ front) back = elim (Bool-cases (x == b'=')) [
  | inl y ↦ rw (y, colon_not_high front back) refl
  | inr n ↦ rw (n) refl
]

not_decoded : (x : ℕ) (m : Bytes) → decode (up (x ∷ m)) ≡ none
not_decoded x m = let other : (x + 100 == b'=') ≡ false = ground arith in rw (other) refl

no_padding : (m n : Bytes) → decode (up m) ≡ some n → (length n == 64) ≡ false
no_padding [] n h = cc
no_padding (x ∷ m) n h = let nothing : none ≡ some n = sym (not_decoded x m) ∙ h in cc

toy-IsBase64 : IsBase64 toy_crypto toy_base64
toy-IsBase64 = record {
  round = λ m. rw (all_high-up m) (ap some (down-up m));
  no_colon = no_colon;
  base58_no_colon = up_no_colon;
  base58_no_padding = no_padding;
}

deserialize_signature_flexible-forms_example :
    (deserialize_signature_flexible toy_crypto toy_base64
        (serialize_signature_base64 toy_crypto toy_base64 (Signature.ed25519 (zeros 64)))
      ≡ some (Signature.ed25519 (zeros 64)))
    × (deserialize_signature_flexible toy_crypto toy_base64 (codes "ed25519:" ++ up (zeros 64))
        ≡ some (Signature.ed25519 (zeros 64)))
    × (deserialize_signature_flexible toy_crypto toy_base64 (up (zeros 64))
        ≡ some (Signature.ed25519 (zeros 64)))
deserialize_signature_flexible-forms_example =
    deserialize_signature_flexible-forms toy_crypto toy_base64 toy-IsCrypto toy-IsBase64 (zeros 64)
      refl

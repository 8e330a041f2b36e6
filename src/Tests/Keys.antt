-- ===== src/Tests/Keys.antt =====
-- Concrete keys, handles and signatures.
use near_kit_rs.Prelude.{true, arith, codes, ◌∷◌, ◌≡◌, refl, true, ok}
use near_kit_rs.Key.{IsPublicKey}
use near_kit_rs.Key.Text
use near_kit_rs.Key.Secret
use near_kit_rs.Key.Secret.{SecretSchemes, SecretKey, MlDsa65SecretKey}
use near_kit_rs.Key.Verify.{verify}
use near_kit_rs.Key.Sign.{Signing, IsSigning, secret_sign, from_secret_key, verify-secret_sign}
use near_kit_rs.Key.Path.{parse_hd_path}
use near_kit_rs.Key.PathLaws.{
  Component, component, apostrophe, letter, master, parse_hd_path-joined,
}
use mathlib.Core.List.{cons-ne-nil, []}
use near_kit_rs.Tests.Samples.{crypto, crypto-IsCrypto, key, zeros}

public_key_from_str-display_example :
    Text.public_key_from_str crypto (Text.public_key_display crypto key) ≡ ok key
public_key_from_str-display_example =
    Text.public_key_from_str-display crypto crypto-IsCrypto key (refl, refl)

public_key_from_str-IsPublicKey_example : IsPublicKey crypto key
public_key_from_str-IsPublicKey_example =
    Text.public_key_from_str-IsPublicKey crypto (Text.public_key_display crypto key)
      public_key_from_str-display_example

abbrev schemes : SecretSchemes
schemes = record {
  is_secp256k1_scalar = λ _. true;
  is_ml_dsa_expanded = λ _. true;
  ml_dsa_expand = λ _. zeros 4032;
}

secret_key_from_str-display_example :
    Secret.secret_key_from_str crypto schemes
      (Secret.secret_key_display crypto schemes (SecretKey.secp256k1 (zeros 32)))
    ≡ ok (SecretKey.secp256k1 (zeros 32))
secret_key_from_str-display_example =
    Secret.secret_key_from_str-display crypto schemes crypto-IsCrypto
      (SecretKey.secp256k1 (zeros 32)) (refl, refl)

abbrev purpose : Component
purpose = component (codes "44") apostrophe

abbrev coin : Component
coin = component (codes "397") letter

parse_hd_path-joined_example :
    parse_hd_path (codes "m/44'/397H/") ≡ ok (2147483692 ∷ 2147484045 ∷ [])
parse_hd_path-joined_example =
    parse_hd_path-joined master true purpose (coin ∷ []) (cons-ne-nil _ _, omega arith, omega arith)
      ((cons-ne-nil _ _, omega arith, omega arith), tt)

abbrev signers : Signing
signers = record {
  ed25519_public_key = λ _. zeros 32;
  ed25519_sign = λ _ _. zeros 64;
  secp256k1_public_key = λ _. zeros 64;
  secp256k1_sign_prehash = λ _ _. (zeros 64, 1);
  ml_dsa_public_key = λ _. zeros 1952;
  ml_dsa_sign = λ _ _. zeros 3309;
}

signers-IsSigning : IsSigning crypto schemes signers
signers-IsSigning = record {
  ed25519_point = λ _ _. refl;
  ed25519_verifies = λ _ _ _. refl;
  secp256k1_point = λ _ _. refl;
  secp256k1_signature = λ _ _ _. (refl, omega arith, refl);
  secp256k1_verifies = λ _ _ _. refl;
  ml_dsa_lengths = λ _ _ _. (refl, refl);
  ml_dsa_verifies = λ _ _ _. (refl, refl);
}

abbrev generated : SecretKey
generated = SecretKey.ml_dsa65 (MlDsa65SecretKey.expanded (zeros 4032))

verify-secret_sign_example :
    verify crypto
      (secret_sign crypto schemes signers generated (codes "hello"))
      (codes "hello")
      (from_secret_key crypto schemes signers generated).public_key
    ≡ true
verify-secret_sign_example =
    verify-secret_sign crypto schemes signers signers-IsSigning generated (codes "hello")
      (refl, refl) (zeros 32, refl, refl)

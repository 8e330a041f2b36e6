-- ===== src/Tests/Messages.antt =====
-- A concrete off-chain message.
use near_kit_rs.Prelude.{ℕ, ◌≡◌, refl, true, none, Result, ok, ◌↔◌, arith, Bytes}
use near_kit_rs.Borsh.Format.{format, format-IsBorsh}
use near_kit_rs.Key.{PublicKey}
use near_kit_rs.Key.Verify.{verify}
use near_kit_rs.Nep413.{
  SignedMessage, default_options, NonceValidation, AccessKeyPermissionView, verify_signature,
  verify_message, serialize_message, default_max_age,
}
use near_kit_rs.Nep413.Verify.{Fresh, verify_signature_iff, verify_message_iff}
use near_kit_rs.Nep413.Payload.{message_bytes-injective}
use near_kit_rs.Tests.Samples.{crypto, key, signature, alice, params}

abbrev signed : SignedMessage
signed = record { account_id = alice; public_key = key; signature = signature; state = none }

abbrev view : Bytes → PublicKey → Result ℕ AccessKeyPermissionView
view _ _ = ok AccessKeyPermissionView.full_access

verify_signature_iff_example :
    (verify_signature format crypto 1000 signed params (NonceValidation.timestamp default_max_age)
      ≡ true)
    ↔ (Fresh (NonceValidation.timestamp default_max_age) 1000 params.nonce
        × (verify crypto signature (serialize_message format crypto params) key ≡ true))
verify_signature_iff_example =
    verify_signature_iff format crypto 1000 signed params
      (NonceValidation.timestamp default_max_age)

verify_message_iff_example :
    (verify_message format crypto 1000 view signed params default_options ≡ ok true) ↔ (
      (verify_signature format crypto 1000 signed params (NonceValidation.timestamp default_max_age)
        ≡ true)
      × (true ≡ true → view alice key ≡ ok AccessKeyPermissionView.full_access))
verify_message_iff_example =
    verify_message_iff format crypto 1000 view signed params default_options

message_bytes-injective_example :
    (params.message ≡ params.message)
    × (params.nonce ≡ params.nonce)
    × (params.recipient ≡ params.recipient)
    × (params.callback_url ≡ params.callback_url)
message_bytes-injective_example =
    message_bytes-injective format crypto format-IsBorsh params params
      ((refl, omega arith), refl, (refl, omega arith), tt)
      ((refl, omega arith), refl, (refl, omega arith), tt) refl

-- ===== src/Tests/Wire.antt =====
-- The wire form of concrete actions and transactions.
use near_kit_rs.Prelude.{◌≡◌, ◌≢◌, refl, [], ◌∷◌, ◌++◌, ok, arith}
use near_kit_rs.Borsh.Format.{format, format-IsBorsh}
use near_kit_rs.Key.Wire
use near_kit_rs.Action.{Action, from_action}
use near_kit_rs.Action.Codec.{nested, action_at}
use near_kit_rs.Action.Delegate
use near_kit_rs.Action.FromAction.{or_invalid_input, from_action-get}
use near_kit_rs.Action.Reads.{HoldsPlainActions, action-get-HoldsPlainActions}
use near_kit_rs.Action.Round.{action_round}
use near_kit_rs.Transaction.{VersionedTransaction}
use near_kit_rs.Transaction.Codec
use near_kit_rs.Transaction.Signing.{signing_domains_disjoint}
use near_kit_rs.Transaction.Versions.{
  versioned_round, serialize_versioned-injective, signed_v1_from_bytes-signed_transaction,
}
use near_kit_rs.Nep413.{message_bytes}
use near_kit_rs.Tests.Samples.{
  crypto, key, signature, delegate, signed_delegate, payload, versioned_delegate, transaction,
  signed_delegate-IsSignedDelegate, transaction-IsTransaction, params,
}

public_key_round_example :
    (Wire.public_key format crypto).get ((Wire.public_key format crypto).put key ++ 9 ∷ [])
    ≡ ok (key, 9 ∷ [])
public_key_round_example =
    Wire.public_key_round format crypto format-IsBorsh key (refl, refl) (9 ∷ [])

action_round_example :
    (action_at format crypto 1).get
      ((action_at format crypto 1).put (Action.delegate signed_delegate) ++ 9 ∷ [])
    ≡ ok (Action.delegate signed_delegate, 9 ∷ [])
action_round_example =
    action_round format crypto format-IsBorsh 0 (Action.delegate signed_delegate)
      signed_delegate-IsSignedDelegate (9 ∷ [])

action-get-HoldsPlainActions_example : HoldsPlainActions format (Action.delegate signed_delegate)
action-get-HoldsPlainActions_example =
    action-get-HoldsPlainActions format crypto format-IsBorsh
      ((action_at format crypto 1).put (Action.delegate signed_delegate) ++ 9 ∷ [])
      (Action.delegate signed_delegate) (9 ∷ []) action_round_example

from_action-get_example :
    (nested format crypto 1).get
      ((action_at format crypto 1).put (Action.delegate signed_delegate) ++ 9 ∷ [])
    ≡ or_invalid_input format crypto (from_action format (Action.delegate signed_delegate)) (9 ∷ [])
from_action-get_example =
    from_action-get format crypto format-IsBorsh (Action.delegate signed_delegate) (9 ∷ [])
      signed_delegate-IsSignedDelegate

versioned_from_bytes-to_bytes_example :
    Delegate.versioned_from_bytes format crypto
      (Delegate.versioned_to_bytes format crypto versioned_delegate)
    ≡ ok versioned_delegate
versioned_from_bytes-to_bytes_example =
    Delegate.versioned_from_bytes-to_bytes format crypto format-IsBorsh versioned_delegate (
      (
        refl,
        refl,
        ((omega arith, tt), omega arith),
        (omega arith, omega arith),
        omega arith,
        (refl, refl),
      ),
      refl,
    )

versioned_round_example :
    (Codec.versioned_transaction format crypto).get (
      (Codec.versioned_transaction format crypto).put (VersionedTransaction.v0 transaction)
      ++ 9 ∷ [])
    ≡ ok (VersionedTransaction.v0 transaction, 9 ∷ [])
versioned_round_example =
    versioned_round format crypto format-IsBorsh (VersionedTransaction.v0 transaction)
      transaction-IsTransaction (9 ∷ [])

serialize_versioned-injective_example :
    VersionedTransaction.v0 transaction ≡ VersionedTransaction.v0 transaction
serialize_versioned-injective_example =
    serialize_versioned-injective format crypto format-IsBorsh (VersionedTransaction.v0 transaction)
      (VersionedTransaction.v0 transaction) transaction-IsTransaction transaction-IsTransaction refl

signed_v1_from_bytes-signed_transaction_example :
    Codec.signed_v1_from_bytes format crypto (
      (Codec.signed_transaction format crypto).put
        (record { transaction = transaction; signature = signature }))
    ≡ ok (record { transaction = VersionedTransaction.v0 transaction; signature = signature })
signed_v1_from_bytes-signed_transaction_example =
    signed_v1_from_bytes-signed_transaction format crypto format-IsBorsh
      (record { transaction = transaction; signature = signature }) transaction-IsTransaction refl

signing_domains_disjoint_example :
    (Codec.serialize_versioned format crypto (VersionedTransaction.v0 transaction)
      ≢ Delegate.serialize_for_signing format crypto delegate)
    × (Codec.serialize_versioned format crypto (VersionedTransaction.v0 transaction)
        ≢ Delegate.serialize_payload_for_signing format crypto payload)
    × (Codec.serialize_versioned format crypto (VersionedTransaction.v0 transaction)
        ≢ message_bytes format crypto params)
    × (Delegate.serialize_for_signing format crypto delegate
        ≢ Delegate.serialize_payload_for_signing format crypto payload)
    × (Delegate.serialize_for_signing format crypto delegate ≢ message_bytes format crypto params)
    × (Delegate.serialize_payload_for_signing format crypto payload
        ≢ message_bytes format crypto params)
signing_domains_disjoint_example =
    signing_domains_disjoint format crypto format-IsBorsh (VersionedTransaction.v0 transaction)
      delegate payload params transaction-IsTransaction

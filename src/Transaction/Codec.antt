-- ===== src/Transaction/Codec.antt =====
-- The borsh codecs of types/transaction.rs. A legacy transaction has no tag: the two first bytes
-- tell it from a tagged one, since they are the low half of the length of its signer's ID.
use near_kit_rs.Prelude.{ℕ, ◌∷◌, ◌++◌, Bytes, ok, err, ◌>>=◌, ◌==◌, if◌then◌else◌}
use near_kit_rs.Borsh.{
  Borsh, Codec, Reader, Io, ◌⊗◌, convert, vec, invalid_data, read_exact, from_slice,
}
use near_kit_rs.Key.{Crypto}
use near_kit_rs.Key.Wire.{public_key, signature}
use near_kit_rs.Action.Fields.{transaction_nonce}
use near_kit_rs.Action.Codec.{action}
use near_kit_rs.Transaction.Defs.{
  NonceMode, monotonic, strict, Transaction, SignedTransaction, TransactionV1, VersionedTransaction,
  v0, v1, SignedTransactionV1,
}

-- `CryptoHash`, an array of 32 bytes.
unfoldable pub crypto_hash : Codec Bytes
crypto_hash = record { put = λ bytes. bytes; get = read_exact 32 }

abbrev pub v1_tag : ℕ
v1_tag = 1

module _ (b : Borsh) where
  put_nonce_mode : NonceMode → Bytes
  put_nonce_mode monotonic = b.u8.put 0
  put_nonce_mode strict = b.u8.put 1

  unfoldable pub nonce_mode : Codec NonceMode
  unfolding put_nonce_mode
  nonce_mode = record {
    put = put_nonce_mode;
    get = λ r. (do
      (t, r') ← b.u8.get r
      if t == 0 then ok (monotonic, r') else if t == 1 then ok (strict, r') else err invalid_data);
  }

module _ (b : Borsh) (c : Crypto) where
  unfoldable pub transaction : Codec (Transaction b)
  transaction =
      convert
        (λ p. record {
          signer_id = p.0;
          public_key = p.1.0;
          nonce = p.1.1.0;
          receiver_id = p.1.1.1.0;
          block_hash = p.1.1.1.1.0;
          actions = p.1.1.1.1.1;
        })
        (λ t. (t.signer_id, (t.public_key, (t.nonce, (t.receiver_id, (t.block_hash, t.actions))))))
        (b.account_id ⊗ public_key b c ⊗ b.u64 ⊗ b.account_id ⊗ crypto_hash ⊗ vec b (action b c))

  unfoldable pub signed_transaction : Codec (SignedTransaction b)
  unfolding transaction
  signed_transaction =
      convert (λ p. record { transaction = p.0; signature = p.1 })
        (λ t. (t.transaction, t.signature)) (transaction ⊗ signature b)

  unfoldable pub transaction_v1 : Codec (TransactionV1 b)
  unfolding nonce_mode
  transaction_v1 =
      convert
        (λ p. record {
          signer_id = p.0;
          public_key = p.1.0;
          nonce = p.1.1.0;
          receiver_id = p.1.1.1.0;
          block_hash = p.1.1.1.1.0;
          actions = p.1.1.1.1.1.0;
          nonce_mode = p.1.1.1.1.1.1;
        })
        (λ t. (
          t.signer_id,
          (t.public_key, (t.nonce, (t.receiver_id, (t.block_hash, (t.actions, t.nonce_mode))))),
        ))
        (b.account_id
          ⊗ public_key b c
          ⊗ transaction_nonce b
          ⊗ b.account_id
          ⊗ crypto_hash
          ⊗ vec b (action b c)
          ⊗ nonce_mode b)

  -- `VersionedTransactionRef::serialize`
  unfoldable pub serialize_versioned : VersionedTransaction b → Bytes
  unfolding transaction transaction_v1
  serialize_versioned (v0 t) = transaction.put t
  serialize_versioned (v1 t) = b.u8.put v1_tag ++ transaction_v1.put t

  unfoldable pub deserialize_versioned : Reader (VersionedTransaction b)
  unfolding transaction transaction_v1
  deserialize_versioned reader = do
    (u1, reader') ← b.u8.get reader
    (u2, reader'') ← b.u8.get reader'
    if u2 == 0
        then (do (t, r) ← transaction.get (u1 ∷ u2 ∷ reader''); ok (v0 t, r))
        else if u1 == v1_tag
        then (do (t, r) ← transaction_v1.get (u2 ∷ reader''); ok (v1 t, r))
        else err invalid_data

  abbrev pub versioned_transaction : Codec (VersionedTransaction b)
  versioned_transaction = record { put = serialize_versioned; get = deserialize_versioned }

  unfoldable pub signed_transaction_v1 : Codec (SignedTransactionV1 b)
  unfolding serialize_versioned deserialize_versioned
  signed_transaction_v1 =
      convert (λ p. record { transaction = p.0; signature = p.1 })
        (λ t. (t.transaction, t.signature)) (versioned_transaction ⊗ signature b)

  -- `SignedTransaction::from_bytes` and `SignedTransactionV1::from_bytes`, the text of the error
  -- left out.
  unfoldable pub signed_from_bytes : Bytes → Io (SignedTransaction b)
  unfolding signed_transaction
  signed_from_bytes bytes = from_slice signed_transaction bytes

  unfoldable pub signed_v1_from_bytes : Bytes → Io (SignedTransactionV1 b)
  unfolding signed_transaction_v1
  signed_v1_from_bytes bytes = from_slice signed_transaction_v1 bytes

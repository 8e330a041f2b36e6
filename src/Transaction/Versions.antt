-- ===== src/Transaction/Versions.antt =====
-- The versions of a transaction: a legacy one and a tagged one never have the same bytes, and each
-- is read back as itself.
use near_kit_rs.Prelude.{
  ℕ, ◌≡◌, sym, ap, ◌∙◌, [], ◌∷◌, ◌++◌, append_assoc, Bytes, length, ok, false, arith, ◌≤◌, ◌==◌,
  ◌%◌, ◌/◌,
}
use near_kit_rs.Borsh.{Borsh, IsBorsh, RoundTrips, to_le_bytes}
use near_kit_rs.Borsh.Laws.{from_slice-put}
use near_kit_rs.Key.{Crypto, IsSignature}
use near_kit_rs.Key.Wire.{signature_round}
use near_kit_rs.Action.WellFormed.{IsAccountId}
use near_kit_rs.Transaction.Defs.{
  Transaction, SignedTransaction, TransactionV1, VersionedTransaction, v0, v1, SignedTransactionV1,
}
use near_kit_rs.Transaction.Codec
use near_kit_rs.Transaction.Round.{
  IsTransaction, IsTransactionV1, IsVersionedTransaction, transaction_round, transaction_v1_round,
}

module _ (b : Borsh) (c : Crypto) (w : IsBorsh b) where
  -- An account ID is written with its length first, which is less than 256.
  pub account_id_prefix :
      (a xs : Bytes)
      → IsAccountId b a
      → (n : ℕ) × (tail : Bytes) × (b.account_id.put a ++ xs ≡ n ∷ 0 ∷ 0 ∷ 0 ∷ tail)
        × (2 ≤ n)
        × (n ≤ 64)
  unfolding to_le_bytes
  account_id_prefix a xs h =
      let (low, high) = w.account_id_length a h in
      let n : ℕ = length a in
      let e0 : n % 256 ≡ n = omega arith in
      let e1 : n / 256 ≡ 0 = omega arith in
      (n, a ++ xs, rw (w.account_id_put a h, e0, e1), low, high)

  pub transaction_prefix :
      (t : Transaction b)
      → IsTransaction b c t
      → (n : ℕ) × (tail : Bytes) × ((Codec.transaction b c).put t ≡ n ∷ 0 ∷ 0 ∷ 0 ∷ tail)
        × (2 ≤ n)
        × (n ≤ 64)
  unfolding Codec.transaction
  transaction_prefix t (h, _, _, _, _, _, _) = account_id_prefix t.signer_id _ h

  transaction_v1_prefix :
      (t : TransactionV1 b)
      → IsTransactionV1 b c t
      → (n : ℕ) × (tail : Bytes) × ((Codec.transaction_v1 b c).put t ≡ n ∷ 0 ∷ 0 ∷ 0 ∷ tail)
        × (2 ≤ n)
        × (n ≤ 64)
  unfolding Codec.transaction_v1
  transaction_v1_prefix t (h, _, _, _, _, _, _) = account_id_prefix t.signer_id _ h

  -- Given the laws of the borsh codecs, a well-formed transaction of either version is read back
  -- from its bytes, whatever bytes follow.
  pub versioned_round :
      (t : VersionedTransaction b)
      → IsVersionedTransaction b c t
      → RoundTrips (Codec.versioned_transaction b c) t
  unfolding Codec.serialize_versioned Codec.deserialize_versioned
  versioned_round (v0 t) h rest =
      let (n, tail, e, _, _) = transaction_prefix t h in
      let back : (Codec.transaction b c).get (n ∷ 0 ∷ 0 ∷ 0 ∷ (tail ++ rest)) ≡ ok (t, rest) =
        ap (λ xs. (Codec.transaction b c).get (xs ++ rest)) (sym e)
        ∙ transaction_round b c w t h rest in
      rw (e, w.u8_get n, w.u8_get 0, back)
  versioned_round (v1 t) h rest =
      let (n, tail, e, low, _) = transaction_v1_prefix t h in
      let back : (Codec.transaction_v1 b c).get (n ∷ 0 ∷ 0 ∷ 0 ∷ (tail ++ rest)) ≡ ok (t, rest) =
        ap (λ xs. (Codec.transaction_v1 b c).get (xs ++ rest)) (sym e)
        ∙ transaction_v1_round b c w t h rest in
      let nonzero : (n == 0) ≡ false = ground arith in
      rw (append_assoc, w.u8_put 1 (omega arith), w.u8_get 1, e, w.u8_get n, nonzero, back)

  -- Given the laws of the borsh codecs, two well-formed transactions, of either version, with the
  -- same bytes are the same.
  pub serialize_versioned-injective :
      (t u : VersionedTransaction b)
      → IsVersionedTransaction b c t
      → IsVersionedTransaction b c u
      → Codec.serialize_versioned b c t ≡ Codec.serialize_versioned b c u
      → t ≡ u
  serialize_versioned-injective t u h k e =
      let first : Codec.deserialize_versioned b c (Codec.serialize_versioned b c u ++ [])
          ≡ ok (t, []) =
        ap (λ xs. Codec.deserialize_versioned b c (xs ++ [])) (sym e) ∙ versioned_round t h [] in
      let second = versioned_round u k [] in cc

  -- Every reader of a signed transaction of either version takes back what was written for it.
  pub signed_v1_round :
      (t : SignedTransactionV1 b)
      → IsVersionedTransaction b c t.transaction
      → IsSignature t.signature
      → RoundTrips (Codec.signed_transaction_v1 b c) t
  unfolding Codec.signed_transaction_v1
  signed_v1_round t h k rest =
      rw (append_assoc, versioned_round t.transaction h, signature_round b w t.signature k)

  -- Given the laws of the borsh codecs, the bytes of a legacy transaction, signed, both
  -- well-formed, are read by `SignedTransactionV1::from_bytes` as a transaction of version 0 with
  -- the same signature.
  pub signed_v1_from_bytes-signed_transaction :
      (t : SignedTransaction b)
      → IsTransaction b c t.transaction
      → IsSignature t.signature
      → Codec.signed_v1_from_bytes b c ((Codec.signed_transaction b c).put t)
        ≡ ok (record { transaction = v0 t.transaction; signature = t.signature })
  unfolding Codec.signed_v1_from_bytes Codec.signed_transaction Codec.signed_transaction_v1
      Codec.serialize_versioned
  signed_v1_from_bytes-signed_transaction t h k =
      from_slice-put (Codec.signed_transaction_v1 b c)
        (record { transaction = v0 t.transaction; signature = t.signature })
        (λ rest.
          signed_v1_round (record { transaction = v0 t.transaction; signature = t.signature }) h k
            rest)

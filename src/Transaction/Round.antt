-- ===== src/Transaction/Round.antt =====
-- Transactions are read back as written.
use near_kit_rs.Prelude.{◌≡◌, List, [], ◌∷◌, append_assoc, Bytes, All, length, arith, IsU64}
use near_kit_rs.Borsh.{Borsh, IsBorsh, RoundTrips, vec}
use near_kit_rs.Borsh.Laws.{read_exact-append}
use near_kit_rs.Key.{Crypto, IsPublicKey, IsSignature}
use near_kit_rs.Key.Wire.{public_key_round, signature_round}
use near_kit_rs.Action.{Action}
use near_kit_rs.Action.WellFormed.{IsAction, IsAccountId, IsTransactionNonce, IsShort}
use near_kit_rs.Action.FieldsRound.{transaction_nonce_round, bare_tag_round}
use near_kit_rs.Action.Codec.{action}
use near_kit_rs.Action.Round.{action_round}
use near_kit_rs.Transaction.Defs.{
  NonceMode, monotonic, strict, Transaction, SignedTransaction, TransactionV1, VersionedTransaction,
  v0, v1,
}
use near_kit_rs.Transaction.Codec

crypto_hash_round : (h : Bytes) → length h ≡ 32 → RoundTrips Codec.crypto_hash h
unfolding Codec.crypto_hash
crypto_hash_round h k rest = read_exact-append h rest 32 k

module _ (b : Borsh) (c : Crypto) where
  -- Transactions whose account IDs, keys, hash, numbers and lengths are in range.
  abbrev pub IsTransaction : Transaction b → Type 0
  IsTransaction t =
      IsAccountId b t.signer_id
      × IsPublicKey c t.public_key
      × IsU64 t.nonce
      × IsAccountId b t.receiver_id
      × (length t.block_hash ≡ 32)
      × All (IsAction b c) t.actions
      × IsShort t.actions

  abbrev pub IsTransactionV1 : TransactionV1 b → Type 0
  IsTransactionV1 t =
      IsAccountId b t.signer_id
      × IsPublicKey c t.public_key
      × IsTransactionNonce t.nonce
      × IsAccountId b t.receiver_id
      × (length t.block_hash ≡ 32)
      × All (IsAction b c) t.actions
      × IsShort t.actions

  abbrev pub IsVersionedTransaction : VersionedTransaction b → Type 0
  IsVersionedTransaction (v0 t) = IsTransaction t
  IsVersionedTransaction (v1 t) = IsTransactionV1 t

module _ (b : Borsh) (c : Crypto) (w : IsBorsh b) where
  actions_round :
      (xs : List (Action b))
      → All (IsAction b c) xs
      → IsShort xs
      → RoundTrips (vec b (action b c)) xs
  actions_round xs h k = w.vec_round (action b c) xs (all xs h) k
    where
      all : (xs : List (Action b)) → All (IsAction b c) xs → All (RoundTrips (action b c)) xs
      all [] h = tt
      all (x ∷ xs) (h, hs) = (action_round b c w 0 x h, all xs hs)

  nonce_mode_round : (m : NonceMode) → RoundTrips (Codec.nonce_mode b) m
  unfolding Codec.nonce_mode
  nonce_mode_round monotonic rest = rw (bare_tag_round b w 0 rest (omega arith))
  nonce_mode_round strict rest = rw (bare_tag_round b w 1 rest (omega arith))

  pub transaction_round :
      (t : Transaction b) → IsTransaction b c t → RoundTrips (Codec.transaction b c) t
  unfolding Codec.transaction
  transaction_round t (hs, hk, hn, hr, hh, ha, hl) rest = rw (
    append_assoc,
    w.account_id_round t.signer_id hs,
    append_assoc,
    public_key_round b c w t.public_key hk,
    append_assoc,
    w.u64_round t.nonce hn,
    append_assoc,
    w.account_id_round t.receiver_id hr,
    append_assoc,
    crypto_hash_round t.block_hash hh,
    actions_round t.actions ha hl,
  )

  pub transaction_v1_round :
      (t : TransactionV1 b) → IsTransactionV1 b c t → RoundTrips (Codec.transaction_v1 b c) t
  unfolding Codec.transaction_v1
  transaction_v1_round t (hs, hk, hn, hr, hh, ha, hl) rest = rw (
    append_assoc,
    w.account_id_round t.signer_id hs,
    append_assoc,
    public_key_round b c w t.public_key hk,
    append_assoc,
    transaction_nonce_round b w t.nonce hn,
    append_assoc,
    w.account_id_round t.receiver_id hr,
    append_assoc,
    crypto_hash_round t.block_hash hh,
    append_assoc,
    actions_round t.actions ha hl,
    nonce_mode_round t.nonce_mode,
  )

  pub signed_transaction_round :
      (t : SignedTransaction b)
      → IsTransaction b c t.transaction
      → IsSignature t.signature
      → RoundTrips (Codec.signed_transaction b c) t
  unfolding Codec.signed_transaction
  signed_transaction_round t h k rest =
      rw (append_assoc, transaction_round t.transaction h, signature_round b w t.signature k)

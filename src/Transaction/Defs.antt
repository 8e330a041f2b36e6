-- ===== src/Transaction/Defs.antt =====
-- The types of types/transaction.rs and their accessors.
use near_kit_rs.Prelude.{ℕ, Bool, true, false, Option, none, some, List, Bytes}
use near_kit_rs.Borsh.{Borsh}
use near_kit_rs.Key.{PublicKey, Signature}
use near_kit_rs.Action.{Action, AccountId, TransactionNonce, nonce, gas_key_nonce}

-- `from_nonce` and `from_nonce_and_index` are the constructors of `TransactionNonce`.
unfoldable pub nonce_of : TransactionNonce → ℕ
nonce_of (nonce n) = n
nonce_of (gas_key_nonce n _) = n

unfoldable pub nonce_index_of : TransactionNonce → Option ℕ
nonce_index_of (nonce _) = none
nonce_index_of (gas_key_nonce _ i) = some i

pub data NonceMode : Type 0 where
  monotonic strict : NonceMode

module _ (b : Borsh) where
  pub record Transaction : Type 0 where
    pub signer_id : AccountId
    pub public_key : PublicKey
    pub nonce : ℕ
    pub receiver_id : AccountId
    pub block_hash : Bytes
    pub actions : List (Action b)

  pub record SignedTransaction : Type 0 where
    pub transaction : Transaction
    pub signature : Signature

  pub record TransactionV1 : Type 0 where
    pub signer_id : AccountId
    pub public_key : PublicKey
    pub nonce : TransactionNonce
    pub receiver_id : AccountId
    pub block_hash : Bytes
    pub actions : List (Action b)
    pub nonce_mode : NonceMode

  pub data VersionedTransaction : Type 0 where
    v0 : Transaction → VersionedTransaction
    v1 : TransactionV1 → VersionedTransaction

  pub record SignedTransactionV1 : Type 0 where
    pub transaction : VersionedTransaction
    pub signature : Signature

  unfoldable pub into_v1 : Transaction → NonceMode → TransactionV1
  into_v1 t mode = record {
    signer_id = t.signer_id;
    public_key = t.public_key;
    nonce = nonce t.nonce;
    receiver_id = t.receiver_id;
    block_hash = t.block_hash;
    actions = t.actions;
    nonce_mode = mode;
  }

  unfoldable pub into_gas_key_v1 : Transaction → ℕ → NonceMode → TransactionV1
  unfolding into_v1
  into_gas_key_v1 t nonce_index mode =
      let base = into_v1 t mode in
      record {
        signer_id = base.signer_id;
        public_key = base.public_key;
        nonce = gas_key_nonce t.nonce nonce_index;
        receiver_id = base.receiver_id;
        block_hash = base.block_hash;
        actions = base.actions;
        nonce_mode = base.nonce_mode;
      }

  -- The accessors of `VersionedTransaction`.
  unfoldable pub signer_id : VersionedTransaction → AccountId
  signer_id (v0 t) = t.signer_id
  signer_id (v1 t) = t.signer_id

  unfoldable pub receiver_id : VersionedTransaction → AccountId
  receiver_id (v0 t) = t.receiver_id
  receiver_id (v1 t) = t.receiver_id

  unfoldable pub public_key_of : VersionedTransaction → PublicKey
  public_key_of (v0 t) = t.public_key
  public_key_of (v1 t) = t.public_key

  unfoldable pub transaction_nonce_of : VersionedTransaction → TransactionNonce
  transaction_nonce_of (v0 t) = nonce t.nonce
  transaction_nonce_of (v1 t) = t.nonce

  unfoldable pub nonce_mode_of : VersionedTransaction → NonceMode
  nonce_mode_of (v0 t) = NonceMode.monotonic
  nonce_mode_of (v1 t) = t.nonce_mode

  unfoldable pub actions_of : VersionedTransaction → List (Action b)
  actions_of (v0 t) = t.actions
  actions_of (v1 t) = t.actions

  unfoldable pub block_hash_of : VersionedTransaction → Bytes
  block_hash_of (v0 t) = t.block_hash
  block_hash_of (v1 t) = t.block_hash

  unfoldable pub gas_keys_required : VersionedTransaction → Bool
  gas_keys_required (v0 t) = false
  gas_keys_required (v1 t) = true

-- ===== src/Client/Errors.antt =====
-- `RpcError` of error.rs and `InvalidTxError` of types/error.rs, and which of them are worth a retry.
-- `J` stands for the values of types that are not modelled: JSON values, the errors of `reqwest` and
-- `serde_json`, and the nested error enums of types/error.rs.
use near_kit_rs.Prelude.{
  ℕ, ◌≤◌, ◌<◌, ◌≡◌, refl, Bool, true, false, ◌&&◌, ◌||◌, Option, some, Bytes, ltb, leb, ◌==◌,
  if◌then◌else◌, arith, codes, to_string, ◌++◌,
}
use near_kit_rs.Key.{PublicKey}

-- A signed integer: `pos n` is n and `negsuc n` is -(n + 1).
pub data ℤ : Type 0 where
  pos negsuc : ℕ → ℤ

is_code : ℤ → ℕ → Bool
is_code (pos _) n = false
is_code (negsuc m) n = m == n

module _ (J : Type 0) where
  pub data InvalidTxError : Type 0 where
    invalid_access_key_error : J → InvalidTxError
    invalid_signer_id : (signer_id : Bytes) → InvalidTxError
    signer_does_not_exist : (signer_id : Bytes) → InvalidTxError
    invalid_nonce : (ak_nonce tx_nonce : ℕ) → InvalidTxError
    nonce_too_large : (tx_nonce upper_bound : ℕ) → InvalidTxError
    invalid_receiver_id : (receiver_id : Bytes) → InvalidTxError
    invalid_signature : InvalidTxError
    not_enough_balance : (balance cost : ℕ) (signer_id : Bytes) → InvalidTxError
    lack_balance_for_state : (amount : ℕ) (signer_id : Bytes) → InvalidTxError
    cost_overflow : InvalidTxError
    invalid_chain : InvalidTxError
    expired : InvalidTxError
    actions_validation : J → InvalidTxError
    transaction_size_exceeded : (limit size : ℕ) → InvalidTxError
    invalid_transaction_version : InvalidTxError
    storage_error : J → InvalidTxError
    shard_congested : (congestion_level : J) (shard_id : ℕ) → InvalidTxError
    shard_stuck : (missed_chunks shard_id : ℕ) → InvalidTxError
    invalid_nonce_index : (num_nonces : ℕ) (tx_nonce_index : Option ℕ) → InvalidTxError
    not_enough_gas_key_balance : (balance cost : ℕ) (signer_id : Bytes) → InvalidTxError
    not_enough_balance_for_deposit :
        (balance cost : ℕ) (reason : J) (signer_id : Bytes) → InvalidTxError
    unknown : J → InvalidTxError

  -- `InvalidTxError::is_retryable`
  unfoldable pub is_retryable_tx : InvalidTxError → Bool
  is_retryable_tx (invalid_nonce _ _) = true
  is_retryable_tx (shard_congested _ _) = true
  is_retryable_tx (shard_stuck _ _) = true
  is_retryable_tx _ = false

  -- The block that an answer was computed for.
  abbrev pub Context : Type 0
  Context = Option ℕ × Option Bytes

  pub data RpcError : Type 0 where
    http : (is_timeout is_connect : Bool) → J → RpcError
    network : (message : Bytes) (status_code : Option ℕ) (retryable : Bool) → RpcError
    timeout : ℕ → RpcError
    json : J → RpcError
    invalid_response : Bytes → RpcError
    rpc : (code : ℤ) (message : Bytes) (data_ : Option J) → RpcError
    account_not_found : (account_id : Bytes) → Context → RpcError
    invalid_account : (account_id : Bytes) → Context → RpcError
    access_key_not_found : (account_id : Bytes) (public_key : PublicKey) → Context → RpcError
    gas_key_not_found : (account_id : Bytes) (public_key : PublicKey) → Context → RpcError
    contract_not_deployed : (account_id : Bytes) → Context → RpcError
    contract_state_too_large : (account_id : Bytes) → Context → RpcError
    global_contract_not_found : (identifier : J) → Context → RpcError
    contract_execution :
        (contract_id : Bytes) (method_name : Option Bytes) (message : Bytes) → Context → RpcError
    method_not_found : (contract_id method_name : Bytes) → Context → RpcError
    contract_panic : (message : Bytes) → Context → RpcError
    unknown_block : Bytes → RpcError
    unknown_chunk : Bytes → RpcError
    unknown_epoch : Bytes → RpcError
    invalid_shard_id : Bytes → RpcError
    unknown_receipt : Bytes → RpcError
    invalid_tx : InvalidTxError → RpcError
    invalid_transaction : (message : Bytes) (details : Option J) → RpcError
    shard_unavailable : Bytes → RpcError
    node_not_synced : Bytes → RpcError
    internal_error : Bytes → RpcError
    parse_error : Bytes → RpcError
    request_timeout : (message : Bytes) (transaction_hash : Option Bytes) → RpcError
    too_many_access_keys : (account_id : Bytes) (limit : ℕ) → Context → RpcError

  -- `RpcError::is_retryable`; an error of `reqwest` holds its `is_timeout()` and `is_connect()`.
  unfoldable pub is_retryable : RpcError → Bool
  unfolding is_retryable_tx is_code
  is_retryable (http is_timeout is_connect _) = is_timeout || is_connect
  is_retryable (timeout _) = true
  is_retryable (network _ _ retryable) = retryable
  is_retryable (shard_unavailable _) = true
  is_retryable (node_not_synced _) = true
  is_retryable (internal_error _) = true
  is_retryable (request_timeout _ _) = true
  is_retryable (invalid_tx (invalid_nonce _ _)) = false
  is_retryable (invalid_tx e) = is_retryable_tx e
  is_retryable (rpc code _ _) = is_code code 31999 || is_code code 32602
  is_retryable _ = false

  abbrev pub http_text : ℕ → Bytes → Bytes
  http_text status body = codes "HTTP " ++ to_string status ++ codes ": " ++ body

  -- `is_retryable_status` and `preserve_http_retry_classification` of client/rpc.rs.
  abbrev pub is_retryable_status : ℕ → Bool
  is_retryable_status status =
      status == 408 || status == 429 || status == 503 || (leb 500 status && ltb status 600)

  unfoldable pub preserve_http_retry_classification : RpcError → (status : ℕ) → Bytes → RpcError
  preserve_http_retry_classification (rpc code message data_) status body =
      if leb 400 status && ltb status 500
      then network (http_text status body) (some status) false
      else rpc code message data_
  preserve_http_retry_classification other status body = other

  not_retried :
      (t : Bool) (e d : RpcError)
      → is_retryable e ≡ false
      → t ≡ true
      → ¬ (is_retryable (if t then e else d) ≡ true)
  not_retried true e d h y k = cc
  not_retried false e d h y k = cc

  -- Under a client-error status, 400 to 499, an error that is retryable after
  -- `preserve_http_retry_classification` was left unchanged by it.
  pub preserve-is_retryable :
      (e : RpcError) (status : ℕ) (body : Bytes)
      → 400 ≤ status
      → status < 500
      → (is_retryable (preserve_http_retry_classification e status body) ≡ true)
      → preserve_http_retry_classification e status body ≡ e
  unfolding preserve_http_retry_classification is_retryable
  preserve-is_retryable (rpc code message d) status body low high h = absurd (
      not_retried _ (network (http_text status body) (some status) false) (rpc code message d) refl
        (ground arith) h)
  preserve-is_retryable e status body low high h = refl

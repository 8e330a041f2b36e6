-- ===== src/Rpc/Causes.antt =====
-- client/rpc.rs: `parse_rpc_error` and `parse_error_block_context`; `RpcError::invalid_transaction`
-- of error.rs; and `CryptoHash::from_str` of types/hash.rs.
use near_kit_rs.Prelude.{
  ℕ, Bool, true, ◌&&◌, Option, none, some, List, [], ◌∷◌, Bytes, Result, ok, err, codes, length,
  ◌==◌, if◌then◌else◌, bytes_eq, ◌>>?◌,
}
use near_kit_rs.Key.{Crypto}
use near_kit_rs.Client.Errors.{ℤ, InvalidTxError, RpcError}
use near_kit_rs.Rpc.Panics.{FunctionCallError, unknown, unwrap_or}

-- What the program takes from `serde_json` and from the derived readers of its own types.
pub record Json (J : Type 0) : Type 0 where
  pub get : J → Bytes → Option J
  pub as_str : J → Option Bytes
  pub as_u64 : J → Option ℕ
  pub is_object : J → Bool
  pub print : J → Bytes
  pub read_function_call_error : J → Option (FunctionCallError J)
  pub read_invalid_tx_error : J → Option (InvalidTxError J)
  -- `GlobalContractIdentifierView`, and its variant `AccountId`.
  pub read_identifier : J → Option J
  pub account_identifier : Bytes → J
  -- `Display` of `FunctionCallError`
  pub print_function_call_error : FunctionCallError J → Bytes

pub record ErrorCause (J : Type 0) : Type 0 where
  pub name : Bytes
  pub info : Option J

pub record JsonRpcError (J : Type 0) : Type 0 where
  pub code : ℤ
  pub message : Bytes
  pub data_ : Option J
  pub cause : Option (ErrorCause J)

-- The names of causes that `parse_rpc_error` tells apart.
pub data Cause : Type 0 where
  unknown_account invalid_account unknown_access_key unknown_gas_key unknown_block : Cause
  garbage_collected_block unknown_chunk unknown_epoch unknown_receipt no_contract_code : Cause
  no_global_contract_code too_large_contract_state contract_execution_error : Cause
  unavailable_shard not_synced invalid_shard_id invalid_transaction timeout_error : Cause
  parse_error internal_error too_many_access_keys other_cause : Cause

abbrev pub names : List (Bytes × Cause)
names =
    (codes "UNKNOWN_ACCOUNT", unknown_account)
    ∷ (codes "INVALID_ACCOUNT", invalid_account)
    ∷ (codes "UNKNOWN_ACCESS_KEY", unknown_access_key)
    ∷ (codes "UNKNOWN_GAS_KEY", unknown_gas_key)
    ∷ (codes "UNKNOWN_BLOCK", unknown_block)
    ∷ (codes "GARBAGE_COLLECTED_BLOCK", garbage_collected_block)
    ∷ (codes "UNKNOWN_CHUNK", unknown_chunk)
    ∷ (codes "UNKNOWN_EPOCH", unknown_epoch)
    ∷ (codes "UNKNOWN_RECEIPT", unknown_receipt)
    ∷ (codes "NO_CONTRACT_CODE", no_contract_code)
    ∷ (codes "NO_GLOBAL_CONTRACT_CODE", no_global_contract_code)
    ∷ (codes "TOO_LARGE_CONTRACT_STATE", too_large_contract_state)
    ∷ (codes "CONTRACT_EXECUTION_ERROR", contract_execution_error)
    ∷ (codes "UNAVAILABLE_SHARD", unavailable_shard)
    ∷ (codes "NO_SYNCED_BLOCKS", not_synced)
    ∷ (codes "NOT_SYNCED_YET", not_synced)
    ∷ (codes "INVALID_SHARD_ID", invalid_shard_id)
    ∷ (codes "INVALID_TRANSACTION", invalid_transaction)
    ∷ (codes "TIMEOUT_ERROR", timeout_error)
    ∷ (codes "PARSE_ERROR", parse_error)
    ∷ (codes "INTERNAL_ERROR", internal_error)
    ∷ (codes "TOO_MANY_ACCESS_KEYS", too_many_access_keys)
    ∷ []

unfoldable pub cause_in : List (Bytes × Cause) → (name : Bytes) → Cause
unfolding bytes_eq
cause_in [] name = other_cause
cause_in ((known, cause) ∷ rest) name =
    let later = cause_in rest name in if bytes_eq name known then cause else later

unfoldable pub cause_of : (name : Bytes) → Cause
unfolding cause_in
cause_of name = cause_in names name

-- `or_else`, and `ok`.
abbrev pub or_else {ℓ} : {A : Type ℓ} → Option A → Option A → Option A
or_else none other = other
or_else (some a) other = some a

abbrev pub ok? : {E A : Type 0} → Result E A → Option A
ok? (err e) = none
ok? (ok a) = some a

abbrev pub if_len_32 : Bytes → Option Bytes
if_len_32 bytes = if length bytes == 32 then some bytes else none

-- `CryptoHash::from_str`, without the text of its errors.
unfoldable pub parse_hash : Crypto → Bytes → Option Bytes
parse_hash c s = ok? (c.bs58_decode s) >>? if_len_32

unfoldable pub is_zero : Bytes → Bool
is_zero [] = true
is_zero (x ∷ hash) = x == 0 && is_zero hash

module _ (J : Type 0) (json : Json J) where
  abbrev pub field : Bytes → J → Option J
  field name value = json.get value name

  -- `info.and_then(|i| i.get(…)).and_then(|a| a.as_str())`
  abbrev pub text_field : Bytes → Option J → Option Bytes
  text_field name info = (info >>? field name) >>? json.as_str

  abbrev pub data_text : JsonRpcError J → Option Bytes
  data_text error = error.data_ >>? json.as_str

  unfoldable pub try_parse_invalid_tx : J → Option (InvalidTxError J)
  try_parse_invalid_tx data_value =
      or_else
        (field (codes "TxExecutionError") data_value
          >>? field (codes "InvalidTxError")
          >>? json.read_invalid_tx_error)
        (field (codes "InvalidTxError") data_value >>? json.read_invalid_tx_error)

  abbrev pub of_invalid_tx : Bytes → Option J → Option (InvalidTxError J) → RpcError J
  of_invalid_tx message details none = RpcError.invalid_transaction message details
  of_invalid_tx message details (some e) = RpcError.invalid_tx e

  -- `RpcError::invalid_transaction`
  unfoldable pub invalid_transaction_error : (message : Bytes) (details : Option J) → RpcError J
  unfolding try_parse_invalid_tx
  invalid_transaction_error message details =
      of_invalid_tx message details (details >>? try_parse_invalid_tx)

  abbrev pub known : FunctionCallError J → Option (FunctionCallError J)
  known (unknown _) = none
  known e = some e

  -- One of the two keys: a structured error that is known.
  abbrev pub structured : (value : J) → Option (FunctionCallError J)
  structured value =
      if json.is_object value
      then json.read_function_call_error (unwrap_or (field (codes "FunctionCallError") value) value)
        >>? known
      else none

  unfoldable pub parse_function_call_error : (info : Option J) → Option (FunctionCallError J)
  parse_function_call_error info =
      or_else (info >>? field (codes "vm_error") >>? structured)
        (info >>? field (codes "error") >>? structured)

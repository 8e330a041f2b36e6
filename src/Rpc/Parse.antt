-- ===== src/Rpc/Parse.antt =====
-- client/rpc.rs: `parse_error_block_context` and `parse_rpc_error`. Whitespace is that of ASCII.
use near_kit_rs.Prelude.{
  ℕ, Bool, true, false, Option, none, some, [], ◌∷◌, ◌++◌, ◌^◌, Bytes, codes, ltb, if◌then◌else◌,
  to_string, strip_prefix, ◌>>?◌,
}
use near_kit_rs.Key.{Crypto, PublicKey}
use near_kit_rs.Key.Text.{public_key_from_str}
use near_kit_rs.Amount.Padding.{is_whitespace, trim_start_matches}
use near_kit_rs.Client.Errors.{RpcError, Context}
use near_kit_rs.Rpc.Panics.{
  classify_function_call_error, classify_legacy_function_call_error, after_first, unwrap_or,
  unknown_name, trim_start, parse_account_id,
}
use near_kit_rs.Rpc.Causes.{
  Json, ErrorCause, JsonRpcError, Cause, cause_of, or_else, ok?, parse_hash, is_zero, field,
  text_field, data_text, invalid_transaction_error, parse_function_call_error, unknown_account,
  invalid_account, unknown_access_key, unknown_gas_key, unknown_block, garbage_collected_block,
  unknown_chunk, unknown_epoch, unknown_receipt, no_contract_code, no_global_contract_code,
  too_large_contract_state, contract_execution_error, unavailable_shard, not_synced,
  invalid_shard_id, invalid_transaction, timeout_error, parse_error, internal_error,
  too_many_access_keys, other_cause,
}

-- `split_whitespace().next()`
abbrev pub word : Bytes → Bytes
word [] = []
word (c ∷ s) = let rest = word s in if is_whitespace c then [] else c ∷ rest

abbrev pub some_word : Bytes → Option Bytes
some_word [] = none
some_word (c ∷ s) = some (c ∷ s)

unfoldable pub first_word : Bytes → Option Bytes
unfolding trim_start_matches
first_word s = some_word (word (trim_start s))

abbrev pub is_some {ℓ} : {A : Type ℓ} → Option A → Bool
is_some none = false
is_some (some a) = true

module _ (c : Crypto) (J : Type 0) (json : Json J) (is_account_id : Bytes → Bool) where
  -- `parse_error_block_context`
  unfoldable pub parse_error_block_context : (info : Option J) → Context J
  unfolding parse_hash
  parse_error_block_context info = (
    info >>? field J json (codes "block_height") >>? json.as_u64,
    text_field J json (codes "block_hash") info >>? parse_hash c,
  )

  abbrev pub account_field : Bytes → Option J → Option Bytes
  account_field name info = text_field J json name info >>? parse_account_id J is_account_id

  abbrev pub or_unknown : Option Bytes → Bytes
  or_unknown s = unwrap_or s unknown_name

  -- `requested_account_id`
  abbrev pub requested : Option J → Option Bytes
  requested info = account_field (codes "requested_account_id") info

  abbrev pub public_key_field : Option J → Option PublicKey
  unfolding public_key_from_str
  public_key_field info =
      text_field J json (codes "public_key") info >>? λ k. ok? (public_key_from_str c k)

  -- The account of a contract, under one of three keys.
  abbrev pub contract_field : Option J → Option Bytes
  contract_field info =
      (info >>? λ i.
      or_else (field J json (codes "contract_account_id") i)
        (or_else (field J json (codes "account_id") i) (field J json (codes "contract_id") i)))
      >>? json.as_str

  abbrev pub data_or_message : JsonRpcError J → Bytes
  data_or_message error = unwrap_or (data_text J json error) error.message

  -- `#{height} ({hash})` or `#{height}`
  abbrev pub at_height : ℕ → Option Bytes → Bytes
  at_height height none = b'#' ∷ to_string height
  at_height height (some hash) =
      if is_zero hash
      then b'#' ∷ to_string height
      else b'#' ∷ to_string height ++ codes " (" ++ c.bs58_encode hash ++ codes ")"

  unfoldable pub block_ref : JsonRpcError J → Context J → Bytes
  unfolding is_zero to_string
  block_ref error (none, _) = data_or_message error
  block_ref error (some height, hash) = at_height height hash

  -- The contract that failed, or `unknown`.
  abbrev pub failed_contract : Option J → Bytes
  failed_contract info = or_unknown (account_field (codes "contract_id") info)

  abbrev pub failed_method : Option J → Option Bytes
  failed_method info = text_field J json (codes "method_name") info

  unfoldable pub execution_message : JsonRpcError J → Option J → Bytes
  unfolding parse_function_call_error
  execution_message error info =
      unwrap_or
        (or_else (data_text J json error) (
          or_else
            (parse_function_call_error J json info >>? λ e. some (json.print_function_call_error e))
            (info >>? field J json (codes "vm_error") >>? λ v. some (json.print v))))
        error.message

  -- The typed error, from the structured form first, then from the text in `data`, then from the
  -- text in `vm_error`.
  unfoldable pub classified : JsonRpcError J → Option J → Context J → Option (RpcError J)
  unfolding classify_function_call_error classify_legacy_function_call_error
      parse_function_call_error
  classified error info block =
      or_else
        (parse_function_call_error J json info
          >>? classify_function_call_error J is_account_id (failed_contract info)
              (failed_method info) block)
        (or_else
          (data_text J json error
            >>? classify_legacy_function_call_error J is_account_id (failed_contract info)
                (failed_method info) block)
          (text_field J json (codes "vm_error") info
            >>? classify_legacy_function_call_error J is_account_id (failed_contract info)
                (failed_method info) block))

  -- `CONTRACT_EXECUTION_ERROR`
  unfoldable pub execution_failed : JsonRpcError J → Option J → Context J → RpcError J
  unfolding classified execution_message
  execution_failed error info block = unwrap_or (classified error info block) (
      RpcError.contract_execution (failed_contract info) (failed_method info)
        (execution_message error info) block)

  abbrev pub u32_field : Bytes → Option J → Option ℕ
  u32_field name info =
      (info >>? field J json name >>? json.as_u64) >>? λ n. if ltb n (2 ^ 32) then some n else none

  -- The `match` on the name of the cause; `none` falls through.
  unfoldable pub of_cause :
      Cause → JsonRpcError J → (info : Option J) → Context J → Option (RpcError J)
  unfolding block_ref execution_failed invalid_transaction_error
  of_cause unknown_account error info block =
      requested info >>? λ account_id. some (RpcError.account_not_found account_id block)
  of_cause invalid_account error info block = some (
      RpcError.invalid_account (or_unknown (text_field J json (codes "requested_account_id") info))
        block)
  of_cause unknown_access_key error info block = public_key_field info >>? λ public_key.
      some (RpcError.access_key_not_found (or_unknown (requested info)) public_key block)
  of_cause unknown_gas_key error info block = public_key_field info >>? λ public_key.
      some (RpcError.gas_key_not_found (or_unknown (requested info)) public_key block)
  of_cause unknown_block error info block = some (RpcError.unknown_block (data_or_message error))
  of_cause garbage_collected_block error info block =
      some (RpcError.unknown_block (block_ref error block))
  of_cause unknown_chunk error info block = some (
      RpcError.unknown_chunk
        (unwrap_or (text_field J json (codes "chunk_hash") info) error.message))
  of_cause unknown_epoch error info block = some (RpcError.unknown_epoch (data_or_message error))
  of_cause unknown_receipt error info block =
      some (RpcError.unknown_receipt (or_unknown (text_field J json (codes "receipt_id") info)))
  of_cause no_contract_code error info block =
      parse_account_id J is_account_id (or_unknown (contract_field info)) >>? λ account_id.
      some (RpcError.contract_not_deployed account_id block)
  of_cause no_global_contract_code error info block = some (
      RpcError.global_contract_not_found
        (unwrap_or (info >>? field J json (codes "identifier") >>? json.read_identifier)
          (json.account_identifier unknown_name))
        block)
  of_cause too_large_contract_state error info block =
      (contract_field info >>? parse_account_id J is_account_id) >>? λ account_id.
      some (RpcError.contract_state_too_large account_id block)
  of_cause contract_execution_error error info block = some (execution_failed error info block)
  of_cause unavailable_shard error info block = some (RpcError.shard_unavailable error.message)
  of_cause not_synced error info block = some (RpcError.node_not_synced error.message)
  of_cause invalid_shard_id error info block = some (
      RpcError.invalid_shard_id
        (or_unknown (info >>? field J json (codes "shard_id") >>? λ s. some (json.print s))))
  of_cause invalid_transaction error info block =
      some (invalid_transaction_error J json error.message error.data_)
  of_cause timeout_error error info block =
      some
        (RpcError.request_timeout error.message (text_field J json (codes "transaction_hash") info))
  of_cause parse_error error info block = some (RpcError.parse_error error.message)
  of_cause internal_error error info block = some (RpcError.internal_error error.message)
  of_cause too_many_access_keys error info block = requested info >>? λ account_id.
      u32_field (codes "limit") info >>? λ limit.
      some (RpcError.too_many_access_keys account_id limit block)
  of_cause other_cause error info block = none

  -- What the cause says, where the error has one.
  abbrev pub by_cause : JsonRpcError J → Option (ErrorCause J) → Option (RpcError J)
  by_cause error none = none
  by_cause error (some cause) =
      of_cause (cause_of cause.name) error cause.info (parse_error_block_context cause.info)

  -- `account X does not exist while viewing`
  abbrev pub missing_account : Bytes → Option Bytes
  missing_account text =
      if is_some (after_first (codes "does not exist") text)
      then strip_prefix (codes "account ") text >>? first_word >>? parse_account_id J is_account_id
      else none

  unfoldable pub by_text : JsonRpcError J → Option (RpcError J)
  unfolding after_first strip_prefix first_word
  by_text error = (data_text J json error >>? missing_account) >>? λ account_id.
      some (RpcError.account_not_found account_id (none, none))

  unfoldable pub parse_rpc_error : JsonRpcError J → RpcError J
  unfolding of_cause parse_error_block_context by_text cause_of
  parse_rpc_error error =
      unwrap_or (or_else (by_cause error error.cause) (by_text error))
        (RpcError.rpc error.code error.message error.data_)

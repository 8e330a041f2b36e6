-- ===== src/Action/Fields.antt =====
-- The derived borsh codecs of the structs and small enums of types/action.rs. A derived struct is
-- its fields in order, and a derived enum the index of its variant as a byte and then the variant.
use near_kit_rs.Prelude.{ℕ, ◌++◌, Bytes, ok, err, ◌>>=◌, ◌==◌, if◌then◌else◌}
use near_kit_rs.Borsh.{Borsh, Codec, Reader, ◌⊗◌, convert, vec, option, invalid_data}
use near_kit_rs.Key.{Crypto}
use near_kit_rs.Key.Wire.{public_key}
use near_kit_rs.Action.Defs.{
  TransactionNonce, nonce, gas_key_nonce, GasKeyInfo, FunctionCallPermission, AccessKeyPermission,
  function_call, full_access, gas_key_function_call, gas_key_full_access, AccessKey,
  FunctionCallAction, StakeAction, AddKeyAction, GlobalContractDeployMode, code_hash, account_id,
  DeployGlobalContractAction, TransferToGasKeyAction, WithdrawFromGasKeyAction,
  DeterministicStateInitAction,
}

module _ (b : Borsh) where
  put_transaction_nonce : TransactionNonce → Bytes
  put_transaction_nonce (nonce n) = b.u8.put 0 ++ b.u64.put n
  put_transaction_nonce (gas_key_nonce n i) = b.u8.put 1 ++ (b.u64 ⊗ b.u16).put (n, i)

  variant_transaction_nonce : ℕ → Reader TransactionNonce
  variant_transaction_nonce t r =
      if t == 0
      then (do (n, r') ← b.u64.get r; ok (nonce n, r'))
      else if t == 1
      then (do (p, r') ← (b.u64 ⊗ b.u16).get r; ok (gas_key_nonce p.0 p.1, r'))
      else err invalid_data

  unfoldable pub transaction_nonce : Codec TransactionNonce
  unfolding put_transaction_nonce variant_transaction_nonce
  transaction_nonce = record {
    put = put_transaction_nonce;
    get = λ r. (do (t, r') ← b.u8.get r; variant_transaction_nonce t r');
  }

  unfoldable pub gas_key_info : Codec GasKeyInfo
  gas_key_info =
      convert (λ p. record { balance = p.0; num_nonces = p.1 }) (λ g. (g.balance, g.num_nonces))
        (b.near_token ⊗ b.u16)

  unfoldable pub function_call_permission : Codec FunctionCallPermission
  function_call_permission =
      convert (λ p. record { allowance = p.0; receiver_id = p.1.0; method_names = p.1.1 })
        (λ f. (f.allowance, (f.receiver_id, f.method_names)))
        (option b b.near_token ⊗ b.account_id ⊗ vec b b.string)

  put_access_key_permission : AccessKeyPermission → Bytes
  unfolding gas_key_info function_call_permission
  put_access_key_permission (function_call f) = b.u8.put 0 ++ function_call_permission.put f
  put_access_key_permission full_access = b.u8.put 1
  put_access_key_permission (gas_key_function_call g f) =
      b.u8.put 2 ++ (gas_key_info ⊗ function_call_permission).put (g, f)
  put_access_key_permission (gas_key_full_access g) = b.u8.put 3 ++ gas_key_info.put g

  variant_access_key_permission : ℕ → Reader AccessKeyPermission
  unfolding gas_key_info function_call_permission
  variant_access_key_permission t r =
      if t == 0
      then (do (f, r') ← function_call_permission.get r; ok (function_call f, r'))
      else if t == 1
      then ok (full_access, r)
      else if t == 2
      then (do
        (p, r') ← (gas_key_info ⊗ function_call_permission).get r
        ok (gas_key_function_call p.0 p.1, r'))
      else if t == 3
      then (do (g, r') ← gas_key_info.get r; ok (gas_key_full_access g, r'))
      else err invalid_data

  unfoldable pub access_key_permission : Codec AccessKeyPermission
  unfolding put_access_key_permission variant_access_key_permission
  access_key_permission = record {
    put = put_access_key_permission;
    get = λ r. (do (t, r') ← b.u8.get r; variant_access_key_permission t r');
  }

  unfoldable pub access_key : Codec AccessKey
  unfolding access_key_permission
  access_key =
      convert (λ p. record { nonce = p.0; permission = p.1 }) (λ k. (k.nonce, k.permission))
        (b.u64 ⊗ access_key_permission)

  unfoldable pub function_call_action : Codec FunctionCallAction
  function_call_action =
      convert (λ p. record { method_name = p.0; args = p.1.0; gas = p.1.1.0; deposit = p.1.1.1 })
        (λ f. (f.method_name, (f.args, (f.gas, f.deposit))))
        (b.string ⊗ b.byte_vec ⊗ b.gas ⊗ b.near_token)

  put_deploy_mode : GlobalContractDeployMode → Bytes
  put_deploy_mode code_hash = b.u8.put 0
  put_deploy_mode account_id = b.u8.put 1

  variant_deploy_mode : ℕ → Reader GlobalContractDeployMode
  variant_deploy_mode t r =
      if t == 0 then ok (code_hash, r) else if t == 1 then ok (account_id, r) else err invalid_data

  unfoldable pub deploy_mode : Codec GlobalContractDeployMode
  unfolding put_deploy_mode variant_deploy_mode
  deploy_mode = record {
    put = put_deploy_mode;
    get = λ r. (do (t, r') ← b.u8.get r; variant_deploy_mode t r');
  }

  unfoldable pub deploy_global_contract_action : Codec DeployGlobalContractAction
  unfolding deploy_mode
  deploy_global_contract_action =
      convert (λ p. record { code = p.0; deploy_mode = p.1 }) (λ d. (d.code, d.deploy_mode))
        (b.byte_vec ⊗ deploy_mode)

  unfoldable pub deterministic_state_init_action : Codec (DeterministicStateInitAction b)
  deterministic_state_init_action =
      convert (λ p. record { state_init = p.0; deposit = p.1 }) (λ d. (d.state_init, d.deposit))
        (b.state_init ⊗ b.near_token)

module _ (b : Borsh) (c : Crypto) where
  unfoldable pub stake_action : Codec StakeAction
  stake_action =
      convert (λ p. record { stake = p.0; public_key = p.1 }) (λ s. (s.stake, s.public_key))
        (b.near_token ⊗ public_key b c)

  unfoldable pub add_key_action : Codec AddKeyAction
  unfolding access_key
  add_key_action =
      convert (λ p. record { public_key = p.0; access_key = p.1 })
        (λ a. (a.public_key, a.access_key)) (public_key b c ⊗ access_key b)

  unfoldable pub transfer_to_gas_key_action : Codec TransferToGasKeyAction
  transfer_to_gas_key_action =
      convert (λ p. record { public_key = p.0; deposit = p.1 }) (λ t. (t.public_key, t.deposit))
        (public_key b c ⊗ b.near_token)

  unfoldable pub withdraw_from_gas_key_action : Codec WithdrawFromGasKeyAction
  withdraw_from_gas_key_action =
      convert (λ p. record { public_key = p.0; amount = p.1 }) (λ w. (w.public_key, w.amount))
        (public_key b c ⊗ b.near_token)

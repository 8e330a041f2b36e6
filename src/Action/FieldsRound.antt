-- ===== src/Action/FieldsRound.antt =====
-- The structs of types/action.rs are read back as written.
use near_kit_rs.Prelude.{
  ℕ, ◌<◌, ◌≡◌, ◌∷◌, ◌++◌, append_assoc, Bytes, List, [], Option, none, some, ok, arith, All, IsU128,
}
use near_kit_rs.Borsh.{Borsh, IsBorsh, RoundTrips, OptionAll, ◌⊗◌}
use near_kit_rs.Key.{Crypto, IsPublicKey}
use near_kit_rs.Key.Wire.{public_key_round}
use near_kit_rs.Action.Defs.{
  TransactionNonce, nonce, gas_key_nonce, GasKeyInfo, FunctionCallPermission, AccessKeyPermission,
  function_call, full_access, gas_key_function_call, gas_key_full_access, AccessKey,
  FunctionCallAction, StakeAction, AddKeyAction, GlobalContractDeployMode, code_hash, account_id,
  DeployGlobalContractAction, TransferToGasKeyAction, WithdrawFromGasKeyAction,
  DeterministicStateInitAction,
}
use near_kit_rs.Action.Fields
use near_kit_rs.Action.WellFormed.{
  IsTransactionNonce, IsGasKeyInfo, IsString, IsFunctionCallPermission, IsAccessKeyPermission,
  IsAccessKey, IsFunctionCallAction, IsShort,
}

-- A derived enum: the index of the variant, then its fields.
pub tag_round :
    (b : Borsh)
    → IsBorsh b
    → (t : ℕ) (body rest : Bytes) → t < 256
    → b.u8.get ((b.u8.put t ++ body) ++ rest) ≡ ok (t, body ++ rest)
tag_round b w t body rest h = rw (append_assoc, w.u8_put t h, w.u8_get t _)

pub bare_tag_round :
    (b : Borsh)
    → IsBorsh b
    → (t : ℕ) (rest : Bytes) → t < 256
    → b.u8.get (b.u8.put t ++ rest) ≡ ok (t, rest)
bare_tag_round b w t rest h = rw (w.u8_put t h, w.u8_get t _)

module _ (b : Borsh) (w : IsBorsh b) where
  pub transaction_nonce_round :
      (n : TransactionNonce) → IsTransactionNonce n → RoundTrips (Fields.transaction_nonce b) n
  unfolding Fields.transaction_nonce
  transaction_nonce_round (nonce n) h rest =
      rw (tag_round b w 0 (b.u64.put n) rest (omega arith), w.u64_round n h rest)
  transaction_nonce_round (gas_key_nonce n i) (h, k) rest = rw (
    tag_round b w 1 ((b.u64 ⊗ b.u16).put (n, i)) rest (omega arith),
    append_assoc,
    w.u64_round n h,
    w.u16_round i k,
  )

  gas_key_info_round : (g : GasKeyInfo) → IsGasKeyInfo g → RoundTrips (Fields.gas_key_info b) g
  unfolding Fields.gas_key_info
  gas_key_info_round g (h, k) rest =
      rw (append_assoc, w.near_token_round g.balance h, w.u16_round g.num_nonces k)

  allowance_round : (o : Option ℕ) → OptionAll IsU128 o → OptionAll (RoundTrips b.near_token) o
  allowance_round none h = tt
  allowance_round (some n) h = w.near_token_round n h

  strings_round : (xs : List Bytes) → All (IsString b) xs → All (RoundTrips b.string) xs
  strings_round [] h = tt
  strings_round (x ∷ xs) (h, hs) = (w.string_round x h.0 h.1, strings_round xs hs)

  function_call_permission_round :
      (f : FunctionCallPermission)
      → IsFunctionCallPermission b f
      → RoundTrips (Fields.function_call_permission b) f
  unfolding Fields.function_call_permission
  function_call_permission_round f (h, k, l, m) rest = rw (
    append_assoc,
    w.option_round b.near_token f.allowance (allowance_round f.allowance h),
    append_assoc,
    w.account_id_round f.receiver_id k,
    w.vec_round b.string f.method_names (strings_round f.method_names l) m,
  )

  access_key_permission_round :
      (p : AccessKeyPermission)
      → IsAccessKeyPermission b p
      → RoundTrips (Fields.access_key_permission b) p
  unfolding Fields.access_key_permission
  access_key_permission_round (function_call f) h rest =
      rw (tag_round b w 0 _ rest (omega arith), function_call_permission_round f h rest)
  access_key_permission_round full_access h rest = rw (bare_tag_round b w 1 rest (omega arith))
  access_key_permission_round (gas_key_function_call g f) (h, k) rest = rw (
    tag_round b w 2 _ rest (omega arith),
    append_assoc,
    gas_key_info_round g h,
    function_call_permission_round f k,
  )
  access_key_permission_round (gas_key_full_access g) h rest =
      rw (tag_round b w 3 _ rest (omega arith), gas_key_info_round g h rest)

  access_key_round : (k : AccessKey) → IsAccessKey b k → RoundTrips (Fields.access_key b) k
  unfolding Fields.access_key
  access_key_round k (h, p) rest =
      rw (append_assoc, w.u64_round k.nonce h, access_key_permission_round k.permission p)

  pub function_call_action_round :
      (f : FunctionCallAction)
      → IsFunctionCallAction b f
      → RoundTrips (Fields.function_call_action b) f
  unfolding Fields.function_call_action
  function_call_action_round f (h, k, l, m) rest = rw (
    append_assoc,
    w.string_round f.method_name h.0 h.1,
    append_assoc,
    w.byte_vec_round f.args k,
    append_assoc,
    w.gas_round f.gas l,
    w.near_token_round f.deposit m,
  )

  deploy_mode_round : (m : GlobalContractDeployMode) → RoundTrips (Fields.deploy_mode b) m
  unfolding Fields.deploy_mode
  deploy_mode_round code_hash rest = rw (bare_tag_round b w 0 rest (omega arith))
  deploy_mode_round account_id rest = rw (bare_tag_round b w 1 rest (omega arith))

  pub deploy_global_contract_action_round :
      (d : DeployGlobalContractAction)
      → IsShort d.code
      → RoundTrips (Fields.deploy_global_contract_action b) d
  unfolding Fields.deploy_global_contract_action
  deploy_global_contract_action_round d h rest =
      rw (append_assoc, w.byte_vec_round d.code h, deploy_mode_round d.deploy_mode)

  pub deterministic_state_init_action_round :
      (d : DeterministicStateInitAction b)
      → b.IsStateInit d.state_init
      → IsU128 d.deposit
      → RoundTrips (Fields.deterministic_state_init_action b) d
  unfolding Fields.deterministic_state_init_action
  deterministic_state_init_action_round d h k rest =
      rw (append_assoc, w.state_init_round d.state_init h, w.near_token_round d.deposit k)

module _ (b : Borsh) (c : Crypto) (w : IsBorsh b) where
  pub stake_action_round :
      (s : StakeAction)
      → IsU128 s.stake
      → IsPublicKey c s.public_key
      → RoundTrips (Fields.stake_action b c) s
  unfolding Fields.stake_action
  stake_action_round s h k rest =
      rw (append_assoc, w.near_token_round s.stake h, public_key_round b c w s.public_key k)

  pub add_key_action_round :
      (a : AddKeyAction)
      → IsPublicKey c a.public_key
      → IsAccessKey b a.access_key
      → RoundTrips (Fields.add_key_action b c) a
  unfolding Fields.add_key_action
  add_key_action_round a h k rest =
      rw (append_assoc, public_key_round b c w a.public_key h, access_key_round b w a.access_key k)

  pub transfer_to_gas_key_action_round :
      (t : TransferToGasKeyAction)
      → IsPublicKey c t.public_key
      → IsU128 t.deposit
      → RoundTrips (Fields.transfer_to_gas_key_action b c) t
  unfolding Fields.transfer_to_gas_key_action
  transfer_to_gas_key_action_round t h k rest =
      rw (append_assoc, public_key_round b c w t.public_key h, w.near_token_round t.deposit k)

  pub withdraw_from_gas_key_action_round :
      (t : WithdrawFromGasKeyAction)
      → IsPublicKey c t.public_key
      → IsU128 t.amount
      → RoundTrips (Fields.withdraw_from_gas_key_action b c) t
  unfolding Fields.withdraw_from_gas_key_action
  withdraw_from_gas_key_action_round t h k rest =
      rw (append_assoc, public_key_round b c w t.public_key h, w.near_token_round t.amount k)

-- ===== src/Action/Defs.antt =====
-- The types of types/action.rs, and the nonce types of types/transaction.rs that they use.
use near_kit_rs.Prelude.{
  ℕ, ◌≡◌, Bool, true, false, Option, none, some, List, [], ◌∷◌, Bytes, if◌then◌else◌, refl, ap,
}
use near_kit_rs.Borsh.{Borsh}
use near_kit_rs.Key.{PublicKey, Signature}

abbrev pub AccountId : Type 0
AccountId = Bytes

-- The value types `Nonce` and `NonceIndex` are numbers below 2 ^ 64 and 2 ^ 16.
pub data TransactionNonce : Type 0 where
  nonce : ℕ → TransactionNonce
  gas_key_nonce : (nonce nonce_index : ℕ) → TransactionNonce

pub record GasKeyInfo : Type 0 where
  pub balance : ℕ
  pub num_nonces : ℕ

pub record FunctionCallPermission : Type 0 where
  pub allowance : Option ℕ
  pub receiver_id : AccountId
  pub method_names : List Bytes

pub data AccessKeyPermission : Type 0 where
  function_call : FunctionCallPermission → AccessKeyPermission
  full_access : AccessKeyPermission
  gas_key_function_call : GasKeyInfo → FunctionCallPermission → AccessKeyPermission
  gas_key_full_access : GasKeyInfo → AccessKeyPermission

pub record AccessKey : Type 0 where
  pub nonce : ℕ
  pub permission : AccessKeyPermission

pub record FunctionCallAction : Type 0 where
  pub method_name : Bytes
  pub args : Bytes
  pub gas : ℕ
  pub deposit : ℕ

pub record StakeAction : Type 0 where
  pub stake : ℕ
  pub public_key : PublicKey

pub record AddKeyAction : Type 0 where
  pub public_key : PublicKey
  pub access_key : AccessKey

pub data GlobalContractDeployMode : Type 0 where
  code_hash account_id : GlobalContractDeployMode

pub record DeployGlobalContractAction : Type 0 where
  pub code : Bytes
  pub deploy_mode : GlobalContractDeployMode

pub record TransferToGasKeyAction : Type 0 where
  pub public_key : PublicKey
  pub deposit : ℕ

pub record WithdrawFromGasKeyAction : Type 0 where
  pub public_key : PublicKey
  pub amount : ℕ

module _ (b : Borsh) where
  pub record DeterministicStateInitAction : Type 0 where
    pub state_init : b.StateInit
    pub deposit : ℕ

  -- The enum `Action`. A struct with one field stands as that field: `DeployContractAction` is its
  -- code, `TransferAction` its deposit, `DeleteKeyAction` its key, `DeleteAccountAction` its
  -- beneficiary and `UseGlobalContractAction` its identifier. `NonDelegateAction` wraps an action,
  -- and `Vec<NonDelegateAction>` is `NonDelegateActions`.
  mutual
    pub data Action : Type 0 where
      create_account : Action
      deploy_contract : Bytes → Action
      function_call : FunctionCallAction → Action
      transfer : ℕ → Action
      stake : StakeAction → Action
      add_key : AddKeyAction → Action
      delete_key : PublicKey → Action
      delete_account : AccountId → Action
      delegate : SignedDelegateAction → Action
      deploy_global_contract : DeployGlobalContractAction → Action
      use_global_contract : b.GlobalContractId → Action
      deterministic_state_init : DeterministicStateInitAction → Action
      transfer_to_gas_key : TransferToGasKeyAction → Action
      withdraw_from_gas_key : WithdrawFromGasKeyAction → Action
      delegate_v2 : VersionedSignedDelegateAction → Action

    pub data NonDelegateAction : Type 0 where
      non_delegate : Action → NonDelegateAction

    pub data NonDelegateActions : Type 0 where
      nil : NonDelegateActions
      cons : NonDelegateAction → NonDelegateActions → NonDelegateActions

    pub data DelegateAction : Type 0 where
      delegate_action :
          (sender_id receiver_id : AccountId) (actions : NonDelegateActions)
          (nonce max_block_height : ℕ) (public_key : PublicKey)
          → DelegateAction

    pub data SignedDelegateAction : Type 0 where
      signed_delegate : DelegateAction → Signature → SignedDelegateAction

    pub data DelegateActionV2 : Type 0 where
      delegate_action_v2 :
          (sender_id receiver_id : AccountId) (actions : NonDelegateActions)
          (nonce : TransactionNonce) (max_block_height : ℕ) (public_key : PublicKey)
          → DelegateActionV2

    pub data VersionedDelegateActionPayload : Type 0 where
      v2 : DelegateActionV2 → VersionedDelegateActionPayload

    pub data VersionedSignedDelegateAction : Type 0 where
      versioned_signed_delegate :
          VersionedDelegateActionPayload → Signature → VersionedSignedDelegateAction

  unfoldable pub is_delegate : Action → Bool
  is_delegate (delegate _) = true
  is_delegate (delegate_v2 _) = true
  is_delegate _ = false

  unfoldable pub inner : NonDelegateAction → Action
  inner (non_delegate a) = a

  -- `NonDelegateAction::from_action`, and `try_from` with its error left out
  unfoldable pub from_action : Action → Option NonDelegateAction
  unfolding is_delegate
  from_action a = if is_delegate a then none else some (non_delegate a)

  abbrev pub to_list : NonDelegateActions → List NonDelegateAction
  to_list nil = []
  to_list (cons a as_) = a ∷ to_list as_

  abbrev pub of_list : List NonDelegateAction → NonDelegateActions
  of_list [] = nil
  of_list (a ∷ as_) = cons a (of_list as_)

  pub of_list-to_list : (xs : NonDelegateActions) → of_list (to_list xs) ≡ xs
  of_list-to_list nil = refl
  of_list-to_list (cons a xs) = ap (cons a) (of_list-to_list xs)

-- ===== src/Action/Constructors.antt =====
-- types/action.rs: the functions that make actions and access keys.
use near_kit_rs.Prelude.{ℕ, Option, List, Bytes}
use near_kit_rs.Borsh.{Borsh}
use near_kit_rs.Key.{PublicKey}
use near_kit_rs.Action.Defs.{
  Action, AccountId, AccessKey, AccessKeyPermission, SignedDelegateAction, GlobalContractDeployMode,
  code_hash, account_id,
}

-- How a published contract is identified.
pub data PublishMode : Type 0 where
  updatable immutable : PublishMode

abbrev pub full_access_key : AccessKey
full_access_key = record { nonce = 0; permission = AccessKeyPermission.full_access }

abbrev pub function_call_permission :
    (receiver_id : AccountId) (method_names : List Bytes) (allowance : Option ℕ)
    → AccessKeyPermission
function_call_permission receiver_id method_names allowance =
    AccessKeyPermission.function_call
      (record { allowance = allowance; receiver_id = receiver_id; method_names = method_names })

abbrev pub function_call_key :
    (receiver_id : AccountId) (method_names : List Bytes) (allowance : Option ℕ) → AccessKey
function_call_key receiver_id method_names allowance = record {
  nonce = 0;
  permission = function_call_permission receiver_id method_names allowance;
}

abbrev pub deploy_mode_of : PublishMode → GlobalContractDeployMode
deploy_mode_of updatable = account_id
deploy_mode_of immutable = code_hash

module _ (b : Borsh) where
  abbrev pub create_account : Action b
  create_account = Action.create_account

  abbrev pub deploy_contract : (code : Bytes) → Action b
  deploy_contract code = Action.deploy_contract code

  abbrev pub function_call : (method_name args : Bytes) (gas deposit : ℕ) → Action b
  function_call method_name args gas deposit =
      Action.function_call
        (record { method_name = method_name; args = args; gas = gas; deposit = deposit })

  abbrev pub transfer : (deposit : ℕ) → Action b
  transfer deposit = Action.transfer deposit

  abbrev pub stake : (stake : ℕ) → PublicKey → Action b
  stake amount public_key = Action.stake (record { stake = amount; public_key = public_key })

  abbrev pub add_full_access_key : PublicKey → Action b
  add_full_access_key public_key =
      Action.add_key (record { public_key = public_key; access_key = full_access_key })

  abbrev pub add_function_call_key :
      PublicKey
      → (receiver_id : AccountId) (method_names : List Bytes) (allowance : Option ℕ) → Action b
  add_function_call_key public_key receiver_id method_names allowance = Action.add_key (record {
    public_key = public_key;
    access_key = function_call_key receiver_id method_names allowance;
  })

  abbrev pub delete_key : PublicKey → Action b
  delete_key public_key = Action.delete_key public_key

  abbrev pub delete_account : (beneficiary_id : AccountId) → Action b
  delete_account beneficiary_id = Action.delete_account beneficiary_id

  abbrev pub delegate : SignedDelegateAction b → Action b
  delegate signed = Action.delegate signed

  abbrev pub publish : (code : Bytes) → PublishMode → Action b
  publish code mode =
      Action.deploy_global_contract (record { code = code; deploy_mode = deploy_mode_of mode })

  abbrev pub state_init : b.StateInit → (deposit : ℕ) → Action b
  state_init init deposit =
      Action.deterministic_state_init (record { state_init = init; deposit = deposit })

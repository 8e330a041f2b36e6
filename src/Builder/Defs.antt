-- ===== src/Builder/Defs.antt =====
-- client/transaction.rs: the methods of `TransactionBuilder`, `FunctionCall` and `CallBuilder`. A
-- method that panics on an invalid amount, gas or account ID returns `none`. An account ID comes as
-- what its parser made of it, and arguments as what serde or borsh made of them.
use near_kit_rs.Prelude.{
  ℕ, ◌*◌, Option, none, some, List, [], ◌∷◌, ◌++◌, Bytes, Result, ok, err, ◌>>?◌,
}
use near_kit_rs.Borsh.{Borsh}
use near_kit_rs.Key.{Crypto, PublicKey}
use near_kit_rs.Action.{Action, SignedDelegateAction, DelegateAction, AccountId}
use near_kit_rs.Action.Constructors
use near_kit_rs.Action.Constructors.{PublishMode}
use near_kit_rs.Amount.{ParseAmountError}
use near_kit_rs.Units.Defs.{IntoNearToken, into_near_token, IntoGas, into_gas, gas_per_tgas}
use near_kit_rs.Client.Signers.{Signer}
use near_kit_rs.Client.Send.{Builder}

-- `expect`
abbrev pub expect {ℓ} : {F : Type 0} {X : Type ℓ} → Result F X → Option X
expect (ok x) = some x
expect (err e) = none

abbrev pub expected : Option (Result ParseAmountError ℕ) → Option ℕ
expected none = none
expected (some r) = expect r

unfoldable pub token_of : IntoNearToken → Option ℕ
unfolding into_near_token
token_of amount = expected (into_near_token amount)

unfoldable pub gas_of : IntoGas → Option ℕ
unfolding into_gas
gas_of amount = expect (into_gas amount)

abbrev pub unwrap_or_default : Option Bytes → Bytes
unwrap_or_default none = []
unwrap_or_default (some bytes) = bytes

pub record FunctionCall : Type 0 where
  pub method : Bytes
  pub args : Bytes
  pub gas : ℕ
  pub deposit : ℕ

-- `FunctionCall::new`
abbrev pub new_call : Bytes → FunctionCall
new_call method = record { method = method; args = []; gas = 30 * gas_per_tgas; deposit = 0 }

-- The methods of `FunctionCall` and of `CallBuilder` that set one of its parts.
pub data Setting : Type 0 where
  args : Option Bytes → Setting
  args_raw : Bytes → Setting
  args_borsh : Option Bytes → Setting
  gas : IntoGas → Setting
  deposit : IntoNearToken → Setting

unfoldable pub set : Setting → FunctionCall → Option FunctionCall
unfolding token_of gas_of
set (args json) call = some (record call { args = unwrap_or_default json })
set (args_raw bytes) call = some (record call { args = bytes })
set (args_borsh bytes) call = some (record call { args = unwrap_or_default bytes })
set (gas amount) call = gas_of amount >>? λ g. some (record call { gas = g })
set (deposit amount) call = token_of amount >>? λ n. some (record call { deposit = n })

unfoldable pub set_all : List Setting → FunctionCall → Option FunctionCall
unfolding set
set_all [] call = some call
set_all (setting ∷ settings) call = set setting call >>? set_all settings

module _ (b : Borsh) (c : Crypto) (J E S R A : Type 0) where
  abbrev pub TransactionBuilder : Type 0
  TransactionBuilder = Builder b c J E S R A

  -- `TransactionBuilder::new`
  unfoldable pub new :
      Option (Signer E S)
      → (receiver_id : AccountId) (max_nonce_retries : ℕ) (network : Bytes) → TransactionBuilder
  new signer receiver_id max_nonce_retries network = record {
    signer_override = none;
    signer = signer;
    receiver_id = receiver_id;
    actions = [];
    max_nonce_retries = max_nonce_retries;
    network = network;
  }

  -- `add_action`
  unfoldable pub add_action : Action b → TransactionBuilder → TransactionBuilder
  add_action action builder = record builder { actions = builder.actions ++ action ∷ [] }

  pub record CallBuilder : Type 0 where
    pub builder : TransactionBuilder
    pub call : FunctionCall

  -- `From<FunctionCall> for Action`
  abbrev pub action_of : FunctionCall → Action b
  action_of call = Constructors.function_call b call.method call.args call.gas call.deposit

  -- `TransactionBuilder::call`, and `CallBuilder::finish`.
  abbrev pub call_builder : Bytes → TransactionBuilder → CallBuilder
  call_builder method builder = record { builder = builder; call = new_call method }

  unfoldable pub finish : CallBuilder → TransactionBuilder
  unfolding add_action
  finish calling = add_action (action_of calling.call) calling.builder

  no_actions : List (Action b) → Option (Action b) → Option (Action b)
  no_actions [] action = action
  no_actions (_ ∷ _) action = none

  -- `into_action`, which panics where it would lose actions.
  unfoldable pub into_action : CallBuilder → Option (Action b)
  unfolding no_actions
  into_action calling = no_actions calling.builder.actions (some (action_of calling.call))

  -- `IntoGlobalContractId` of types/action.rs: an identifier, a hash, and an account ID, which comes
  -- as what its parser made of it where it is a text.
  pub data IntoGlobalContractId : Type 0 where
    identifier : b.GlobalContractId → IntoGlobalContractId
    code_hash : Bytes → IntoGlobalContractId
    account_id : Option AccountId → IntoGlobalContractId

  -- `into_identifier`
  unfoldable pub into_identifier : IntoGlobalContractId → Option b.GlobalContractId
  into_identifier (identifier g) = some g
  into_identifier (code_hash h) = some (b.by_code_hash h)
  into_identifier (account_id parsed) = parsed >>? λ publisher. some (b.by_account_id publisher)

  -- The methods of `TransactionBuilder` that return it.
  pub data Method : Type 0 where
    create_account : Method
    transfer : IntoNearToken → Method
    deploy : Bytes → Method
    add_full_access_key : PublicKey → Method
    add_function_call_key : PublicKey → Option AccountId → List Bytes → Option ℕ → Method
    delete_key : PublicKey → Method
    delete_account : Option AccountId → Method
    stake : IntoNearToken → PublicKey → Method
    signed_delegate_action : SignedDelegateAction b → Method
    publish : Bytes → PublishMode → Method
    deploy_from : IntoGlobalContractId → Method
    state_init : b.StateInit → IntoNearToken → Method
    add_action_method : Action b → Method
    sign_with : Signer E S → Method
    max_nonce_retries : ℕ → Method

  abbrev pub sender_of : SignedDelegateAction b → AccountId
  sender_of
        (SignedDelegateAction.signed_delegate
          (DelegateAction.delegate_action sender_id _ _ _ _ _)
          _) =
      sender_id

  module _ (derive_account_id : b.StateInit → AccountId) where
    unfoldable pub apply : Method → TransactionBuilder → Option TransactionBuilder
    unfolding add_action token_of into_identifier
    apply create_account builder = some (add_action (Constructors.create_account b) builder)
    apply (transfer amount) builder =
        token_of amount >>? λ n. some (add_action (Constructors.transfer b n) builder)
    apply (deploy code) builder = some (add_action (Constructors.deploy_contract b code) builder)
    apply (add_full_access_key key) builder =
        some (add_action (Constructors.add_full_access_key b key) builder)
    apply (add_function_call_key key receiver_id method_names allowance) builder =
        receiver_id >>? λ receiver. some (
          add_action (Constructors.add_function_call_key b key receiver method_names allowance)
            builder)
    apply (delete_key key) builder = some (add_action (Constructors.delete_key b key) builder)
    apply (delete_account beneficiary_id) builder = beneficiary_id >>? λ beneficiary.
        some (add_action (Constructors.delete_account b beneficiary) builder)
    apply (stake amount key) builder =
        token_of amount >>? λ n. some (add_action (Constructors.stake b n key) builder)
    apply (signed_delegate_action signed) builder = some (
        add_action (Constructors.delegate b signed)
          (record builder { receiver_id = sender_of signed }))
    apply (publish code mode) builder = some (add_action (Constructors.publish b code mode) builder)
    apply (deploy_from contract_ref) builder = into_identifier contract_ref >>? λ contract.
        some (add_action (Action.use_global_contract contract) builder)
    apply (state_init init amount) builder = token_of amount >>? λ n. some (
        add_action (Constructors.state_init b init n)
          (record builder { receiver_id = derive_account_id init }))
    apply (add_action_method action) builder = some (add_action action builder)
    apply (sign_with signer) builder = some (record builder { signer_override = some signer })
    apply (max_nonce_retries retries) builder =
        some (record builder { max_nonce_retries = retries })

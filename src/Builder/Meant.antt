-- ===== src/Builder/Meant.antt =====
-- The runs of a chain of builder calls against what the chain stands for.
use near_kit_rs.Prelude.{ℕ, ◌*◌, Option, some, List, [], ◌∷◌, ◌++◌, All}
use near_kit_rs.Borsh.{Borsh}
use near_kit_rs.Key.{Crypto}
use near_kit_rs.Action.{Action, AccountId}
use near_kit_rs.Action.Constructors
use near_kit_rs.Units.Defs.{gas_per_tgas}
use near_kit_rs.Client.Signers.{Signer}
use near_kit_rs.Builder.Defs.{TransactionBuilder, IntoGlobalContractId, Method, token_of, sender_of}
use near_kit_rs.Builder.Chain.{Link}
use near_kit_rs.Builder.Meaning.{
  or_zero, or_empty, IsDefined, IsValidSetting, last_args, last_gas, last_deposit,
}

module _ (b : Borsh) (c : Crypto) (J E S R A : Type 0)
    (derive_account_id : b.StateInit → AccountId) where
  -- The amounts, gas and account IDs of a link are such.
  abbrev pub IsValid : Link b c J E S R A → Type 0
  IsValid (Link.method (Method.transfer amount)) = IsDefined (token_of amount)
  IsValid (Link.method (Method.add_function_call_key _ receiver _ _)) = IsDefined receiver
  IsValid (Link.method (Method.delete_account beneficiary)) = IsDefined beneficiary
  IsValid (Link.method (Method.stake amount _)) = IsDefined (token_of amount)
  IsValid (Link.method (Method.state_init _ amount)) = IsDefined (token_of amount)
  IsValid (Link.method (Method.deploy_from (IntoGlobalContractId.account_id publisher))) =
      IsDefined publisher
  IsValid (Link.call _ settings) = All IsValidSetting settings
  IsValid _ = Unit

  -- The actions that a link stands for.
  abbrev pub meant : Link b c J E S R A → List (Action b)
  meant (Link.method Method.create_account) = Action.create_account ∷ []
  meant (Link.method (Method.transfer amount)) = Action.transfer (or_zero (token_of amount)) ∷ []
  meant (Link.method (Method.deploy code)) = Action.deploy_contract code ∷ []
  meant (Link.method (Method.add_full_access_key key)) = Constructors.add_full_access_key b key ∷ []
  meant (Link.method (Method.add_function_call_key key receiver names allowance)) =
      Constructors.add_function_call_key b key (or_empty receiver) names allowance ∷ []
  meant (Link.method (Method.delete_key key)) = Action.delete_key key ∷ []
  meant (Link.method (Method.delete_account beneficiary)) =
      Action.delete_account (or_empty beneficiary) ∷ []
  meant (Link.method (Method.stake amount key)) =
      Constructors.stake b (or_zero (token_of amount)) key ∷ []
  meant (Link.method (Method.signed_delegate_action signed)) = Action.delegate signed ∷ []
  meant (Link.method (Method.publish code mode)) = Constructors.publish b code mode ∷ []
  meant (Link.method (Method.deploy_from (IntoGlobalContractId.identifier contract))) =
      Action.use_global_contract contract ∷ []
  meant (Link.method (Method.deploy_from (IntoGlobalContractId.code_hash hash))) =
      Action.use_global_contract (b.by_code_hash hash) ∷ []
  meant (Link.method (Method.deploy_from (IntoGlobalContractId.account_id publisher))) =
      Action.use_global_contract (b.by_account_id (or_empty publisher)) ∷ []
  meant (Link.method (Method.state_init init amount)) =
      Constructors.state_init b init (or_zero (token_of amount)) ∷ []
  meant (Link.method (Method.add_action_method action)) = action ∷ []
  meant (Link.method (Method.sign_with _)) = []
  meant (Link.method (Method.max_nonce_retries _)) = []
  meant (Link.call name settings) =
      Constructors.function_call b name (last_args settings [])
        (last_gas settings (30 * gas_per_tgas)) (last_deposit settings 0)
      ∷ []

  abbrev pub all_meant : List (Link b c J E S R A) → List (Action b)
  all_meant [] = []
  all_meant (link ∷ links) = meant link ++ all_meant links

  -- Delegate actions go to their sender, and a state goes to the account derived from it.
  abbrev pub receiver_after : Link b c J E S R A → AccountId → AccountId
  receiver_after (Link.method (Method.signed_delegate_action signed)) _ =
      sender_of b c J E S R A signed
  receiver_after (Link.method (Method.state_init init _)) _ = derive_account_id init
  receiver_after _ receiver = receiver

  abbrev pub last_receiver : List (Link b c J E S R A) → AccountId → AccountId
  last_receiver [] receiver = receiver
  last_receiver (link ∷ links) receiver = last_receiver links (receiver_after link receiver)

  abbrev pub signer_after : Link b c J E S R A → Option (Signer E S) → Option (Signer E S)
  signer_after (Link.method (Method.sign_with signer)) _ = some signer
  signer_after _ signer = signer

  abbrev pub last_signer : List (Link b c J E S R A) → Option (Signer E S) → Option (Signer E S)
  last_signer [] signer = signer
  last_signer (link ∷ links) signer = last_signer links (signer_after link signer)

  abbrev pub retries_after : Link b c J E S R A → ℕ → ℕ
  retries_after (Link.method (Method.max_nonce_retries retries)) _ = retries
  retries_after _ retries = retries

  abbrev pub last_retries : List (Link b c J E S R A) → ℕ → ℕ
  last_retries [] retries = retries
  last_retries (link ∷ links) retries = last_retries links (retries_after link retries)

  -- What links make of a builder.
  abbrev pub after :
      List (Link b c J E S R A)
      → TransactionBuilder b c J E S R A
      → TransactionBuilder b c J E S R A
  after links builder = record {
    signer_override = last_signer links builder.signer_override;
    signer = builder.signer;
    receiver_id = last_receiver links builder.receiver_id;
    actions = builder.actions ++ all_meant links;
    max_nonce_retries = last_retries links builder.max_nonce_retries;
    network = builder.network;
  }

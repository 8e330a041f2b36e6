-- ===== src/Tests/Samples.antt =====
-- Concrete values: a cryptography that accepts every point and signature, keys, actions and
-- transactions.
use near_kit_rs.Prelude.{ℕ, zero, suc, refl, true, none, [], ◌∷◌, Bytes, codes, ok, arith}
use near_kit_rs.Borsh.Format.{format}
use near_kit_rs.Key.{Crypto, IsCrypto, PublicKey, Signature}
use near_kit_rs.Action.{
  Action, NonDelegateAction, NonDelegateActions, DelegateAction, SignedDelegateAction,
  DelegateActionV2, VersionedDelegateActionPayload, VersionedSignedDelegateAction, TransactionNonce,
}
use near_kit_rs.Action.WellFormed.{IsSignedDelegate}
use near_kit_rs.Transaction.{Transaction, TransactionV1, NonceMode}
use near_kit_rs.Nep413.{SignMessageParams}
use near_kit_rs.Transaction.Round.{IsTransaction}

abbrev pub zeros : ℕ → Bytes
zeros zero = []
zeros (suc n) = 0 ∷ zeros n

abbrev pub crypto : Crypto
crypto = record {
  is_ed25519_point = λ _. true;
  is_sec1_encoding = λ _. true;
  is_secp256k1_point = λ _. true;
  sha256 = λ _. zeros 32;
  sha3_256 = λ _. zeros 32;
  bs58_encode = λ m. m;
  bs58_decode = λ m. ok m;
  ed25519_verify_strict = λ _ _ _. true;
  is_secp256k1_signature = λ _. true;
  secp256k1_verify_prehash = λ _ _ _. true;
  is_ml_dsa_signature = λ _. true;
  ml_dsa_verify = λ _ _ _. true;
}

pub crypto-IsCrypto : IsCrypto crypto
crypto-IsCrypto = record {
  length-sha256 = λ _. refl;
  length-sha3_256 = λ _. refl;
  bs58_round = λ _. refl;
}

abbrev pub alice : Bytes
alice = codes "alice.near"

abbrev pub bob : Bytes
bob = codes "bob.near"

abbrev pub key : PublicKey
key = PublicKey.ed25519 (zeros 32)

abbrev pub signature : Signature
signature = Signature.ed25519 (zeros 64)

abbrev pub transfer : Action format
transfer = Action.transfer 10

abbrev pub delegate : DelegateAction format
delegate =
    DelegateAction.delegate_action alice bob
      (NonDelegateActions.cons (NonDelegateAction.non_delegate transfer) NonDelegateActions.nil) 7
      100 key

abbrev pub signed_delegate : SignedDelegateAction format
signed_delegate = SignedDelegateAction.signed_delegate delegate signature

abbrev pub payload : VersionedDelegateActionPayload format
payload = VersionedDelegateActionPayload.v2 (
    DelegateActionV2.delegate_action_v2 alice bob
      (NonDelegateActions.cons (NonDelegateAction.non_delegate transfer) NonDelegateActions.nil)
      (TransactionNonce.gas_key_nonce 7 1) 100 key)

abbrev pub versioned_delegate : VersionedSignedDelegateAction format
versioned_delegate = VersionedSignedDelegateAction.versioned_signed_delegate payload signature

abbrev pub transaction : Transaction format
transaction = record {
  signer_id = alice;
  public_key = key;
  nonce = 5;
  receiver_id = bob;
  block_hash = zeros 32;
  actions = transfer ∷ Action.delegate signed_delegate ∷ [];
}

abbrev pub transaction_v1 : TransactionV1 format
transaction_v1 = record {
  signer_id = alice;
  public_key = key;
  nonce = TransactionNonce.gas_key_nonce 5 2;
  receiver_id = bob;
  block_hash = zeros 32;
  actions = transfer ∷ [];
  nonce_mode = NonceMode.strict;
}

abbrev pub params : SignMessageParams
params = record {
  message = codes "Login to MyApp";
  recipient = codes "myapp.com";
  nonce = zeros 32;
  callback_url = none;
  state = none;
}

pub signed_delegate-IsSignedDelegate : IsSignedDelegate format crypto signed_delegate
signed_delegate-IsSignedDelegate =
    ((refl, refl, ((omega arith, tt), omega arith), omega arith, omega arith, (refl, refl)), refl)

pub transaction-IsTransaction : IsTransaction format crypto transaction
transaction-IsTransaction = (
  refl,
  (refl, refl),
  omega arith,
  refl,
  refl,
  (omega arith, (signed_delegate-IsSignedDelegate, tt)),
  omega arith,
)

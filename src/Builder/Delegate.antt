-- ===== src/Builder/Delegate.antt =====
-- client/transaction.rs: `DelegateOptions`, and `TransactionBuilder::delegate`. The base64 form of
-- the result is left out.
use near_kit_rs.Prelude.{
  ℕ, ◌+◌, ◌%◌, ◌^◌, Bool, false, ◌||◌, Option, none, some, List, [], ◌∷◌, Bytes, Result, ok, err,
  ◌>>=◌, map_err, if◌then◌else◌,
}
use near_kit_rs.Borsh.{Borsh}
use near_kit_rs.Key.{Crypto, PublicKey}
use near_kit_rs.Action.{
  Action, NonDelegateAction, DelegateAction, delegate_action, SignedDelegateAction, signed_delegate,
  is_delegate, from_action, of_list,
}
use near_kit_rs.Action.Delegate.{get_hash}
use near_kit_rs.Client.Errors.{RpcError}
use near_kit_rs.Client.Signers.{SigningKey, Signer}
use near_kit_rs.Client.Send.{
  AccessKeyView, Error, no_actions, no_signer, signing, of_rpc, Builder, chosen_signer,
}

pub record DelegateOptions : Type 0 where
  pub max_block_height : Option ℕ
  pub block_height_offset : Option ℕ
  pub nonce : Option ℕ

abbrev pub with_offset : ℕ → DelegateOptions
with_offset offset = record {
  max_block_height = none;
  block_height_offset = some offset;
  nonce = none;
}

abbrev pub with_max_height : ℕ → DelegateOptions
with_max_height height = record {
  max_block_height = some height;
  block_height_offset = none;
  nonce = none;
}

-- The errors of `delegate`: those of sending, and the one for a delegate inside a delegate.
pub data DelegateError (J E : Type 0) : Type 0 where
  nested_delegate : DelegateError J E
  other : Error J E → DelegateError J E

abbrev pub signing_error : {J E : Type 0} → E → DelegateError J E
signing_error e = other (signing e)

abbrev or_offset : Option ℕ → ℕ
or_offset none = 200
or_offset (some offset) = offset

module _ (b : Borsh) where
  unfoldable pub any_delegate : List (Action b) → Bool
  unfolding is_delegate
  any_delegate [] = false
  any_delegate (a ∷ actions) = is_delegate b a || any_delegate actions

  -- `filter_map(NonDelegateAction::from_action)`
  abbrev pub kept :
      Option (NonDelegateAction b) → List (NonDelegateAction b) → List (NonDelegateAction b)
  kept none rest = rest
  kept (some a) rest = a ∷ rest

  unfoldable pub non_delegates : List (Action b) → List (NonDelegateAction b)
  unfolding from_action
  non_delegates [] = []
  non_delegates (a ∷ actions) = kept (from_action b a) (non_delegates actions)

module _ (b : Borsh) (c : Crypto) (J E S R A : Type 0) where
  -- The nonce: the given one, or the one after the access key's.
  abbrev pub delegate_nonce :
      Option ℕ → Result (RpcError J) AccessKeyView → Result (DelegateError J E) ℕ
  delegate_nonce (some n) view = ok n
  delegate_nonce none (err e) = err (other (of_rpc e))
  delegate_nonce none (ok access_key) = ok ((access_key.nonce + 1) % 2 ^ 64)

  -- The height: the given one, or some blocks after the latest one, 200 by default.
  abbrev pub delegate_height :
      Option ℕ → Option ℕ → Result (RpcError J) ℕ → Result (DelegateError J E) ℕ
  delegate_height (some h) offset status = ok h
  delegate_height none offset (err e) = err (other (of_rpc e))
  delegate_height none offset (ok latest) = ok ((latest + or_offset offset) % 2 ^ 64)

  abbrev pub sign_delegate :
      SigningKey E → DelegateAction b → Result (DelegateError J E) (SignedDelegateAction b)
  sign_delegate key d = map_err signing_error (key.sign (get_hash b c d)) >>= λ signature.
      ok (signed_delegate d signature)

  -- With the signer chosen and a key claimed.
  unfoldable pub delegate_with :
      Builder b c J E S R A
      → DelegateOptions
      → (view : Bytes → PublicKey → Result (RpcError J) AccessKeyView)
        (latest_block_height : Result (RpcError J) ℕ)
      → Signer E S
      → SigningKey E
      → Result (DelegateError J E) (SignedDelegateAction b)
  unfolding non_delegates of_rpc get_hash
  delegate_with builder options view latest_block_height signer key =
      delegate_nonce options.nonce (view signer.account_id key.public_key) >>= λ nonce.
      delegate_height options.max_block_height options.block_height_offset latest_block_height
      >>= λ height. sign_delegate key (
          delegate_action signer.account_id builder.receiver_id
            (of_list b (non_delegates b builder.actions)) nonce height key.public_key)

  abbrev pub delegate_signer :
      Builder b c J E S R A
      → DelegateOptions
      → (view : Bytes → PublicKey → Result (RpcError J) AccessKeyView)
        (latest_block_height : Result (RpcError J) ℕ)
      → S
      → Option (Signer E S)
      → Result (DelegateError J E) (SignedDelegateAction b) × S
  delegate_signer builder options view latest_block_height s none = (err (other no_signer), s)
  delegate_signer builder options view latest_block_height s (some signer) =
      let (key, s') = signer.key s in
      (delegate_with builder options view latest_block_height signer key, s')

  abbrev pub delegate_actions :
      Builder b c J E S R A
      → DelegateOptions
      → (view : Bytes → PublicKey → Result (RpcError J) AccessKeyView)
        (latest_block_height : Result (RpcError J) ℕ)
      → S
      → List (Action b)
      → Result (DelegateError J E) (SignedDelegateAction b) × S
  delegate_actions builder options view latest_block_height s [] = (err (other no_actions), s)
  delegate_actions builder options view latest_block_height s (a ∷ actions) =
      if any_delegate b (a ∷ actions)
      then (err nested_delegate, s)
      else delegate_signer builder options view latest_block_height s
          (chosen_signer b c J E S R A builder)

  -- `TransactionBuilder::delegate`: its result, and the state of the signer.
  unfoldable pub delegate :
      Builder b c J E S R A
      → DelegateOptions
      → (view : Bytes → PublicKey → Result (RpcError J) AccessKeyView)
        (latest_block_height : Result (RpcError J) ℕ)
      → S
      → Result (DelegateError J E) (SignedDelegateAction b) × S
  unfolding delegate_with any_delegate chosen_signer
  delegate builder options view latest_block_height s =
      delegate_actions builder options view latest_block_height s builder.actions

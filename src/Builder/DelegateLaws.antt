-- ===== src/Builder/DelegateLaws.antt =====
-- What a delegate action holds that `delegate` made.
use near_kit_rs.Prelude.{ℕ, ◌≡◌, refl, true, List, [], ◌∷◌, map, Bytes, Result, ok, err}
use near_kit_rs.Borsh.{Borsh}
use near_kit_rs.Key.{Crypto, PublicKey}
use near_kit_rs.Action.{
  Action, NonDelegateActions, delegate_action, SignedDelegateAction, signed_delegate, to_list,
  inner,
}
use near_kit_rs.Action.Delegate.{get_hash}
use near_kit_rs.Client.Errors.{RpcError}
use near_kit_rs.Client.Signers.{Signer}
use near_kit_rs.Client.Send.{AccessKeyView, Builder}
use near_kit_rs.Builder.Delegate.{
  DelegateOptions, any_delegate, delegate_nonce, delegate_height, delegate_actions, nested_delegate,
}

module _ (b : Borsh) (c : Crypto) (J E S R A : Type 0) (builder : Builder b c J E S R A)
    (options : DelegateOptions) (view : Bytes → PublicKey → Result (RpcError J) AccessKeyView)
    (latest_block_height : Result (RpcError J) ℕ) (s : S) where
  -- What was delegated: the builder's actions for its receiver, by the account of the signer, with a
  -- nonce and a height as the options want them, signed by the key that the signer gave.
  abbrev pub IsDelegated : SignedDelegateAction b → Signer E S → Type 0
  IsDelegated (signed_delegate d signature) signer =
      (xs : NonDelegateActions b) × (nonce : ℕ) × (height : ℕ) × (d
        ≡ delegate_action signer.account_id builder.receiver_id xs nonce height
            (signer.key s).0.public_key)
      × (map (inner b) (to_list b xs) ≡ builder.actions)
      × (delegate_nonce b c J E S R A options.nonce
            (view signer.account_id (signer.key s).0.public_key)
          ≡ ok nonce)
      × (delegate_height b c J E S R A options.max_block_height options.block_height_offset
            latest_block_height
          ≡ ok height)
      × ((signer.key s).0.sign (get_hash b c d) ≡ ok signature)

  nested :
      (xs : List (Action b))
      → any_delegate b xs ≡ true
      → delegate_actions b c J E S R A builder options view latest_block_height s xs
        ≡ (err nested_delegate, s)
  unfolding any_delegate
  nested [] h = cc
  nested (a ∷ xs) h = rw (h) refl

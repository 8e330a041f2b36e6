-- ===== src/Action/Codec.antt =====
-- The borsh codec of `Action` and of the delegate actions in it. `deserialize_reader` of `Action`
-- calls that of `NonDelegateAction`, which calls that of `Action`: the model gives the outer codec
-- the inner one, and `nested d` follows `d` such calls.
use near_kit_rs.Prelude.{
  ℕ, zero, suc, Bool, ◌||◌, [], ◌++◌, Bytes, ok, err, ◌>>=◌, ◌==◌, if◌then◌else◌,
}
use near_kit_rs.Borsh.{
  Borsh, Codec, Reader, ◌⊗◌, convert, vec, invalid_data, invalid_input, too_deep,
}
use near_kit_rs.Key.{Crypto}
use near_kit_rs.Key.Wire.{public_key, signature}
use near_kit_rs.Action.Defs
use near_kit_rs.Action.Fields.{
  transaction_nonce, function_call_action, deploy_global_contract_action,
  deterministic_state_init_action, stake_action, add_key_action, transfer_to_gas_key_action,
  withdraw_from_gas_key_action,
}

module _ (b : Borsh) (c : Crypto) where
  -- The codecs that depend on the one for `NonDelegateAction`.
  module _ (n : Codec (Defs.NonDelegateAction b)) where
    unfoldable pub non_delegate_actions : Codec (Defs.NonDelegateActions b)
    non_delegate_actions = convert (Defs.of_list b) (Defs.to_list b) (vec b n)

    unfoldable pub delegate_action : Codec (Defs.DelegateAction b)
    unfolding non_delegate_actions
    delegate_action =
        convert
          (λ p.
            Defs.DelegateAction.delegate_action p.0 p.1.0 p.1.1.0 p.1.1.1.0 p.1.1.1.1.0 p.1.1.1.1.1)
          (elim [ Defs.DelegateAction.delegate_action s r xs m h k ↦ (s, (r, (xs, (m, (h, k))))) ])
          (b.account_id ⊗ b.account_id ⊗ non_delegate_actions ⊗ b.u64 ⊗ b.u64 ⊗ public_key b c)

    unfoldable pub signed_delegate_action : Codec (Defs.SignedDelegateAction b)
    unfolding delegate_action
    signed_delegate_action =
        convert (λ p. Defs.SignedDelegateAction.signed_delegate p.0 p.1)
          (elim [ Defs.SignedDelegateAction.signed_delegate d s ↦ (d, s) ])
          (delegate_action ⊗ signature b)

    unfoldable pub delegate_action_v2 : Codec (Defs.DelegateActionV2 b)
    unfolding non_delegate_actions
    delegate_action_v2 =
        convert
          (λ p.
            Defs.DelegateActionV2.delegate_action_v2 p.0 p.1.0 p.1.1.0 p.1.1.1.0 p.1.1.1.1.0
              p.1.1.1.1.1)
          (elim [
            | Defs.DelegateActionV2.delegate_action_v2 s r xs m h k ↦ (s, (r, (xs, (m, (h, k)))))
          ])
          (b.account_id
            ⊗ b.account_id
            ⊗ non_delegate_actions
            ⊗ transaction_nonce b
            ⊗ b.u64
            ⊗ public_key b c)

    unfoldable pub variant_payload : ℕ → Reader (Defs.VersionedDelegateActionPayload b)
    unfolding delegate_action_v2
    variant_payload t r =
        if t == 0
        then (do
          (d, r') ← delegate_action_v2.get r
          ok (Defs.VersionedDelegateActionPayload.v2 d, r'))
        else err invalid_data

    put_payload : Defs.VersionedDelegateActionPayload b → Bytes
    unfolding delegate_action_v2
    put_payload (Defs.VersionedDelegateActionPayload.v2 d) = b.u8.put 0 ++ delegate_action_v2.put d

    unfoldable pub delegate_payload : Codec (Defs.VersionedDelegateActionPayload b)
    unfolding put_payload variant_payload
    delegate_payload = record {
      put = put_payload;
      get = λ r. (do (t, r') ← b.u8.get r; variant_payload t r');
    }

    unfoldable pub versioned_signed_delegate : Codec (Defs.VersionedSignedDelegateAction b)
    unfolding delegate_payload
    versioned_signed_delegate =
        convert (λ p. Defs.VersionedSignedDelegateAction.versioned_signed_delegate p.0 p.1)
          (elim [ Defs.VersionedSignedDelegateAction.versioned_signed_delegate d s ↦ (d, s) ])
          (delegate_payload ⊗ signature b)

    unfoldable pub put_action : Defs.Action b → Bytes
    put_action Defs.Action.create_account = b.u8.put 0
    put_action (Defs.Action.deploy_contract code) = b.u8.put 1 ++ b.byte_vec.put code
    put_action (Defs.Action.function_call f) = b.u8.put 2 ++ (function_call_action b).put f
    put_action (Defs.Action.transfer deposit) = b.u8.put 3 ++ b.near_token.put deposit
    put_action (Defs.Action.stake s) = b.u8.put 4 ++ (stake_action b c).put s
    put_action (Defs.Action.add_key a) = b.u8.put 5 ++ (add_key_action b c).put a
    put_action (Defs.Action.delete_key k) = b.u8.put 6 ++ (public_key b c).put k
    put_action (Defs.Action.delete_account a) = b.u8.put 7 ++ b.account_id.put a
    put_action (Defs.Action.delegate d) = b.u8.put 8 ++ signed_delegate_action.put d
    put_action (Defs.Action.deploy_global_contract d) =
        b.u8.put 9 ++ (deploy_global_contract_action b).put d
    put_action (Defs.Action.use_global_contract g) = b.u8.put 10 ++ b.global_contract_id.put g
    put_action (Defs.Action.deterministic_state_init d) =
        b.u8.put 11 ++ (deterministic_state_init_action b).put d
    put_action (Defs.Action.transfer_to_gas_key t) =
        b.u8.put 12 ++ (transfer_to_gas_key_action b c).put t
    put_action (Defs.Action.withdraw_from_gas_key t) =
        b.u8.put 13 ++ (withdraw_from_gas_key_action b c).put t
    put_action (Defs.Action.delegate_v2 d) = b.u8.put 14 ++ versioned_signed_delegate.put d

    -- `Action::deserialize_variant`
    unfoldable pub deserialize_variant : ℕ → Reader (Defs.Action b)
    deserialize_variant t r =
        if t == 0
        then ok (Defs.Action.create_account, r)
        else if t == 1
        then (do (x, r') ← b.byte_vec.get r; ok (Defs.Action.deploy_contract x, r'))
        else if t == 2
        then (do (x, r') ← (function_call_action b).get r; ok (Defs.Action.function_call x, r'))
        else if t == 3
        then (do (x, r') ← b.near_token.get r; ok (Defs.Action.transfer x, r'))
        else if t == 4
        then (do (x, r') ← (stake_action b c).get r; ok (Defs.Action.stake x, r'))
        else if t == 5
        then (do (x, r') ← (add_key_action b c).get r; ok (Defs.Action.add_key x, r'))
        else if t == 6
        then (do (x, r') ← (public_key b c).get r; ok (Defs.Action.delete_key x, r'))
        else if t == 7
        then (do (x, r') ← b.account_id.get r; ok (Defs.Action.delete_account x, r'))
        else if t == 8
        then (do (x, r') ← signed_delegate_action.get r; ok (Defs.Action.delegate x, r'))
        else if t == 9
        then (do
          (x, r') ← (deploy_global_contract_action b).get r
          ok (Defs.Action.deploy_global_contract x, r'))
        else if t == 10
        then (do (x, r') ← b.global_contract_id.get r; ok (Defs.Action.use_global_contract x, r'))
        else if t == 11
        then (do
          (x, r') ← (deterministic_state_init_action b).get r
          ok (Defs.Action.deterministic_state_init x, r'))
        else if t == 12
        then (do
          (x, r') ← (transfer_to_gas_key_action b c).get r
          ok (Defs.Action.transfer_to_gas_key x, r'))
        else if t == 13
        then (do
          (x, r') ← (withdraw_from_gas_key_action b c).get r
          ok (Defs.Action.withdraw_from_gas_key x, r'))
        else if t == 14
        then (do (x, r') ← versioned_signed_delegate.get r; ok (Defs.Action.delegate_v2 x, r'))
        else err invalid_data

    abbrev pub action_over : Codec (Defs.Action b)
    action_over = record {
      put = put_action;
      get = λ r. (do (t, r') ← b.u8.get r; deserialize_variant t r');
    }

    -- `DELEGATE_VARIANT_DISCRIMINANTS.contains`
    abbrev pub is_delegate_variant : ℕ → Bool
    is_delegate_variant t = t == 8 || t == 14

    unfoldable pub get_non_delegate : Reader (Defs.NonDelegateAction b)
    get_non_delegate r = do
      (t, r') ← b.u8.get r
      if is_delegate_variant t then err invalid_input else (do
        (a, r'') ← deserialize_variant t r'
        ok (Defs.NonDelegateAction.non_delegate a, r''))

    abbrev pub non_delegate_over : Codec (Defs.NonDelegateAction b)
    non_delegate_over = record { put = λ a. put_action (Defs.inner b a); get = get_non_delegate }

  -- The codec of `NonDelegateAction`, with calls down to the given depth.
  unfoldable pub nested : ℕ → Codec (Defs.NonDelegateAction b)
  nested zero = record { put = λ a. []; get = λ r. err too_deep }
  nested (suc d) = non_delegate_over (nested d)

  -- The codec of `Action`, over that of the actions nested in it. The depth 1 serves for every
  -- input: a `NonDelegateAction` calls no codec of another one.
  unfoldable pub action_at : ℕ → Codec (Defs.Action b)
  action_at d = action_over (nested d)

  abbrev pub action : Codec (Defs.Action b)
  action = action_at 1

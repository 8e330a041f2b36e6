-- ===== src/Action/Round.antt =====
-- Actions are read back as written, the delegate actions in them included.
use near_kit_rs.Prelude.{
  ℕ, suc, ◌<◌, ◌≡◌, refl, sym, false, [], ◌∷◌, ◌++◌, append_assoc, append-nil, Bytes, List, All, ok,
  arith,
}
use near_kit_rs.Borsh.{Borsh, IsBorsh, Codec, RoundTrips}
use near_kit_rs.Key.{Crypto}
use near_kit_rs.Key.Wire.{public_key_round, signature_round}
use near_kit_rs.Action.Defs
use near_kit_rs.Action.Defs.{Action, NonDelegateAction}
use near_kit_rs.Action.Codec
use near_kit_rs.Action.Codec.{
  action_over, non_delegate_over, is_delegate_variant, action, action_at,
}
use near_kit_rs.Action.FieldsRound
use near_kit_rs.Action.FieldsRound.{tag_round, bare_tag_round}
use near_kit_rs.Action.WellFormed.{
  IsPlainAction, IsNonDelegateAction, IsNonDelegateActions, IsDelegateAction, IsSignedDelegate,
  IsDelegateActionV2, IsPayload, IsVersionedSignedDelegate, IsAction,
}

module _ (b : Borsh) (c : Crypto) (w : IsBorsh b) where
  module _ (n : Codec (NonDelegateAction b)) where
    -- An action that is no delegate: a tag which is none of a delegate, and fields that are read back.
    plain_parts :
        (a : Action b)
        → IsPlainAction b c a
        → (t : ℕ) × (body : Bytes) × (Codec.put_action b c n a ≡ b.u8.put t ++ body)
          × (t < 256)
          × (Codec.is_delegate_variant b c n t ≡ false)
          × ((rest : Bytes) → Codec.deserialize_variant b c n t (body ++ rest) ≡ ok (a, rest))
    unfolding Codec.put_action Codec.deserialize_variant
    plain_parts Action.create_account h =
        (0, [], sym (append-nil _), omega arith, refl, λ rest. refl)
    plain_parts (Action.deploy_contract code) h =
        (1, _, refl, omega arith, refl, λ rest. rw (w.byte_vec_round code h rest))
    plain_parts (Action.function_call f) h = (
      2,
      _,
      refl,
      omega arith,
      refl,
      λ rest. rw (FieldsRound.function_call_action_round b w f h rest),
    )
    plain_parts (Action.transfer deposit) h =
        (3, _, refl, omega arith, refl, λ rest. rw (w.near_token_round deposit h rest))
    plain_parts (Action.stake s) (h, k) = (
      4,
      _,
      refl,
      omega arith,
      refl,
      λ rest. rw (FieldsRound.stake_action_round b c w s h k rest),
    )
    plain_parts (Action.add_key a) (h, k) = (
      5,
      _,
      refl,
      omega arith,
      refl,
      λ rest. rw (FieldsRound.add_key_action_round b c w a h k rest),
    )
    plain_parts (Action.delete_key k) h =
        (6, _, refl, omega arith, refl, λ rest. rw (public_key_round b c w k h rest))
    plain_parts (Action.delete_account a) h =
        (7, _, refl, omega arith, refl, λ rest. rw (w.account_id_round a h rest))
    plain_parts (Action.deploy_global_contract d) h = (
      9,
      _,
      refl,
      omega arith,
      refl,
      λ rest. rw (FieldsRound.deploy_global_contract_action_round b w d h rest),
    )
    plain_parts (Action.use_global_contract g) h =
        (10, _, refl, omega arith, refl, λ rest. rw (w.global_contract_id_round g h rest))
    plain_parts (Action.deterministic_state_init d) (h, k) = (
      11,
      _,
      refl,
      omega arith,
      refl,
      λ rest. rw (FieldsRound.deterministic_state_init_action_round b w d h k rest),
    )
    plain_parts (Action.transfer_to_gas_key t) (h, k) = (
      12,
      _,
      refl,
      omega arith,
      refl,
      λ rest. rw (FieldsRound.transfer_to_gas_key_action_round b c w t h k rest),
    )
    plain_parts (Action.withdraw_from_gas_key t) (h, k) = (
      13,
      _,
      refl,
      omega arith,
      refl,
      λ rest. rw (FieldsRound.withdraw_from_gas_key_action_round b c w t h k rest),
    )
    plain_parts (Action.delegate _) h = absurd h
    plain_parts (Action.delegate_v2 _) h = absurd h

    pub plain_round : (a : Action b) → IsPlainAction b c a → RoundTrips (action_over b c n) a
    plain_round a h rest =
        let (t, body, written, small, plain, read) = plain_parts a h in
        rw (written, tag_round b w t body rest small) (read rest)

    pub non_delegate_round :
        (x : NonDelegateAction b)
        → IsNonDelegateAction b c x
        → RoundTrips (non_delegate_over b c n) x
    unfolding Defs.inner Codec.get_non_delegate
    non_delegate_round (NonDelegateAction.non_delegate a) h rest =
        let (t, body, written, small, plain, read) = plain_parts a h in
        rw (written, tag_round b w t body rest small, plain) (rw (read rest))

  nested_round :
      (d : ℕ) (x : NonDelegateAction b)
      → IsNonDelegateAction b c x
      → RoundTrips (Codec.nested b c (suc d)) x
  unfolding Codec.nested
  nested_round d x h = non_delegate_round (Codec.nested b c d) x h

  All-nested :
      (d : ℕ) (xs : List (NonDelegateAction b))
      → All (IsNonDelegateAction b c) xs
      → All (RoundTrips (Codec.nested b c (suc d))) xs
  All-nested d [] h = tt
  All-nested d (x ∷ xs) (h, hs) = (nested_round d x h, All-nested d xs hs)

  actions_round :
      (d : ℕ) (xs : Defs.NonDelegateActions b)
      → IsNonDelegateActions b c xs
      → RoundTrips (Codec.non_delegate_actions b c (Codec.nested b c (suc d))) xs
  unfolding Codec.non_delegate_actions
  actions_round d xs (h, k) rest = rw (
    w.vec_round (Codec.nested b c (suc d)) (Defs.to_list b xs) (All-nested d (Defs.to_list b xs) h)
        k,
    Defs.of_list-to_list,
  )

  delegate_action_round :
      (d : ℕ) (a : Defs.DelegateAction b)
      → IsDelegateAction b c a
      → RoundTrips (Codec.delegate_action b c (Codec.nested b c (suc d))) a
  unfolding Codec.delegate_action
  delegate_action_round d (Defs.DelegateAction.delegate_action s r xs n m k)
        (hs, hr, hx, hn, hm, hk) rest =
      rw (
        append_assoc,
        w.account_id_round s hs,
        append_assoc,
        w.account_id_round r hr,
        append_assoc,
        actions_round d xs hx,
        append_assoc,
        w.u64_round n hn,
        append_assoc,
        w.u64_round m hm,
        public_key_round b c w k hk,
      )

  pub signed_delegate_round :
      (d : ℕ) (a : Defs.SignedDelegateAction b)
      → IsSignedDelegate b c a
      → RoundTrips (Codec.signed_delegate_action b c (Codec.nested b c (suc d))) a
  unfolding Codec.signed_delegate_action
  signed_delegate_round d (Defs.SignedDelegateAction.signed_delegate a s) (h, k) rest =
      rw (append_assoc, delegate_action_round d a h, signature_round b w s k)

  delegate_action_v2_round :
      (d : ℕ) (a : Defs.DelegateActionV2 b)
      → IsDelegateActionV2 b c a
      → RoundTrips (Codec.delegate_action_v2 b c (Codec.nested b c (suc d))) a
  unfolding Codec.delegate_action_v2
  delegate_action_v2_round d (Defs.DelegateActionV2.delegate_action_v2 s r xs n m k)
        (hs, hr, hx, hn, hm, hk) rest =
      rw (
        append_assoc,
        w.account_id_round s hs,
        append_assoc,
        w.account_id_round r hr,
        append_assoc,
        actions_round d xs hx,
        append_assoc,
        FieldsRound.transaction_nonce_round b w n hn,
        append_assoc,
        w.u64_round m hm,
        public_key_round b c w k hk,
      )

  payload_round :
      (d : ℕ) (p : Defs.VersionedDelegateActionPayload b)
      → IsPayload b c p
      → RoundTrips (Codec.delegate_payload b c (Codec.nested b c (suc d))) p
  unfolding Codec.delegate_payload
  payload_round d (Defs.VersionedDelegateActionPayload.v2 a) h rest =
      rw (tag_round b w 0 _ rest (omega arith), delegate_action_v2_round d a h rest)

  pub versioned_signed_delegate_round :
      (d : ℕ) (a : Defs.VersionedSignedDelegateAction b)
      → IsVersionedSignedDelegate b c a
      → RoundTrips (Codec.versioned_signed_delegate b c (Codec.nested b c (suc d))) a
  unfolding Codec.versioned_signed_delegate
  versioned_signed_delegate_round d
        (Defs.VersionedSignedDelegateAction.versioned_signed_delegate p s) (h, k) rest =
      rw (append_assoc, payload_round d p h, signature_round b w s k)

  -- Given the laws of the borsh codecs, at any depth above 0 every well-formed action, delegate
  -- actions included, is read back from the bytes written for it, whatever bytes follow.
  pub action_round : (d : ℕ) (a : Action b) → IsAction b c a → RoundTrips (action_at b c (suc d)) a
  unfolding Codec.action_at Codec.put_action Codec.deserialize_variant
  action_round d (Action.delegate a) h rest =
      rw (tag_round b w 8 _ rest (omega arith), signed_delegate_round d a h rest)
  action_round d (Action.delegate_v2 a) h rest =
      rw (tag_round b w 14 _ rest (omega arith), versioned_signed_delegate_round d a h rest)
  action_round d a h rest = plain_round (Codec.nested b c (suc d)) a h rest

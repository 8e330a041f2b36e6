-- ===== src/Action/Reads.antt =====
-- What reading an action returns holds no delegate action inside another one, whatever the input.
use mathlib.Core.Path.{subst, fun_ext}
use near_kit_rs.Prelude.{
  ℕ, suc, ◌≡◌, refl, sym, ap, List, [], ◌∷◌, Bytes, All, ok, ◌==◌, Result, ◌>>=◌, >>=-eq-ok,
}
use near_kit_rs.Borsh.{Borsh, IsBorsh, Codec, Reader, IoError, ◌⊗◌}
use near_kit_rs.Borsh.Laws.{
  Reads, ⊗-Reads, convert-Reads, Returns, if-Returns, ok-Returns, err-Returns, map-Returns,
}
use near_kit_rs.Key.{Crypto}
use near_kit_rs.Key.Wire.{public_key, signature}
use near_kit_rs.Action.Fields.{transaction_nonce}
use near_kit_rs.Action.Defs
use near_kit_rs.Action.Defs.{Action, NonDelegateAction}
use near_kit_rs.Action.Codec
use near_kit_rs.Action.Codec.{action}
use near_kit_rs.Action.Nesting.{IsPlain, nested_get, non_delegate-Reads}

-- The actions in the delegate action that an action may be are no delegates.
module _ (b : Borsh) where
  abbrev AllPlain : Defs.NonDelegateActions b → Type 0
  AllPlain xs = All (IsPlain b) (Defs.to_list b xs)

  abbrev PlainDelegate : Defs.DelegateAction b → Type 0
  PlainDelegate (Defs.DelegateAction.delegate_action _ _ xs _ _ _) = AllPlain xs

  abbrev PlainSigned : Defs.SignedDelegateAction b → Type 0
  PlainSigned (Defs.SignedDelegateAction.signed_delegate d _) = PlainDelegate d

  abbrev PlainDelegateV2 : Defs.DelegateActionV2 b → Type 0
  PlainDelegateV2 (Defs.DelegateActionV2.delegate_action_v2 _ _ xs _ _ _) = AllPlain xs

  abbrev PlainPayload : Defs.VersionedDelegateActionPayload b → Type 0
  PlainPayload (Defs.VersionedDelegateActionPayload.v2 d) = PlainDelegateV2 d

  abbrev PlainVersioned : Defs.VersionedSignedDelegateAction b → Type 0
  PlainVersioned (Defs.VersionedSignedDelegateAction.versioned_signed_delegate p _) = PlainPayload p

  abbrev pub HoldsPlainActions : Action b → Type 0
  HoldsPlainActions (Action.delegate d) = PlainSigned d
  HoldsPlainActions (Action.delegate_v2 d) = PlainVersioned d
  HoldsPlainActions _ = Unit

abbrev Any : {A : Type 0} → A → Type 0
Any _ = Unit

anything : {A : Type 0} (g : Reader A) → Reads Any g
anything g r a rest e = tt

to_list-of_list :
    (b : Borsh) (xs : List (NonDelegateAction b)) → Defs.to_list b (Defs.of_list b xs) ≡ xs
to_list-of_list b [] = refl
to_list-of_list b (x ∷ xs) = ap (x ∷◌) (to_list-of_list b xs)

module _ (b : Borsh) (c : Crypto) (w : IsBorsh b) (n : Codec (NonDelegateAction b))
    (plain : Reads (IsPlain b) n.get) where
  actions-Reads : Reads (AllPlain b) (Codec.non_delegate_actions b c n).get
  unfolding Codec.non_delegate_actions
  actions-Reads = convert-Reads (AllPlain b) (Defs.of_list b) _ (λ r xs rest e.
      subst (All (IsPlain b)) (sym (to_list-of_list b xs))
        (w.vec_reads (IsPlain b) n.get plain r xs rest e))

  delegate-Reads : Reads (PlainDelegate b) (Codec.delegate_action b c n).get
  unfolding Codec.delegate_action
  delegate-Reads = convert-Reads (PlainDelegate b) _ _ (λ r p rest e.
      (⊗-Reads _ _ _ _ (anything b.account_id.get)
        (⊗-Reads _ _ _ _ (anything b.account_id.get)
          (⊗-Reads _ _ _ _ actions-Reads (anything (b.u64 ⊗ b.u64 ⊗ public_key b c).get)))
        r p rest e).1.1.0)

  delegate_v2-Reads : Reads (PlainDelegateV2 b) (Codec.delegate_action_v2 b c n).get
  unfolding Codec.delegate_action_v2
  delegate_v2-Reads = convert-Reads (PlainDelegateV2 b) _ _ (λ r p rest e.
      (⊗-Reads _ _ _ _ (anything b.account_id.get)
        (⊗-Reads _ _ _ _ (anything b.account_id.get) (
          ⊗-Reads _ _ _ _ actions-Reads
            (anything (transaction_nonce b ⊗ b.u64 ⊗ public_key b c).get)))
        r p rest e).1.1.0)

  signed-Reads : Reads (PlainSigned b) (Codec.signed_delegate_action b c n).get
  unfolding Codec.signed_delegate_action
  signed-Reads =
      convert-Reads (PlainSigned b) _ _
        (λ r p rest e. (⊗-Reads _ _ _ _ delegate-Reads (anything (signature b).get) r p rest e).0)

  payload-Reads : Reads (PlainPayload b) (Codec.delegate_payload b c n).get
  unfolding Codec.delegate_payload Codec.variant_payload
  payload-Reads r p rest e =
      let ((t, r'), _, e') = >>=-eq-ok (b.u8.get r) _ e in
      if-Returns (PlainPayload b) (t == 0) _ _
        (λ _.
          map-Returns (PlainPayload b) (PlainDelegateV2 b) _ _ (delegate_v2-Reads r') (λ _ h. h))
        (λ _. err-Returns (PlainPayload b) _) p rest e'

  versioned-Reads : Reads (PlainVersioned b) (Codec.versioned_signed_delegate b c n).get
  unfolding Codec.versioned_signed_delegate
  versioned-Reads =
      convert-Reads (PlainVersioned b) _ _
        (λ r p rest e. (⊗-Reads _ _ _ _ payload-Reads (anything (signature b).get) r p rest e).0)

  other :
      {A : Type 0} (m : Result IoError (A × Bytes)) (f : A → Action b)
      → ((x : A) → HoldsPlainActions b (f x))
      → Returns (HoldsPlainActions b) (m >>= λ p. ok (f p.0, p.1))
  other m f h = map-Returns (HoldsPlainActions b) Any m f (λ _ _ _. tt) (λ x _. h x)

  variant-Reads : (t : ℕ) → Reads (HoldsPlainActions b) (Codec.deserialize_variant b c n t)
  unfolding Codec.deserialize_variant
  variant-Reads t r =
      if-Returns (HoldsPlainActions b) (t == 0) _ _ (λ _. ok-Returns (HoldsPlainActions b) _ _ tt)
        (λ _.
          if-Returns (HoldsPlainActions b) (t == 1) _ _ (λ _. other _ _ (λ _. tt))
            (λ _.
              if-Returns (HoldsPlainActions b) (t == 2) _ _ (λ _. other _ _ (λ _. tt))
                (λ _.
                  if-Returns (HoldsPlainActions b) (t == 3) _ _ (λ _. other _ _ (λ _. tt))
                    (λ _.
                      if-Returns (HoldsPlainActions b) (t == 4) _ _ (λ _. other _ _ (λ _. tt))
                        (λ _.
                          if-Returns (HoldsPlainActions b) (t == 5) _ _ (λ _. other _ _ (λ _. tt))
                            (λ _.
                              if-Returns (HoldsPlainActions b) (t == 6) _ _
                                (λ _. other _ _ (λ _. tt))
                                (λ _.
                                  if-Returns (HoldsPlainActions b) (t == 7) _ _
                                    (λ _. other _ _ (λ _. tt))
                                    (λ _.
                                      if-Returns (HoldsPlainActions b) (t == 8) _ _
                                        (λ _.
                                          map-Returns (HoldsPlainActions b) (PlainSigned b) _ _
                                            (signed-Reads r) (λ _ h. h))
                                        (λ _.
                                          if-Returns (HoldsPlainActions b) (t == 9) _ _
                                            (λ _. other _ _ (λ _. tt))
                                            (λ _.
                                              if-Returns (HoldsPlainActions b) (t == 10) _ _
                                                (λ _. other _ _ (λ _. tt))
                                                (λ _.
                                                  if-Returns (HoldsPlainActions b) (t == 11) _ _
                                                    (λ _. other _ _ (λ _. tt))
                                                    (λ _.
                                                      if-Returns (HoldsPlainActions b) (t == 12) _ _
                                                        (λ _. other _ _ (λ _. tt))
                                                        (λ _.
                                                          if-Returns (HoldsPlainActions b) (t == 13)
                                                            _ _ (λ _. other _ _ (λ _. tt))
                                                            (λ _.
                                                            if-Returns (HoldsPlainActions b)
                                                            (t == 14) _ _
                                                            (λ _.
                                                            map-Returns (HoldsPlainActions b)
                                                            (PlainVersioned b) _ _
                                                            (versioned-Reads r) (λ _ h. h))
                                                            (λ _.
                                                            err-Returns (HoldsPlainActions b)
                                                            _)))))))))))))))

module _ (b : Borsh) (c : Crypto) (w : IsBorsh b) where
  -- Given the laws of the borsh codecs, whatever bytes are read as an action, the actions inside a
  -- delegate action are no delegate actions.
  pub action-get-HoldsPlainActions :
      (r : Bytes) (a : Action b) (rest : Bytes)
      → (action b c).get r ≡ ok (a, rest)
      → HoldsPlainActions b a
  unfolding Codec.action_at Codec.nested
  action-get-HoldsPlainActions r a rest e =
      let ((t, r'), _, e') = >>=-eq-ok (b.u8.get r) _ e in
      variant-Reads b c w (Codec.nested b c 1) (non_delegate-Reads b c (Codec.nested b c 0)) t r' a
        rest e'

  -- Reading an action uses the reader of the actions nested in it, and not their writer.
  variant_get :
      (n m : Codec (NonDelegateAction b))
      → n.get ≡ m.get
      → (t : ℕ) (r : Bytes)
      → Codec.deserialize_variant b c n t r ≡ Codec.deserialize_variant b c m t r
  unfolding Codec.deserialize_variant Codec.signed_delegate_action Codec.delegate_action
      Codec.non_delegate_actions Codec.versioned_signed_delegate Codec.delegate_payload
      Codec.variant_payload Codec.delegate_action_v2
  variant_get n m e t r =
      ap (λ g. Codec.deserialize_variant b c (record { put = n.put; get = g }) t r) e

  -- Reading an action with any depth of nested calls from 1 on gives what depth 1 gives, so that
  -- the depth never cuts a read short.
  pub action_at_depth :
      (d : ℕ) (r : Bytes) → (Codec.action_at b c (suc d)).get r ≡ (action b c).get r
  unfolding Codec.action_at
  action_at_depth d r =
      ap (λ f. b.u8.get r >>= λ x. f x.0 x.1)
        (fun_ext (λ t. fun_ext (λ r'. variant_get _ _ (nested_get b c d) t r')))

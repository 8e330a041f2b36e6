-- ===== src/Action/FromAction.antt =====
-- `NonDelegateAction::from_action` of types/action.rs beside the reader of `NonDelegateAction`.
use near_kit_rs.Prelude.{
  ℕ, ◌<◌, ◌≡◌, refl, ◌∙◌, sym, ap, Option, none, some, true, ◌++◌, Bytes, Result, ok, err, arith,
}
use near_kit_rs.Borsh.{Borsh, IsBorsh, IoError, invalid_input}
use near_kit_rs.Key.{Crypto}
use near_kit_rs.Action.Defs
use near_kit_rs.Action.Defs.{Action, NonDelegateAction}
use near_kit_rs.Action.Codec
use near_kit_rs.Action.Codec.{action, is_delegate_variant}
use near_kit_rs.Action.FieldsRound.{tag_round}
use near_kit_rs.Action.WellFormed.{IsPlainAction, IsAction}
use near_kit_rs.Action.Nesting.{nested_get}
use near_kit_rs.Action.Round.{non_delegate_round}

module _ (b : Borsh) (c : Crypto) where
  -- An action that is taken, or the error of the reader.
  abbrev pub or_invalid_input :
      Option (NonDelegateAction b) → Bytes → Result IoError (NonDelegateAction b × Bytes)
  or_invalid_input none rest = err invalid_input
  or_invalid_input (some x) rest = ok (x, rest)

  plain_read :
      IsBorsh b
      → (a : Action b) (rest : Bytes) → IsPlainAction b c a
      → (Codec.nested b c 1).get ((action b c).put a ++ rest)
        ≡ ok (NonDelegateAction.non_delegate a, rest)
  unfolding Codec.nested Codec.action_at Defs.inner
  plain_read w a rest h =
      ap (λ g. g ((action b c).put a ++ rest)) (sym (nested_get b c 1))
      ∙ non_delegate_round b c w (Codec.nested b c 1) (NonDelegateAction.non_delegate a) h rest

  refused :
      IsBorsh b
      → (t : ℕ) (body rest : Bytes) → t < 256
      → is_delegate_variant b c (Codec.nested b c 0) t ≡ true
      → (Codec.nested b c 1).get ((b.u8.put t ++ body) ++ rest) ≡ err invalid_input
  unfolding Codec.nested Codec.get_non_delegate
  refused w t body rest small h = rw (tag_round b w t body rest small, h) refl

  -- Given the laws of the borsh codecs, reading the bytes of a well-formed action as a
  -- `NonDelegateAction` gives what `from_action` makes of the action and leaves the bytes that
  -- follow, and gives the error for a delegate action where `from_action` gives none.
  pub from_action-get :
      IsBorsh b
      → (a : Action b) (rest : Bytes) → IsAction b c a
      → (Codec.nested b c 1).get ((action b c).put a ++ rest)
        ≡ or_invalid_input (Defs.from_action b a) rest
  unfolding Defs.from_action Codec.action_at Codec.put_action
  from_action-get w (Action.delegate d) rest h = refused w 8 _ rest (omega arith) refl
  from_action-get w (Action.delegate_v2 d) rest h = refused w 14 _ rest (omega arith) refl
  from_action-get w a rest h = plain_read w a rest h

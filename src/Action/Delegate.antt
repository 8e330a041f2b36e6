-- ===== src/Action/Delegate.antt =====
-- What is signed for a delegate action, and the verification of a signed one.
use near_kit_rs.Prelude.{ℕ, ◌≡◌, Bool, List, ◌++◌, Bytes, map, ok}
use near_kit_rs.Borsh.{Borsh, IsBorsh, Io, to_le_bytes, from_slice}
use near_kit_rs.Borsh.Laws.{from_slice-put}
use near_kit_rs.Key.{Crypto, PublicKey}
use near_kit_rs.Key.Verify.{verify}
use near_kit_rs.Action.Defs.{
  Action, inner, to_list, DelegateAction, SignedDelegateAction, delegate_action_v2,
  VersionedDelegateActionPayload, v2, VersionedSignedDelegateAction, versioned_signed_delegate,
}
use near_kit_rs.Action.Codec
use near_kit_rs.Action.WellFormed.{IsSignedDelegate, IsVersionedSignedDelegate}
use near_kit_rs.Action.Round.{signed_delegate_round, versioned_signed_delegate_round}

abbrev pub delegate_action_prefix : ℕ
delegate_action_prefix = 1073742190

abbrev pub delegate_v2_action_prefix : ℕ
delegate_v2_action_prefix = 1073742435

module _ (b : Borsh) (c : Crypto) where
  unfoldable pub serialize_for_signing : DelegateAction b → Bytes
  serialize_for_signing d =
      to_le_bytes 4 delegate_action_prefix ++ (Codec.delegate_action b c (Codec.nested b c 1)).put d

  unfoldable pub get_hash : DelegateAction b → Bytes
  unfolding serialize_for_signing
  get_hash d = c.sha256 (serialize_for_signing d)

  unfoldable pub serialize_payload_for_signing : VersionedDelegateActionPayload b → Bytes
  serialize_payload_for_signing p =
      to_le_bytes 4 delegate_v2_action_prefix
      ++ (Codec.delegate_payload b c (Codec.nested b c 1)).put p

  unfoldable pub get_payload_hash : VersionedDelegateActionPayload b → Bytes
  unfolding serialize_payload_for_signing
  get_payload_hash p = c.sha256 (serialize_payload_for_signing p)

  unfoldable pub payload_public_key : VersionedDelegateActionPayload b → PublicKey
  payload_public_key (v2 (delegate_action_v2 _ _ _ _ _ key)) = key

  unfoldable pub get_actions : VersionedDelegateActionPayload b → List (Action b)
  get_actions (v2 (delegate_action_v2 _ _ xs _ _ _)) = map (inner b) (to_list b xs)

  unfoldable pub verify_versioned : VersionedSignedDelegateAction b → Bool
  unfolding get_payload_hash payload_public_key
  verify_versioned (versioned_signed_delegate p s) =
      verify c s (get_payload_hash p) (payload_public_key p)

  unfoldable pub signed_to_bytes : SignedDelegateAction b → Bytes
  signed_to_bytes d = (Codec.signed_delegate_action b c (Codec.nested b c 1)).put d

  unfoldable pub signed_from_bytes : Bytes → Io (SignedDelegateAction b)
  signed_from_bytes bytes = from_slice (Codec.signed_delegate_action b c (Codec.nested b c 1)) bytes

  unfoldable pub versioned_to_bytes : VersionedSignedDelegateAction b → Bytes
  versioned_to_bytes d = (Codec.versioned_signed_delegate b c (Codec.nested b c 1)).put d

  unfoldable pub versioned_from_bytes : Bytes → Io (VersionedSignedDelegateAction b)
  versioned_from_bytes bytes =
      from_slice (Codec.versioned_signed_delegate b c (Codec.nested b c 1)) bytes

module _ (b : Borsh) (c : Crypto) (w : IsBorsh b) where
  -- Given the laws of the borsh codecs, a well-formed signed delegate action is read back from the
  -- bytes for transport.
  pub signed_from_bytes-to_bytes :
      (d : SignedDelegateAction b)
      → IsSignedDelegate b c d
      → signed_from_bytes b c (signed_to_bytes b c d) ≡ ok d
  unfolding signed_from_bytes signed_to_bytes
  signed_from_bytes-to_bytes d h = from_slice-put _ d (signed_delegate_round b c w 0 d h)

  -- Given the laws of the borsh codecs, a well-formed versioned signed delegate action is read back
  -- from the bytes for transport.
  pub versioned_from_bytes-to_bytes :
      (d : VersionedSignedDelegateAction b)
      → IsVersionedSignedDelegate b c d
      → versioned_from_bytes b c (versioned_to_bytes b c d) ≡ ok d
  unfolding versioned_from_bytes versioned_to_bytes
  versioned_from_bytes-to_bytes d h =
      from_slice-put _ d (versioned_signed_delegate_round b c w 0 d h)

-- ===== src/Transaction/Signing.antt =====
-- The four kinds of bytes that the program signs: no two kinds have bytes in common.
use near_kit_rs.Prelude.{ℕ, ◌≡◌, ◌≢◌, sym, ◌∙◌, [], ◌∷◌, ◌++◌, Bytes, arith, ◌≤◌, ap}
use near_kit_rs.Borsh.{Borsh, IsBorsh, to_le_bytes}
use near_kit_rs.Key.{Crypto}
use near_kit_rs.Action.{DelegateAction, VersionedDelegateActionPayload}
use near_kit_rs.Action.Delegate.{serialize_for_signing, serialize_payload_for_signing}
use near_kit_rs.Nep413.{SignMessageParams, message_bytes}
use near_kit_rs.Transaction.Defs.{VersionedTransaction, v0, v1}
use near_kit_rs.Transaction.Codec
use near_kit_rs.Transaction.Codec.{serialize_versioned}
use near_kit_rs.Transaction.Round.{IsVersionedTransaction}
use near_kit_rs.Transaction.Versions.{transaction_prefix}

heads_differ : (x y : ℕ) (xs ys : Bytes) → x ≢ y → x ∷ xs ≢ y ∷ ys
heads_differ x y xs ys h e = h (ap (elim [ [] ↦ x | z ∷ _ ↦ z ]) e)

module _ (b : Borsh) (c : Crypto) (w : IsBorsh b) where
  -- The second byte of a transaction is 0, or the first one is 1.
  transaction_not :
      (t : VersionedTransaction b)
      → IsVersionedTransaction b c t
      → (x y : ℕ) (xs : Bytes) → 2 ≤ x
      → 1 ≤ y
      → serialize_versioned b c t ≢ x ∷ y ∷ xs
  unfolding serialize_versioned
  transaction_not (v0 t) h x y xs _ low e =
      let (n, tail, e', _, _) = transaction_prefix b c w t h in
      let same : n ∷ 0 ∷ 0 ∷ 0 ∷ tail ≡ x ∷ y ∷ xs = sym e' ∙ e in
      let zero_y : 0 ≡ y = cc in absurd (omega arith)
  transaction_not (v1 t) h x y xs low _ e =
      let tagged = ap (λ u. u ++ (Codec.transaction_v1 b c).put t) (w.u8_put 1 (omega arith)) in
      let same = sym tagged ∙ e in let one_x : 1 ≡ x = cc in absurd (omega arith)

  -- Given the laws of the borsh codecs, the bytes signed for a well-formed transaction of either
  -- version, for any delegate action, versioned delegate action and off-chain message are pairwise
  -- different.
  pub signing_domains_disjoint :
      (t : VersionedTransaction b) (d : DelegateAction b) (p : VersionedDelegateActionPayload b)
      (m : SignMessageParams)
      → IsVersionedTransaction b c t
      → (serialize_versioned b c t ≢ serialize_for_signing b c d)
        × (serialize_versioned b c t ≢ serialize_payload_for_signing b c p)
        × (serialize_versioned b c t ≢ message_bytes b c m)
        × (serialize_for_signing b c d ≢ serialize_payload_for_signing b c p)
        × (serialize_for_signing b c d ≢ message_bytes b c m)
        × (serialize_payload_for_signing b c p ≢ message_bytes b c m)
  unfolding serialize_for_signing serialize_payload_for_signing message_bytes to_le_bytes
  signing_domains_disjoint t d p m h = (
    transaction_not t h _ _ _ (omega arith) (omega arith),
    transaction_not t h _ _ _ (omega arith) (omega arith),
    transaction_not t h _ _ _ (omega arith) (omega arith),
    heads_differ 110 99 _ _ (λ z. omega arith),
    heads_differ 110 157 _ _ (λ z. omega arith),
    heads_differ 99 157 _ _ (λ z. omega arith),
  )

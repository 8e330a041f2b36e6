-- ===== src/Nep413/Payload.antt =====
-- The bytes that are signed for a message tell its fields.
use near_kit_rs.Prelude.{
  ◌≡◌, sym, ap, ◌∙◌, Option, none, some, [], ◌++◌, append_assoc, Bytes, length, ok,
}
use near_kit_rs.Borsh.{Borsh, IsBorsh, RoundTrips, OptionAll, to_le_bytes}
use near_kit_rs.Borsh.Laws.{read_exact-append}
use near_kit_rs.Key.{Crypto}
use near_kit_rs.Action.WellFormed.{IsString}
use near_kit_rs.Nep413.Defs.{SignMessageParams, payload, message_bytes}

module _ (b : Borsh) where
  abbrev pub IsParams : SignMessageParams → Type 0
  IsParams p =
      IsString b p.message
      × (length p.nonce ≡ 32)
      × IsString b p.recipient
      × OptionAll (IsString b) p.callback_url

module _ (b : Borsh) (c : Crypto) (w : IsBorsh b) where
  strings_round : (o : Option Bytes) → OptionAll (IsString b) o → OptionAll (RoundTrips b.string) o
  strings_round none h = tt
  strings_round (some s) (h, k) = w.string_round s h k

  payload_round :
      (p : SignMessageParams)
      → IsParams b p
      → RoundTrips (payload b c) (p.message, (p.nonce, (p.recipient, p.callback_url)))
  unfolding payload
  payload_round p ((hm, km), hn, (hr, kr), hc) rest = rw (
    append_assoc,
    w.string_round p.message hm km,
    append_assoc,
    read_exact-append p.nonce _ 32 hn,
    append_assoc,
    w.string_round p.recipient hr kr,
    w.option_round b.string p.callback_url (strings_round p.callback_url hc),
  )

  -- Given the laws of the borsh codecs, well-formed messages for which the same bytes are signed
  -- agree in message, nonce, recipient and callback.
  pub message_bytes-injective :
      (p q : SignMessageParams)
      → IsParams b p
      → IsParams b q
      → message_bytes b c p ≡ message_bytes b c q
      → (p.message ≡ q.message)
        × (p.nonce ≡ q.nonce)
        × (p.recipient ≡ q.recipient)
        × (p.callback_url ≡ q.callback_url)
  unfolding message_bytes to_le_bytes
  message_bytes-injective p q h k e =
      let P : Bytes × (Bytes × (Bytes × Option Bytes)) =
        (p.message, (p.nonce, (p.recipient, p.callback_url))) in
      let Q : Bytes × (Bytes × (Bytes × Option Bytes)) =
        (q.message, (q.nonce, (q.recipient, q.callback_url))) in
      let same : (payload b c).put P ≡ (payload b c).put Q = cc in
      let first : (payload b c).get ((payload b c).put Q ++ []) ≡ ok (P, []) =
        ap (λ xs. (payload b c).get (xs ++ [])) (sym same) ∙ payload_round p h [] in
      let second = payload_round q k [] in
      let equal : P ≡ Q = cc in
      (ap (λ x. x.0) equal, ap (λ x. x.1.0) equal, ap (λ x. x.1.1.0) equal, ap (λ x. x.1.1.1) equal)

-- ===== src/Nep413/Verify.antt =====
-- What an accepted message has shown.
use near_kit_rs.Prelude.{
  ℕ, ◌+◌, ◌≤◌, ◌≡◌, refl, ◌↔◌, Bool, true, false, not, guard-true, Bytes, Result, ok, err,
  if◌then◌else◌, arith,
}
use near_kit_rs.Borsh.{Borsh}
use near_kit_rs.Key.{Crypto, PublicKey}
use near_kit_rs.Key.Verify.{verify}
use near_kit_rs.Nep413.Defs

-- The nonce is not checked, or it holds a time that is neither in the future nor too old.
abbrev pub Fresh : Defs.NonceValidation → ℕ → Bytes → Type 0
Fresh (Defs.NonceValidation.timestamp max_age) now_ms nonce =
    (Defs.extract_timestamp_from_nonce nonce ≤ now_ms)
    × (now_ms ≤ Defs.extract_timestamp_from_nonce nonce + Defs.as_millis max_age)
Fresh Defs.NonceValidation.no_validation now_ms nonce = Unit

module _ {E : Type 0} where
  holds_full_access_iff :
      (r : Result E Defs.AccessKeyPermissionView)
      → (Defs.holds_full_access r ≡ ok true) ↔ (r ≡ ok Defs.AccessKeyPermissionView.full_access)
  unfolding Defs.holds_full_access Defs.is_full_access
  holds_full_access_iff (ok Defs.AccessKeyPermissionView.full_access) = (λ _. refl, λ _. refl)
  holds_full_access_iff (ok (Defs.AccessKeyPermissionView.function_call _ _ _)) = (λ h. cc, λ h. cc)
  holds_full_access_iff (ok (Defs.AccessKeyPermissionView.gas_key_function_call _ _ _ _ _)) =
      (λ h. cc, λ h. cc)
  holds_full_access_iff (ok (Defs.AccessKeyPermissionView.gas_key_full_access _ _)) =
      (λ h. cc, λ h. cc)
  holds_full_access_iff (err _) = (λ h. cc, λ h. cc)

  decision_iff :
      (s f : Bool) (r : Result E Defs.AccessKeyPermissionView)
      → ((if not s then ok false else if f then Defs.holds_full_access r else ok true) ≡ ok true)
        ↔ ((s ≡ true) × (f ≡ true → r ≡ ok Defs.AccessKeyPermissionView.full_access))
  decision_iff true true r =
      let (there, back) = holds_full_access_iff r in
      (λ h. (refl, λ _. there h), λ (_, h). back (h refl))
  decision_iff true false r = (λ _. (refl, λ h. cc), λ _. refl)
  decision_iff false f r = (λ h. cc, λ (h, _). cc)

module _ (b : Borsh) (c : Crypto) where
  Fresh-iff :
      (v : Defs.NonceValidation) (now_ms : ℕ) (params : Defs.SignMessageParams)
      → (Defs.is_expired b c v now_ms params ≡ false) ↔ Fresh v now_ms params.nonce
  unfolding Defs.is_expired
  Fresh-iff (Defs.NonceValidation.timestamp max_age) now_ms params =
      (λ h. ground arith, λ h. ground arith)
  Fresh-iff Defs.NonceValidation.no_validation now_ms params = (λ _. tt, λ _. refl)

  -- `verify_signature` accepts exactly when the nonce is not checked or holds a time neither in the
  -- future nor older than the maximal age, and the signature verifies.
  pub verify_signature_iff :
      (now_ms : ℕ) (signed : Defs.SignedMessage) (params : Defs.SignMessageParams)
      (v : Defs.NonceValidation)
      → (Defs.verify_signature b c now_ms signed params v ≡ true) ↔ (
          Fresh v now_ms params.nonce
          × (verify c signed.signature (Defs.serialize_message b c params) signed.public_key
              ≡ true))
  unfolding Defs.verify_signature
  verify_signature_iff now_ms signed params v =
      let (fresh, not_expired) = Fresh-iff v now_ms params in
      (λ h. let (t, s) = guard-true _ _ h in (fresh t, s), λ (f, s). rw (not_expired f) s)

  -- `verify` accepts exactly when `verify_signature` does and, where full access is required, the
  -- node knows the key as a full-access key.
  pub verify_message_iff :
      {E : Type 0} (now_ms : ℕ) (view : Bytes → PublicKey → Result E Defs.AccessKeyPermissionView)
      (signed : Defs.SignedMessage) (params : Defs.SignMessageParams) (o : Defs.VerifyOptions)
      → (Defs.verify_message b c now_ms view signed params o ≡ ok true) ↔ (
          (Defs.verify_signature b c now_ms signed params o.nonce_validation ≡ true)
          × (o.require_full_access ≡ true
              → view signed.account_id signed.public_key
                ≡ ok Defs.AccessKeyPermissionView.full_access))
  unfolding Defs.verify_message
  verify_message_iff now_ms view signed params o = decision_iff _ _ _

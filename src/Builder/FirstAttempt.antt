-- ===== src/Builder/FirstAttempt.antt =====
-- `sign` against the first attempt of `send`.
use near_kit_rs.Prelude.{◌+◌, ◌≡◌, refl, Option, none, some, List, [], ◌∷◌, Bytes, Result, ok, err}
use near_kit_rs.Borsh.{Borsh}
use near_kit_rs.Key.{Crypto, Signature}
use near_kit_rs.Action.{Action}
use near_kit_rs.Transaction.{Transaction, SignedTransaction}
use near_kit_rs.Client.Errors.{RpcError}
use near_kit_rs.Client.Nonces.{Nonces}
use near_kit_rs.Client.Signers.{SigningKey, Signer}
use near_kit_rs.Client.Send
use near_kit_rs.Client.Send.{
  AccessKeyView, Error, Builder, Node, Sent, Decision, finish, retry, send,
}
use near_kit_rs.Builder.Sign.{
  Outcome, failed, on_signer, on_actions, sign_viewed, with_signature, sign,
}

module _ (b : Borsh) (c : Crypto) (J E S R A : Type 0) (builder : Builder b c J E S R A)
    (node : Node b c J E S R A) where
  -- A run that begins as signing does: it sends what was signed first, or ends with the same error
  -- and the same state before it has sent anything.
  abbrev pub Begins :
      Result (Error J E) (SignedTransaction b) → S → Nonces → Sent b c J E S R A → Type 0
  Begins (ok signed) s nonces run =
      (later : List (SignedTransaction b)) × (run.sent ≡ signed ∷ later)
  Begins (err e) s nonces run =
      (run.result ≡ err e) × (run.sent ≡ []) × (run.signer_state ≡ s) × (run.nonces ≡ nonces)

  abbrev pub BeginsAs : Outcome b c J E S R A (SignedTransaction b) → Sent b c J E S R A → Type 0
  BeginsAs outcome run = Begins outcome.result outcome.signer_state outcome.nonces run

  conclude-sent :
      (signed : SignedTransaction b) (s : S) (nonces : Nonces) (rest : Send.Rest b c J E S R A)
      (d : Decision b c J E S R A)
      → (later : List (SignedTransaction b)) × ((Send.conclude b c J E S R A signed s nonces rest
            d).sent
          ≡ signed ∷ later)
  unfolding Send.conclude
  conclude-sent signed s nonces rest (finish result) = ([], refl)
  conclude-sent signed s nonces rest (retry ak e) = (_, refl)

  submit-Begins :
      (account_id : Bytes) (t : Transaction b) (s : S) (nonces : Nonces)
      (rest : Send.Rest b c J E S R A) (r : Result E Signature)
      → BeginsAs
          (with_signature b c J E S R A t s nonces r)
          (Send.submit b c J E S R A builder node account_id 0 t s nonces rest r)
  unfolding Send.submit
  submit-Begins account_id t s nonces rest (err e) = (refl, refl, refl, refl)
  submit-Begins account_id t s nonces rest (ok signature) = conclude-sent _ s nonces rest _

  viewed-Begins :
      (signer : Signer E S) (key : SigningKey E) (s : S) (nonces : Nonces)
      (rest : Send.Rest b c J E S R A) (r : Result (RpcError J) AccessKeyView)
      → BeginsAs
          (sign_viewed b c J E S R A builder signer key s nonces r)
          (Send.with_access_key b c J E S R A builder node signer 0 key none s nonces rest r)
  unfolding Send.with_access_key Send.unwrap_or
  viewed-Begins signer key s nonces rest (err e) = (refl, refl, refl, refl)
  viewed-Begins signer key s nonces rest (ok access_key) =
      submit-Begins signer.account_id _ s _ rest _

  -- Against the same node, signer and nonce manager, `send` begins as `sign` does: where `sign`
  -- gives a signed transaction, that is the first one that `send` sends; where `sign` gives an
  -- error, `send` ends with that error, the same state of the signer and the nonce manager, and
  -- nothing sent.
  pub sign-send :
      (s : S) (nonces : Nonces)
      → BeginsAs
          (sign b c J E S R A builder (node.view_access_key 0) s nonces)
          (send b c J E S R A builder node s nonces)
  unfolding sign send Send.send_actions Send.send_with Send.send_loop
  sign-send s nonces = with_actions builder.actions
    where
      with_signer :
          (o : Option (Signer E S))
          → BeginsAs
              (on_signer b c J E S R A
                (λ e. failed b c J E S R A e s nonces)
                (λ signer.
                  sign_viewed b c J E S R A builder signer
                    (signer.key s).0
                    (signer.key s).1
                    nonces
                    (node.view_access_key 0 signer.account_id (signer.key s).0.public_key))
                o)
              (Send.send_with b c J E S R A builder node s nonces o)
      with_signer none = (refl, refl, refl, refl)
      with_signer (some signer) =
          viewed-Begins signer (signer.key s).0 (signer.key s).1 nonces
            (Send.send_loop b c J E S R A builder node signer builder.max_nonce_retries (0 + 1))
            (node.view_access_key 0 signer.account_id (signer.key s).0.public_key)

      with_actions :
          (xs : List (Action b))
          → BeginsAs
              (on_actions b c J E S R A
                (λ e. failed b c J E S R A e s nonces)
                (on_signer b c J E S R A
                  (λ e. failed b c J E S R A e s nonces)
                  (λ signer.
                    sign_viewed b c J E S R A builder signer
                      (signer.key s).0
                      (signer.key s).1
                      nonces
                      (node.view_access_key 0 signer.account_id (signer.key s).0.public_key))
                  (Send.chosen_signer b c J E S R A builder))
                xs)
              (Send.send_actions b c J E S R A builder node s nonces xs)
      with_actions [] = (refl, refl, refl, refl)
      with_actions (_ ∷ _) = with_signer (Send.chosen_signer b c J E S R A builder)

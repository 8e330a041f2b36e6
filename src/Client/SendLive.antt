-- ===== src/Client/SendLive.antt =====
-- client/transaction.rs: a send against a node that takes the transaction in the end.
use mathlib.Core.Path.{subst}
use near_kit_rs.Prelude.{
  ℕ, suc, ◌+◌, ◌≤◌, ◌<◌, ◌≡◌, ap, ◌∙◌, sym, Option, none, some, List, ◌∷◌, Bytes, length, ok, err,
  ltb, arith, ◌⊎◌, inl, inr, Bool-cases,
}
use near_kit_rs.Borsh.{Borsh}
use near_kit_rs.Key.{Crypto, PublicKey, Signature}
use near_kit_rs.Action.{Action}
use near_kit_rs.Transaction.{SignedTransaction}
use near_kit_rs.Client.Errors.{InvalidTxError, RpcError}
use near_kit_rs.Client.Nonces.{Nonces}
use near_kit_rs.Client.Signers.{Signer}
use near_kit_rs.Client.Send
use near_kit_rs.Client.Send.{
  AccessKeyView, Error, Builder, Node, Sent, finish, retry, decide, send_loop, send,
}
use near_kit_rs.Client.SendInduction.{send_loop-ind, decision, key_of}

module _ (b : Borsh) (c : Crypto) (J E S R A : Type 0) (builder : Builder b c J E S R A)
    (node : Node b c J E S R A) (signer : Signer E S) where
  -- The signer's keys sign, and the node gives their access keys.
  abbrev pub Serves : Type 0
  Serves =
      ((attempt : ℕ) (k : PublicKey)
        → (view : AccessKeyView) × (node.view_access_key attempt signer.account_id k ≡ ok view))
      × ((s : S) (m : Bytes)
          → (signature : Signature) × ((key_of b c J E S R A builder node signer s).sign m
              ≡ ok signature))

  -- The node says at each attempt before `k` that the nonce is wrong, and takes the transaction at
  -- attempt `k`, with an answer that the wait level makes `a` of.
  abbrev pub TakesAt : ℕ → A → Type 0
  TakesAt k a =
      ((attempt : ℕ) (signed : SignedTransaction b)
        → attempt < k
        → (ak : ℕ) × (tx : ℕ) × (node.send_tx attempt signed
            ≡ err (RpcError.invalid_tx (InvalidTxError.invalid_nonce ak tx))))
      × ((signed : SignedTransaction b)
          → (r : R) × (node.send_tx k signed ≡ ok r) × (node.convert r signer.account_id ≡ ok a))

  decide_invalid_nonce :
      (attempt ak tx : ℕ)
      → attempt < builder.max_nonce_retries
      → decide b c J E S R A builder node signer.account_id attempt
          (err (RpcError.invalid_tx (InvalidTxError.invalid_nonce ak tx)))
        ≡ retry (some ak) (Error.invalid_tx (InvalidTxError.invalid_nonce ak tx))
  unfolding decide
  decide_invalid_nonce attempt ak tx h = ground arith

  module _ (k : ℕ) (a : A) (serves : Serves) (takes : TakesAt k a)
      (within : k ≤ builder.max_nonce_retries) where
    -- What an attempt comes to: a retry before `k`, and `a` at `k`.
    decision_at :
        (attempt : ℕ) (signed : SignedTransaction b)
        → attempt ≤ k
        → ((attempt < k)
            × ((ak : Option ℕ) × (e : Error J E) × (decision b c J E S R A builder node signer
                    attempt signed
                  ≡ retry ak e)))
          ⊎ ((attempt ≡ k)
              × (decision b c J E S R A builder node signer attempt signed ≡ finish (ok a)))
    unfolding decide
    decision_at attempt signed h = elim (Bool-cases (ltb attempt k)) [
      | inl less ↦
          let before : attempt < k = ground arith in
          let (ak, tx, refused) = takes.0 attempt signed before in
          inl (
            before,
            (
              some ak,
              _,
              ap (decide b c J E S R A builder node signer.account_id attempt) refused
                  ∙ decide_invalid_nonce attempt ak tx (omega arith),
            ),
          )
      | inr no_less ↦
          let same : attempt ≡ k = ground arith in inr (same, accepted attempt signed same)
    ]
      where
        accepted :
            (attempt : ℕ) (signed : SignedTransaction b)
            → attempt ≡ k
            → decision b c J E S R A builder node signer attempt signed ≡ finish (ok a)
        accepted attempt signed same =
            let (r, answered, converted) = takes.1 signed in
            rw (same, answered) (ap finish converted)

    Reaches : ℕ → Option (Error J E) → Option ℕ → S → Nonces → Sent b c J E S R A → Type 0
    Reaches attempt _ _ _ _ run =
        attempt ≤ k → (run.result ≡ ok a) × (attempt + length run.sent ≡ k + 1)

    loop-Reaches :
        (s : S) (nonces : Nonces)
        → Reaches 0 none none s nonces (
            send_loop b c J E S R A builder node signer
              (suc builder.max_nonce_retries)
              0
              none
              none
              s
              nonces)
    unfolding Reaches
    loop-Reaches s nonces =
        send_loop-ind b c J E S R A builder node signer Reaches (suc builder.max_nonce_retries)
          (λ _ _ _ _ h. absurd (omega arith))
          (λ attempt _ _ s _ _ _ e from h. elim from [
            | inl (x, _, refused) ↦
                let (view, given) =
                  serves.0 attempt (key_of b c J E S R A builder node signer s).public_key in
                cc
            | inr (x, _, m, refused) ↦ let (signature, given) = serves.1 s m in cc
          ])
          (λ attempt _ _ _ _ _ signed result _ d h. elim (decision_at attempt signed h) [
            | inl (_, (ak, e, again)) ↦ cc
            | inr (same, done) ↦ (cc, omega arith)
          ])
          (λ attempt _ _ _ _ _ signed ak e later _ d more h. elim (decision_at attempt signed h) [
            | inl (before, _) ↦ let (result, count) = more (omega arith) in (result, omega arith)
            | inr (same, done) ↦ cc
          ])
          (suc builder.max_nonce_retries) 0 (omega arith) none none s nonces

    -- Against a node that refuses the nonce of the first `k` attempts, no more than the retries
    -- allowed, and then takes the transaction, sending, with actions and a signer whose keys the
    -- node knows and which signs, gives the converted answer after exactly `k + 1` transactions.
    pub send-Reaches :
        (action : Action b) (actions : List (Action b))
        → builder.actions ≡ action ∷ actions
        → Send.chosen_signer b c J E S R A builder ≡ some signer
        → (s : S) (nonces : Nonces)
        → ((send b c J E S R A builder node s nonces).result ≡ ok a)
          × (length (send b c J E S R A builder node s nonces).sent ≡ k + 1)
    unfolding send Send.send_actions Send.send_with Reaches
    send-Reaches action actions some_actions chosen s nonces =
        subst (λ run. (run.result ≡ ok a) × (length run.sent ≡ k + 1)) (sym as_loop)
          (let (reached, count) = loop-Reaches s nonces (omega arith) in (reached, omega arith))
      where
        as_loop :
            send b c J E S R A builder node s nonces
            ≡ send_loop b c J E S R A builder node signer
                (suc builder.max_nonce_retries)
                0
                none
                none
                s
                nonces
        as_loop =
            ap (Send.send_actions b c J E S R A builder node s nonces) some_actions
            ∙ ap (Send.send_with b c J E S R A builder node s nonces) chosen

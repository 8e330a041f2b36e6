-- ===== src/Client/SendRuns.antt =====
-- What a whole run of `send` has sent: the transaction asked for, with nonces that ascend.
use mathlib.Core.Path.{subst}
use near_kit_rs.Prelude.{
  ℕ, suc, ◌+◌, ◌^◌, ◌≤◌, ◌<◌, ◌≡◌, refl, sym, ap, false, Option, none, some, List, [], ◌∷◌, All,
  length, ok, err, arith, ◌⊎◌, inl, inr,
}
use near_kit_rs.Borsh.{Borsh}
use near_kit_rs.Key.{Crypto}
use near_kit_rs.Action.{Action}
use near_kit_rs.Transaction.{SignedTransaction}
use near_kit_rs.Client.Nonces.{Nonces}
use near_kit_rs.Client.Signers.{Signer}
use near_kit_rs.Client.Send
use near_kit_rs.Client.Send.{
  AccessKeyView, Error, of_rpc, Builder, Node, Sent, finish, retry, get_hash, build, decide,
  send_loop, send,
}
use near_kit_rs.Client.SendInduction.{send_loop-ind, send_loop-zero, Attempted}
use near_kit_rs.Client.SendLaws.{is_unknown, IsKnown, ConvertsKnown, Ends, send_loop-Ends}

module _ (b : Borsh) (c : Crypto) (J E S R A : Type 0) (builder : Builder b c J E S R A)
    (node : Node b c J E S R A) where
  -- `send` is the loop with the chosen signer, or an error before it.
  pub by_signer :
      (P : Sent b c J E S R A → Type 0) (s : S) (nonces : Nonces)
      → ((e : Error J E)
          → (e ≡ Error.no_signer) ⊎ (e ≡ Error.no_actions)
          → P (record { result = err e; sent = []; signer_state = s; nonces = nonces }))
      → ((signer : Signer E S)
          → Send.chosen_signer b c J E S R A builder ≡ some signer
          → P (
              send_loop b c J E S R A builder node signer
                (suc builder.max_nonce_retries)
                0
                none
                none
                s
                nonces))
      → P (send b c J E S R A builder node s nonces)
  unfolding send Send.send_actions Send.send_with
  by_signer P s nonces early loop = with_actions builder.actions
    where
      with_signer :
          (o : Option (Signer E S))
          → Send.chosen_signer b c J E S R A builder ≡ o
          → P (Send.send_with b c J E S R A builder node s nonces o)
      with_signer none e = early Error.no_signer (inl refl)
      with_signer (some signer) e = loop signer e

      with_actions :
          (xs : List (Action b)) → P (Send.send_actions b c J E S R A builder node s nonces xs)
      with_actions [] = early Error.no_actions (inr refl)
      with_actions (_ ∷ _) = with_signer (Send.chosen_signer b c J E S R A builder) refl

  -- For fewer than 2 ^ 32 - 1 retries, and a conversion of answers that never gives the error for a
  -- loop that ran out, `send` does not end with that error, and sends at most one transaction and
  -- as many again as there are retries.
  pub send-IsKnown :
      ConvertsKnown b c J E S R A builder node
      → builder.max_nonce_retries + 1 < 2 ^ 32
      → (s : S) (nonces : Nonces)
      → IsKnown b c J E S R A builder node (send b c J E S R A builder node s nonces).result
        × (length (send b c J E S R A builder node s nonces).sent ≤ builder.max_nonce_retries + 1)
  unfolding Ends
  send-IsKnown known top s nonces =
      by_signer
        (λ run.
          IsKnown b c J E S R A builder node run.result
          × (length run.sent ≤ builder.max_nonce_retries + 1))
        s nonces (λ e from. (early e from, omega arith))
        (λ signer _.
          let (k, few) =
            send_loop-Ends b c J E S R A builder node signer known top s nonces (omega arith) in
          (k, omega arith))
    where
      early :
          (e : Error J E) → (e ≡ Error.no_signer) ⊎ (e ≡ Error.no_actions) → is_unknown e ≡ false
      early e (inl h) = ap is_unknown h
      early e (inr h) = ap is_unknown h

  -- A signed transaction of the builder: its signer, receiver and actions, a key that the signer gave,
  -- and that key's signature of the transaction's hash.
  abbrev pub AsAsked : Signer E S → SignedTransaction b → Type 0
  AsAsked signer signed =
      (signed.transaction.signer_id ≡ signer.account_id)
      × (signed.transaction.receiver_id ≡ builder.receiver_id)
      × (signed.transaction.actions ≡ builder.actions)
      × ((s : S) × (signed.transaction.public_key ≡ (signer.key s).0.public_key)
          × ((signer.key s).0.sign (get_hash b c J E S R A signed.transaction)
              ≡ ok signed.signature))

  asked :
      (signer : Signer E S) (attempt : ℕ) (ak : Option ℕ) (s : S) (nonces : Nonces)
      (view : AccessKeyView) (signed : SignedTransaction b)
      → Attempted b c J E S R A builder node signer attempt ak s nonces view signed
      → AsAsked signer signed
  unfolding build
  asked signer attempt ak s nonces view signed (_, t, g) = (
    ap (λ x. x.signer_id) t,
    ap (λ x. x.receiver_id) t,
    ap (λ x. x.actions) t,
    (s, ap (λ x. x.public_key) t, g),
  )

  loop-AsAsked :
      (signer : Signer E S) (s : S) (nonces : Nonces)
      → All
          (AsAsked signer)
          (send_loop b c J E S R A builder node signer
            (suc builder.max_nonce_retries)
            0
            none
            none
            s
            nonces).sent
  loop-AsAsked signer s nonces =
      send_loop-ind b c J E S R A builder node signer
        (λ _ _ _ _ _ run. All (AsAsked signer) run.sent) (suc builder.max_nonce_retries)
        (λ e ak s n.
          subst (All (AsAsked signer))
            (sym (send_loop-zero b c J E S R A builder node signer _ e ak s n)) tt)
        (λ _ _ _ _ _ _ _ _ _. tt)
        (λ attempt _ ak s n view signed _ made _.
          (asked signer attempt ak s n view signed made, tt))
        (λ attempt _ ak s n view signed _ _ later made _ more.
          (asked signer attempt ak s n view signed made, more))
        (suc builder.max_nonce_retries) 0 (omega arith) none none s nonces

  -- Every transaction that reaches the node, at the first attempt or at a retry, has the account of
  -- the chosen signer, the receiver and actions of the builder, a key that the signer gave, and the
  -- signature of its hash by that key.
  pub send-AsAsked :
      (signer : Signer E S)
      → Send.chosen_signer b c J E S R A builder ≡ some signer
      → (s : S) (nonces : Nonces)
      → All (AsAsked signer) (send b c J E S R A builder node s nonces).sent
  send-AsAsked signer chosen s nonces =
      by_signer (λ run. All (AsAsked signer) run.sent) s nonces (λ _ _. tt)
        (λ signer' e.
          let same : signer' ≡ signer = cc in
          subst
            (λ x.
              All (AsAsked signer)
                (send_loop b c J E S R A builder node x (suc builder.max_nonce_retries) 0 none none
                  s nonces).sent)
            (sym same) (loop-AsAsked signer s nonces))

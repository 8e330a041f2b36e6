-- ===== src/Client/SendNonces.antt =====
-- The nonces of the transactions that one run of `send` has sent.
use mathlib.Core.Path.{subst}
use near_kit_rs.Prelude.{
  ℕ, suc, ◌+◌, ◌^◌, ◌≤◌, ◌<◌, ◌≡◌, sym, Option, none, some, List, [], ◌∷◌, Bytes, ok, err, arith,
  ◌⊎◌, inl, inr, if◌then◌else◌,
}
use near_kit_rs.Borsh.{Borsh}
use near_kit_rs.Key.{Crypto, PublicKey}
use near_kit_rs.Transaction.{SignedTransaction}
use near_kit_rs.Client.Errors.{InvalidTxError, RpcError}
use near_kit_rs.Client.Nonces.{NonceKey, Nonces, next, same_key}
use near_kit_rs.Client.NonceOrder.{Ascends, Ascends-next, cached, Bounded, next-Bounded}
use near_kit_rs.Client.Signers.{Signer}
use near_kit_rs.Client.Send.{
  AccessKeyView, Error, Builder, Node, Sent, build, send_loop, unwrap_or, send,
}
use near_kit_rs.Client.SendInduction.{send_loop-ind, nonce_key, provided, Attempted}
use near_kit_rs.Client.SendRuns.{by_signer}
use near_kit_rs.Client.SendLaws.{decide-retry}

module _ (b : Borsh) (c : Crypto) (J E S R A : Type 0) (builder : Builder b c J E S R A)
    (node : Node b c J E S R A) where
  -- The nonces, in order, of the transactions signed with one key.
  abbrev pub nonces_of : NonceKey → List (SignedTransaction b) → List ℕ
  nonces_of k [] = []
  nonces_of k (signed ∷ later) =
      let rest = nonces_of k later in
      if same_key k (record {
        network = builder.network;
        account_id = signed.transaction.signer_id;
        public_key = signed.transaction.public_key;
      })
      then signed.transaction.nonce ∷ rest
      else rest

  -- The node never reports a nonce above the bound, neither for a key nor in an answer.
  abbrev pub Reports : ℕ → Type 0
  Reports bound =
      ((attempt : ℕ) (account_id : Bytes) (k : PublicKey) (view : AccessKeyView)
        → node.view_access_key attempt account_id k ≡ ok view
        → view.nonce ≤ bound)
      × ((attempt : ℕ) (signed : SignedTransaction b) (ak tx : ℕ)
          → node.send_tx attempt signed
            ≡ err (RpcError.invalid_tx (InvalidTxError.invalid_nonce ak tx))
          → ak ≤ bound)

  -- No nonce above the bound.
  abbrev BelowOption : Option ℕ → ℕ → Type 0
  BelowOption none bound = Unit
  BelowOption (some n) bound = n ≤ bound

  module _ (signer : Signer E S) (chain : ℕ) (k : NonceKey) where
    Orders : ℕ → Option (Error J E) → Option ℕ → S → Nonces → Sent b c J E S R A → Type 0
    Orders attempt _ ak s nonces run =
        (bound : ℕ)
        → Bounded bound nonces
        → chain ≤ bound
        → BelowOption ak chain
        → attempt ≤ builder.max_nonce_retries
        → bound + builder.max_nonce_retries + 1 < 2 ^ 64 + attempt
        → Ascends (cached k nonces) (nonces_of k run.sent)

    provided_below :
        (ak : Option ℕ) (view : AccessKeyView)
        → BelowOption ak chain
        → view.nonce ≤ chain
        → provided b c J E S R A builder node signer ak view ≤ chain
    unfolding unwrap_or
    provided_below none view h k = k
    provided_below (some n) view h k = h

    one_more :
        (attempt : ℕ) (ak : Option ℕ) (s : S) (nonces : Nonces) (view : AccessKeyView)
        (signed : SignedTransaction b) (later : List (SignedTransaction b)) (bound : ℕ)
        → Reports chain
        → Attempted b c J E S R A builder node signer attempt ak s nonces view signed
        → Bounded bound nonces
        → chain ≤ bound
        → BelowOption ak chain
        → bound + 1 < 2 ^ 64
        → Ascends
            (cached k
              (next nonces
                (nonce_key b c J E S R A builder node signer s)
                (provided b c J E S R A builder node signer ak view)).0)
            (nonces_of k later)
        → Ascends (cached k nonces) (nonces_of k (signed ∷ later))
    unfolding build
    one_more attempt ak s nonces view signed later bound (views, _) (v, t, _) h low below top
          ascends =
        let p = provided_below ak view below (views attempt signer.account_id _ view v) in
        subst
          (λ t. Ascends (cached k nonces) (
            if same_key k (record {
              network = builder.network;
              account_id = t.signer_id;
              public_key = t.public_key;
            })
            then t.nonce ∷ nonces_of k later
            else nonces_of k later))
          (sym t)
          (Ascends-next k (nonce_key b c J E S R A builder node signer s) nonces
            (provided b c J E S R A builder node signer ak view) bound (nonces_of k later) h
            (omega arith) top ascends)

    loop-Orders :
        Reports chain
        → builder.max_nonce_retries + 1 < 2 ^ 32
        → (s : S) (nonces : Nonces)
        → Orders 0 none none s nonces (
            send_loop b c J E S R A builder node signer
              (suc builder.max_nonce_retries)
              0
              none
              none
              s
              nonces)
    unfolding Orders
    loop-Orders reports top s nonces =
        send_loop-ind b c J E S R A builder node signer Orders (suc builder.max_nonce_retries)
          (λ _ _ _ _ _ _ _ _ h _. absurd (omega arith)) (λ _ _ _ _ _ _ _ _ _ _ _ _ _ _ _. tt)
          (λ attempt _ ak s n view signed _ made _ bound h low below few fits.
            one_more attempt ak s n view signed [] bound reports made h low below (omega arith) tt)
          (λ attempt _ ak s n view signed new_ak e later made d more bound h low below few fits.
            let (attempts_left, why) =
              decide-retry b c J E S R A builder node signer.account_id attempt _ new_ak e few top
                d in
            let p =
              provided_below ak view below (reports.0 attempt signer.account_id _ view made.0) in
            one_more attempt ak s n view signed later.sent bound reports made h low below
              (omega arith)
              (more (bound + 1)
                (next-Bounded n (nonce_key b c J E S R A builder node signer s) _ bound h
                  (omega arith) (omega arith))
                (omega arith) (new_below attempt signed new_ak why) (omega arith) (omega arith)))
          (suc builder.max_nonce_retries) 0 (omega arith) none none s nonces
      where
        new_below :
            (attempt : ℕ) (signed : SignedTransaction b) (new_ak : Option ℕ)
            → ((new_ak ≡ none)
                ⊎ ((x : ℕ) × (tx_nonce : ℕ) × (new_ak ≡ some x)
                    × (node.send_tx attempt signed
                        ≡ err (RpcError.invalid_tx (InvalidTxError.invalid_nonce x tx_nonce)))))
            → BelowOption new_ak chain
        new_below attempt signed new_ak (inl e) = subst (λ o. BelowOption o chain) (sym e) tt
        new_below attempt signed new_ak (inr (x, tx, e, r)) =
            subst (λ o. BelowOption o chain) (sym e) (reports.1 attempt signed x tx r)

  -- In one run of `send`, where the node reports no nonce above a bound that leaves room in a `u64`
  -- for the retries, nothing above that bound is cached, and there are fewer than 2 ^ 32 - 1
  -- retries, the nonces sent with one key ascend from attempt to attempt, and start above what the
  -- nonce manager had handed out for it.
  pub send-Ascends :
      (chain bound : ℕ) (k : NonceKey) (s : S) (nonces : Nonces)
      → Reports chain
      → builder.max_nonce_retries + 1 < 2 ^ 32
      → Bounded bound nonces
      → chain ≤ bound
      → bound + builder.max_nonce_retries + 1 < 2 ^ 64
      → Ascends (cached k nonces) (nonces_of k (send b c J E S R A builder node s nonces).sent)
  unfolding Orders
  send-Ascends chain bound k s nonces reports top h low fits =
      by_signer b c J E S R A builder node (λ run. Ascends (cached k nonces) (nonces_of k run.sent))
        s nonces (λ _ _. tt)
        (λ signer _.
          loop-Orders signer chain k reports top s nonces bound h low tt (omega arith)
            (omega arith))

-- ===== src/Client/SendLaws.antt =====
-- What sending promises: it ends, and it sends only what was asked for.
use mathlib.Core.Path.{subst}
use near_kit_rs.Prelude.{
  ℕ, suc, ◌+◌, ◌^◌, ◌≤◌, ◌<◌, ◌≡◌, refl, ap, ◌∙◌, Bool, true, false, Option, none, some, Bytes,
  length, Result, ok, err, arith, ◌⊎◌, inl, inr, if◌then◌else◌,
}
use near_kit_rs.Borsh.{Borsh}
use near_kit_rs.Key.{Crypto}
use near_kit_rs.Client.Errors.{InvalidTxError, RpcError}
use near_kit_rs.Client.Nonces.{Nonces}
use near_kit_rs.Client.Signers.{Signer}
use near_kit_rs.Client.Send.{
  Error, signing, of_rpc, Builder, Node, Sent, Decision, finish, retry, decide, send_loop,
  unknown_error,
}
use near_kit_rs.Client.SendInduction.{send_loop-ind}

abbrev pub is_unknown : {J E : Type 0} → Error J E → Bool
is_unknown unknown_error = true
is_unknown _ = false

of_rpc_known : {J : Type 0} (E : Type 0) (e : RpcError J) → is_unknown (of_rpc {E = E} e) ≡ false
unfolding of_rpc
of_rpc_known E (RpcError.invalid_tx e) = refl
of_rpc_known E e = refl

module _ (b : Borsh) (c : Crypto) (J E S R A : Type 0) (builder : Builder b c J E S R A)
    (node : Node b c J E S R A) where
  retry_guard :
      (t : Bool) (ak ak' : Option ℕ) (e e' : Error J E) (r : Result (Error J E) A)
      → ◌≡◌ {A = Decision b c J E S R A} (if t then retry ak e else finish r) (retry ak' e')
      → (t ≡ true) × (ak' ≡ ak)
  retry_guard true ak ak' e e' r h = (refl, cc)
  retry_guard false ak ak' e e' r h = cc

  -- Another attempt is made only while attempts remain, and only after an answer that says the nonce
  -- is wrong or the block hash too old.
  pub decide-retry :
      (account_id : Bytes) (attempt : ℕ) (r : Result (RpcError J) R) (ak : Option ℕ) (e : Error J E)
      → attempt ≤ builder.max_nonce_retries
      → builder.max_nonce_retries + 1 < 2 ^ 32
      → decide b c J E S R A builder node account_id attempt r ≡ retry ak e
      → (attempt < builder.max_nonce_retries)
        × ((ak ≡ none)
            ⊎ ((x : ℕ) × (tx_nonce : ℕ) × (ak ≡ some x)
                × (r ≡ err (RpcError.invalid_tx (InvalidTxError.invalid_nonce x tx_nonce)))))
  unfolding decide
  decide-retry account_id attempt (ok r) ak e h top d = cc
  decide-retry account_id attempt (err (RpcError.invalid_tx (InvalidTxError.invalid_nonce x tx))) ak
        e h top d =
      let (more, same) = retry_guard _ _ _ _ _ _ d in (ground arith, inr (x, tx, same, refl))
  decide-retry account_id attempt (err (RpcError.invalid_tx InvalidTxError.expired)) ak e h top d =
      let (more, same) = retry_guard _ _ _ _ _ _ d in (ground arith, inl same)
  decide-retry account_id attempt (err x) ak e h top d = cc

  abbrev pub IsKnown : Result (Error J E) A → Type 0
  IsKnown (ok a) = Unit
  IsKnown (err e) = is_unknown e ≡ false

  -- A decision that is no end with `unknown_error`.
  Known : Decision b c J E S R A → Type 0
  Known (finish result) = IsKnown result
  Known (retry _ _) = Unit

  guard-Known :
      (t : Bool) (ak : Option ℕ) (e e' : Error J E)
      → is_unknown e' ≡ false
      → Known (if t then retry ak e else finish (err e'))
  unfolding Known
  guard-Known true ak e e' h = tt
  guard-Known false ak e e' h = h

  decide-Known :
      (account_id : Bytes) (attempt : ℕ) (r : Result (RpcError J) R)
      → ((response : R) → IsKnown (node.convert response account_id))
      → Known (decide b c J E S R A builder node account_id attempt r)
  unfolding decide Known
  decide-Known account_id attempt (ok r) h = h r
  decide-Known account_id attempt (err (RpcError.invalid_tx (InvalidTxError.invalid_nonce x tx)))
        h =
      guard-Known _ _ _ _ (of_rpc_known E (RpcError.invalid_tx (InvalidTxError.invalid_nonce x tx)))
  decide-Known account_id attempt (err (RpcError.invalid_tx InvalidTxError.expired)) h =
      guard-Known _ _ _ _ (of_rpc_known E (RpcError.invalid_tx InvalidTxError.expired))
  decide-Known account_id attempt (err x) h = of_rpc_known E x

  -- The wait level's conversion gives no `unknown_error` of its own.
  abbrev pub ConvertsKnown : Type 0
  ConvertsKnown = (response : R) (account_id : Bytes) → IsKnown (node.convert response account_id)

  -- The run of the loop from an attempt on ends, with few enough transactions sent.
  unfoldable pub Ends : ℕ → Option (Error J E) → Option ℕ → S → Nonces → Sent b c J E S R A → Type 0
  Ends attempt _ _ _ _ run =
      attempt ≤ builder.max_nonce_retries
      → IsKnown run.result × (attempt + length run.sent ≤ builder.max_nonce_retries + 1)

  pub send_loop-Ends :
      (signer : Signer E S)
      → ConvertsKnown
      → builder.max_nonce_retries + 1 < 2 ^ 32
      → (s : S) (nonces : Nonces)
      → Ends 0 none none s nonces (
          send_loop b c J E S R A builder node signer
            (suc builder.max_nonce_retries)
            0
            none
            none
            s
            nonces)
  unfolding Ends Known
  send_loop-Ends signer known top s nonces =
      send_loop-ind b c J E S R A builder node signer Ends (suc builder.max_nonce_retries)
        (λ _ _ _ _ h. absurd (omega arith))
        (λ attempt _ _ _ _ _ _ e from h. (
          failure_known e (elim from [
            | inl (x, same, _) ↦ inl (x, same)
            | inr (x, same, _, _) ↦ inr (x, same)
          ]),
          omega arith,
        ))
        (λ attempt _ _ s n _ signed result _ d h. (
          subst Known d (decide-Known signer.account_id attempt _ (λ r. known r signer.account_id)),
          omega arith,
        ))
        (λ attempt _ _ s n _ signed ak e later _ d ends h.
          let (more, _) = decide-retry signer.account_id attempt _ ak e h top d in
          let (k, few) = ends (omega arith) in (k, omega arith))
        (suc builder.max_nonce_retries) 0 (omega arith) none none s nonces
    where
      failure_known :
          (e : Error J E)
          → (((x : RpcError J) × (e ≡ of_rpc x)) ⊎ ((x : E) × (e ≡ signing x)))
          → is_unknown e ≡ false
      failure_known e (inl (x, h)) = ap is_unknown h ∙ of_rpc_known E x
      failure_known e (inr (x, h)) = ap is_unknown h

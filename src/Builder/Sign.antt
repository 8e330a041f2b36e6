-- ===== src/Builder/Sign.antt =====
-- client/transaction.rs: `build`, `build_offline`, `sign` and `sign_offline`.
use near_kit_rs.Prelude.{ℕ, Option, none, some, List, [], ◌∷◌, Bytes, Result, ok, err, ◌>>=◌}
use near_kit_rs.Borsh.{Borsh}
use near_kit_rs.Key.{Crypto, PublicKey, Signature}
use near_kit_rs.Action.{Action}
use near_kit_rs.Transaction.{Transaction, SignedTransaction}
use near_kit_rs.Client.Errors.{RpcError}
use near_kit_rs.Client.Nonces.{NonceKey, Nonces, next}
use near_kit_rs.Client.Signers.{SigningKey, Signer}
use near_kit_rs.Client.Send.{
  AccessKeyView, Error, no_actions, no_signer, signing, of_rpc, Builder, get_hash, build,
  chosen_signer,
}

module _ (b : Borsh) (c : Crypto) (J E S R A : Type 0) where
  -- What signing leaves: its result, and the state of the signer and of the nonce manager.
  pub record Outcome (T : Type 0) : Type 0 where
    pub result : Result (Error J E) T
    pub signer_state : S
    pub nonces : Nonces

  abbrev pub failed : {T : Type 0} → Error J E → S → Nonces → Outcome T
  failed e s nonces = record { result = err e; signer_state = s; nonces = nonces }

  abbrev pub on_signer {ℓ} :
      {X : Type ℓ} → (Error J E → X) → (Signer E S → X) → Option (Signer E S) → X
  on_signer fail go none = fail no_signer
  on_signer fail go (some signer) = go signer

  abbrev pub on_actions {ℓ} : {X : Type ℓ} → (Error J E → X) → X → List (Action b) → X
  on_actions fail go [] = fail no_actions
  on_actions fail go (_ ∷ _) = go

  -- The checks that come first: some action, and a signer.
  abbrev pub checked {ℓ} :
      {X : Type ℓ} → Builder b c J E S R A → (Error J E → X) → (Signer E S → X) → X
  checked builder fail go =
      on_actions fail (on_signer fail go (chosen_signer b c J E S R A builder)) builder.actions

  -- `RpcClient::view_access_key`
  abbrev pub View : Type 0
  View = Bytes → PublicKey → Result (RpcError J) AccessKeyView

  abbrev pub nonce_key : Builder b c J E S R A → Signer E S → PublicKey → NonceKey
  nonce_key builder signer public_key = record {
    network = builder.network;
    account_id = signer.account_id;
    public_key = public_key;
  }

  built :
      Builder b c J E S R A
      → Signer E S
      → PublicKey
      → S
      → Nonces
      → Result (RpcError J) AccessKeyView
      → Outcome (Transaction b)
  built builder signer public_key s nonces (err e) = failed (of_rpc e) s nonces
  built builder signer public_key s nonces (ok access_key) =
      let (nonces', nonce) = next nonces (nonce_key builder signer public_key) access_key.nonce in
      record {
        result = ok (build b c J E S R A builder signer public_key nonce access_key.block_hash);
        signer_state = s;
        nonces = nonces';
      }

  -- `TransactionBuilder::build`, which looks at the public key without claiming a key.
  unfoldable pub build_transaction :
      Builder b c J E S R A → View → S → Nonces → Outcome (Transaction b)
  unfolding built build of_rpc chosen_signer
  build_transaction builder view s nonces =
      checked builder (λ e. failed e s nonces)
        (λ signer.
          let public_key = signer.public_key s in
          built builder signer public_key s nonces (view signer.account_id public_key))

  -- `TransactionBuilder::build_offline`; the account ID is parsed before, `none` if it is invalid.
  unfoldable pub build_offline :
      Builder b c J E S R A
      → (signer_id : Result (Error J E) Bytes) → PublicKey
      → (block_hash : Bytes) (nonce : ℕ) → Result (Error J E) (Transaction b)
  build_offline builder signer_id public_key block_hash nonce =
      on_actions (λ e. err e)
        (signer_id >>= λ id. ok (record {
          signer_id = id;
          public_key = public_key;
          nonce = nonce;
          receiver_id = builder.receiver_id;
          block_hash = block_hash;
          actions = builder.actions;
        }))
        builder.actions

  -- The signature of a transaction, where the key gave one.
  abbrev pub with_signature :
      Transaction b → S → Nonces → Result E Signature → Outcome (SignedTransaction b)
  with_signature t s nonces (err e) = failed (signing e) s nonces
  with_signature t s nonces (ok signature) = record {
    result = ok (record { transaction = t; signature = signature });
    signer_state = s;
    nonces = nonces;
  }

  abbrev pub sign_viewed :
      Builder b c J E S R A
      → Signer E S
      → SigningKey E
      → S
      → Nonces
      → Result (RpcError J) AccessKeyView
      → Outcome (SignedTransaction b)
  sign_viewed builder signer key s nonces (err e) = failed (of_rpc e) s nonces
  sign_viewed builder signer key s nonces (ok access_key) =
      let (nonces', nonce) =
        next nonces (nonce_key builder signer key.public_key) access_key.nonce in
      let t = build b c J E S R A builder signer key.public_key nonce access_key.block_hash in
      with_signature t s nonces' (key.sign (get_hash b c J E S R A t))

  -- `TransactionBuilder::sign`
  unfoldable pub sign : Builder b c J E S R A → View → S → Nonces → Outcome (SignedTransaction b)
  unfolding build of_rpc chosen_signer get_hash
  sign builder view s nonces =
      checked builder (λ e. failed e s nonces)
        (λ signer.
          let (key, s') = signer.key s in
          sign_viewed builder signer key s' nonces (view signer.account_id key.public_key))

  -- `TransactionBuilder::sign_offline`, which leaves the nonce manager alone.
  unfoldable pub sign_offline :
      Builder b c J E S R A
      → (block_hash : Bytes) (nonce : ℕ) → S
      → Nonces
      → Outcome (SignedTransaction b)
  unfolding build chosen_signer get_hash
  sign_offline builder block_hash nonce s nonces =
      checked builder (λ e. failed e s nonces)
        (λ signer.
          let (key, s') = signer.key s in
          let t = build b c J E S R A builder signer key.public_key nonce block_hash in
          with_signature t s' nonces (key.sign (get_hash b c J E S R A t)))

-- ===== src/Client/Send.antt =====
-- client/transaction.rs: sending a transaction, with its retries. The node is an argument: what it
-- answers to `view_access_key` and to `send_tx` at each attempt.
use near_kit_rs.Prelude.{
  ℕ, zero, suc, ◌+◌, ◌%◌, ◌^◌, Option, none, some, List, [], ◌∷◌, Bytes, Result, ok, err, ltb,
  if◌then◌else◌,
}
use near_kit_rs.Borsh.{Borsh}
use near_kit_rs.Key.{Crypto, PublicKey, Signature}
use near_kit_rs.Action.{Action}
use near_kit_rs.Transaction.{Transaction, SignedTransaction}
use near_kit_rs.Transaction.Codec.{transaction}
use near_kit_rs.Client.Errors.{InvalidTxError, RpcError}
use near_kit_rs.Client.Nonces.{NonceKey, Nonces, next}
use near_kit_rs.Client.Signers.{SigningKey, Signer}

-- `AccessKeyView`, as far as sending reads it.
pub record AccessKeyView : Type 0 where
  pub nonce : ℕ
  pub block_hash : Bytes

-- The errors of `error.rs` that sending gives; `unknown_error` is the one for a loop that ends.
pub data Error (J E : Type 0) : Type 0 where
  no_actions : Error J E
  no_signer : Error J E
  signing : E → Error J E
  rpc : RpcError J → Error J E
  invalid_tx : InvalidTxError J → Error J E
  no_outcome : Error J E
  unknown_error : Error J E

-- `From<RpcError> for Error`
unfoldable pub of_rpc : {J E : Type 0} → RpcError J → Error J E
of_rpc (RpcError.invalid_tx e) = Error.invalid_tx e
of_rpc other = Error.rpc other

module _ (b : Borsh) (c : Crypto) (J E S R A : Type 0) where
  -- The builder: `signer_override` and `signer` with what they keep, and the rest of the transaction.
  pub record Builder : Type 0 where
    pub signer_override : Option (Signer E S)
    pub signer : Option (Signer E S)
    pub receiver_id : Bytes
    pub actions : List (Action b)
    pub max_nonce_retries : ℕ
    pub network : Bytes

  -- The node at each attempt, and `W::convert` of the wait level.
  pub record Node : Type 0 where
    pub view_access_key : (attempt : ℕ) → Bytes → PublicKey → Result (RpcError J) AccessKeyView
    pub send_tx : (attempt : ℕ) → SignedTransaction b → Result (RpcError J) R
    pub convert : R → Bytes → Result (Error J E) A

  -- What sending leaves: the result, the transactions that reached the node, and the state of the
  -- signer and of the nonce manager.
  pub record Sent : Type 0 where
    pub result : Result (Error J E) A
    pub sent : List (SignedTransaction b)
    pub signer_state : S
    pub nonces : Nonces

  -- `Transaction::get_hash`
  unfoldable pub get_hash : Transaction b → Bytes
  get_hash t = c.sha256 ((transaction b c).put t)

  unfoldable pub unwrap_or : Option ℕ → ℕ → ℕ
  unwrap_or none default = default
  unwrap_or (some n) default = n

  unfoldable pub build : Builder → Signer E S → PublicKey → ℕ → Bytes → Transaction b
  build builder signer public_key nonce block_hash = record {
    signer_id = signer.account_id;
    public_key = public_key;
    nonce = nonce;
    receiver_id = builder.receiver_id;
    block_hash = block_hash;
    actions = builder.actions;
  }

  -- What the answer of the node comes to: the end, or another attempt with the nonce that the node
  -- holds for the key, when it said so.
  pub data Decision : Type 0 where
    finish : Result (Error J E) A → Decision
    retry : (last_ak_nonce : Option ℕ) (last_error : Error J E) → Decision

  unfoldable pub decide :
      Builder → Node → (account_id : Bytes) (attempt : ℕ) → Result (RpcError J) R → Decision
  decide builder node account_id attempt (ok response) = finish (node.convert response account_id)
  decide builder node account_id attempt
        (err (RpcError.invalid_tx (InvalidTxError.invalid_nonce ak_nonce tx_nonce))) =
      if ltb attempt builder.max_nonce_retries
      then retry (some ak_nonce) (invalid_tx (InvalidTxError.invalid_nonce ak_nonce tx_nonce))
      else finish
          (err (of_rpc (RpcError.invalid_tx (InvalidTxError.invalid_nonce ak_nonce tx_nonce))))
  decide builder node account_id attempt (err (RpcError.invalid_tx InvalidTxError.expired)) =
      if ltb ((attempt + 1) % 2 ^ 32) builder.max_nonce_retries
      then retry none (invalid_tx InvalidTxError.expired)
      else finish (err (of_rpc (RpcError.invalid_tx InvalidTxError.expired)))
  decide builder node account_id attempt (err e) = finish (err (of_rpc e))

  -- What the next attempt starts from.
  abbrev pub Rest : Type 0
  Rest =
      (last_error : Option (Error J E)) (last_ak_nonce : Option ℕ) (s : S) (nonces : Nonces) → Sent

  unfoldable pub conclude : SignedTransaction b → S → Nonces → Rest → Decision → Sent
  conclude signed s nonces rest (finish result) = record {
    result = result;
    sent = signed ∷ [];
    signer_state = s;
    nonces = nonces;
  }
  conclude signed s nonces rest (retry last_ak_nonce last_error) =
      let later = rest (some last_error) last_ak_nonce s nonces in
      record {
        result = later.result;
        sent = signed ∷ later.sent;
        signer_state = later.signer_state;
        nonces = later.nonces;
      }

  unfoldable pub submit :
      Builder
      → Node
      → (account_id : Bytes) (attempt : ℕ) → Transaction b
      → S
      → Nonces
      → Rest
      → Result E Signature
      → Sent
  unfolding conclude decide
  submit builder node account_id attempt t s nonces rest (err e) = record {
    result = err (signing e);
    sent = [];
    signer_state = s;
    nonces = nonces;
  }
  submit builder node account_id attempt t s nonces rest (ok signature) =
      let signed : SignedTransaction b = record { transaction = t; signature = signature } in
      conclude signed s nonces rest
        (decide builder node account_id attempt (node.send_tx attempt signed))

  unfoldable pub with_access_key :
      Builder
      → Node
      → Signer E S
      → (attempt : ℕ) → SigningKey E
      → (last_ak_nonce : Option ℕ) → S
      → Nonces
      → Rest
      → Result (RpcError J) AccessKeyView
      → Sent
  unfolding submit build get_hash unwrap_or of_rpc
  with_access_key builder node signer attempt key last_ak_nonce s nonces rest (err e) = record {
    result = err (of_rpc e);
    sent = [];
    signer_state = s;
    nonces = nonces;
  }
  with_access_key builder node signer attempt key last_ak_nonce s nonces rest (ok access_key) =
      let nonce_key : NonceKey = record {
        network = builder.network;
        account_id = signer.account_id;
        public_key = key.public_key;
      } in
      let (nonces', nonce) = next nonces nonce_key (unwrap_or last_ak_nonce access_key.nonce) in
      let t = build builder signer key.public_key nonce access_key.block_hash in
      submit builder node signer.account_id attempt t s nonces' rest (key.sign (get_hash t))

  -- `for attempt in 0..=max_nonce_retries`, with the number of attempts that remain.
  unfoldable pub send_loop : Builder → Node → Signer E S → (remaining attempt : ℕ) → Rest
  unfolding with_access_key
  send_loop builder node signer zero attempt none last_ak_nonce s nonces = record {
    result = err unknown_error;
    sent = [];
    signer_state = s;
    nonces = nonces;
  }
  send_loop builder node signer zero attempt (some e) last_ak_nonce s nonces = record {
    result = err e;
    sent = [];
    signer_state = s;
    nonces = nonces;
  }
  send_loop builder node signer (suc remaining) attempt last_error last_ak_nonce s nonces =
      let (key, s') = signer.key s in
      with_access_key builder node signer attempt key last_ak_nonce s' nonces
        (send_loop builder node signer remaining (attempt + 1))
        (node.view_access_key attempt signer.account_id key.public_key)

  unfoldable pub chosen_signer : Builder → Option (Signer E S)
  chosen_signer builder = elim builder.signer_override [
    | some signer ↦ some signer
    | none ↦ builder.signer
  ]

  unfoldable pub send_with : Builder → Node → S → Nonces → Option (Signer E S) → Sent
  unfolding send_loop
  send_with builder node s nonces none = record {
    result = err no_signer;
    sent = [];
    signer_state = s;
    nonces = nonces;
  }
  send_with builder node s nonces (some signer) =
      send_loop builder node signer (suc builder.max_nonce_retries) 0 none none s nonces

  unfoldable pub send_actions : Builder → Node → S → Nonces → List (Action b) → Sent
  unfolding send_with chosen_signer
  send_actions builder node s nonces [] = record {
    result = err no_actions;
    sent = [];
    signer_state = s;
    nonces = nonces;
  }
  send_actions builder node s nonces (_ ∷ _) =
      send_with builder node s nonces (chosen_signer builder)

  -- `TransactionSend::into_future`
  unfoldable pub send : Builder → Node → S → Nonces → Sent
  unfolding send_actions
  send builder node s nonces = send_actions builder node s nonces builder.actions

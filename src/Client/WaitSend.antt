-- ===== src/Client/WaitSend.antt =====
-- `send` with the conversion of a wait level and with `RpcClient::send_tx`.
use near_kit_rs.Prelude.{
  ℕ, suc, ◌≡◌, refl, sym, ap, ◌∙◌, Option, none, some, List, [], ◌∷◌, ◌++◌, Bytes, Result, ok, err,
  >>=-eq-ok, arith, if◌then◌else◌, Bool, true, false,
}
use near_kit_rs.Borsh.{Borsh}
use near_kit_rs.Key.{Crypto, PublicKey}
use near_kit_rs.Transaction.{SignedTransaction}
use near_kit_rs.Client.Errors.{InvalidTxError, RpcError}
use near_kit_rs.Client.Nonces.{Nonces}
use near_kit_rs.Client.Signers.{Signer}
use near_kit_rs.Client.Send.{
  AccessKeyView, Error, Builder, Node, Sent, Decision, finish, retry, decide, send_loop, send,
  get_hash,
}
use near_kit_rs.Client.SendLaws.{IsKnown}
use near_kit_rs.Client.SendInduction.{send_loop-ind}
use near_kit_rs.Client.SendRuns.{by_signer}
use near_kit_rs.Client.WaitLevel.{
  FinalExecutionStatus, failure, invalid_tx_error, action_error, not_started, started,
  success_value, FinalExecutionOutcome, RawTransactionResponse, SendTxResponse, WaitLevel,
  submitted, included, included_final, executed_optimistic, executed, final, Response, validated,
  from_outcome, extract_outcome, send_tx_response, convert, send_tx,
}
use near_kit_rs.Client.WaitLaws.{convert_iff}

module _ (b : Borsh) (c : Crypto) (J E S R A : Type 0) (builder : Builder b c J E S R A)
    (node : Node b c J E S R A) where
  if_retry :
      (t : Bool) (ak : Option ℕ) (e e' : Error J E) (a : A)
      → ◌≡◌ {A = Decision b c J E S R A} (if t then retry ak e else finish (err e')) (finish (ok a))
      → ⊥
  if_retry true ak e e' a h = cc
  if_retry false ak e e' a h = cc

  -- A run ends well only with an answer that the node gave, converted.
  finish_ok :
      (account_id : Bytes) (attempt : ℕ) (r : Result (RpcError J) R) (a : A)
      → decide b c J E S R A builder node account_id attempt r ≡ finish (ok a)
      → (response : R) × (r ≡ ok response) × (node.convert response account_id ≡ ok a)
  unfolding decide
  finish_ok account_id attempt (ok r) a h = (r, refl, cc)
  finish_ok account_id attempt (err (RpcError.invalid_tx (InvalidTxError.invalid_nonce x tx))) a h =
      absurd (if_retry _ _ _ _ a h)
  finish_ok account_id attempt (err (RpcError.invalid_tx InvalidTxError.expired)) a h =
      absurd (if_retry _ _ _ _ a h)
  finish_ok account_id attempt (err x) a h = cc

ok_injective : {F Y : Type 0} {x y : Y} → ◌≡◌ {A = Result F Y} (ok x) (ok y) → x ≡ y
ok_injective e = cc

module _ (b : Borsh) (c : Crypto) (J E S X T : Type 0) (w : WaitLevel J E X T) where
  abbrev Raw : Type 0
  Raw = RawTransactionResponse J E X T

  abbrev pub WaitNode : Type 0
  WaitNode = Node b c J E S Raw (Response J E X T w)

  -- A node behind `RpcClient`, with the conversion of the wait level.
  abbrev pub wait_node :
      (view : (attempt : ℕ) → Bytes → PublicKey → Result (RpcError J) AccessKeyView)
      (call : (attempt : ℕ) → SignedTransaction b → Result (RpcError J) Raw)
      → WaitNode
  wait_node view call = record {
    view_access_key = view;
    send_tx = λ attempt signed. send_tx J E X T b c (Response J E X T w) S (call attempt) signed;
    convert = convert J E X T w;
  }

  -- The hash in a `SendTxResponse`.
  abbrev pub hash_in : (w : WaitLevel J E X T) → Response J E X T w → Option Bytes
  hash_in submitted r = some r.transaction_hash
  hash_in included r = some r.transaction_hash
  hash_in included_final r = some r.transaction_hash
  hash_in executed_optimistic r = none
  hash_in executed r = none
  hash_in final r = none

  abbrev hash_of : SignedTransaction b → Bytes
  hash_of signed = get_hash b c J E S Raw (Response J E X T w) signed.transaction

  -- The last transaction that a run sent has the hash.
  abbrev pub LastHas : List (SignedTransaction b) → Bytes → Type 0
  LastHas sent h =
      (front : List (SignedTransaction b)) × (last : SignedTransaction b) × (sent
        ≡ front ++ last ∷ [])
      × (h ≡ hash_of last)

  carried :
      (response : Raw) (id : Bytes) (r : SendTxResponse J E X T) (h : Bytes)
      → r ≡ record {
        transaction_hash = response.transaction_hash;
        sender_id = id;
        outcome = response.outcome;
      }
      → some r.transaction_hash ≡ some h
      → h ≡ response.transaction_hash
  carried response id r h e k =
      let same : r.transaction_hash ≡ h = cc in sym same ∙ ap (λ x. x.transaction_hash) e

  converted_hash :
      (w : WaitLevel J E X T) (response : Raw) (id : Bytes) (r : Response J E X T w) (h : Bytes)
      → convert J E X T w response id ≡ ok r
      → hash_in w r ≡ some h
      → h ≡ response.transaction_hash
  converted_hash submitted response id r h e k =
      carried response id r h ((convert_iff J E X T submitted response id r).0 e) k
  converted_hash included response id r h e k =
      carried response id r h ((convert_iff J E X T included response id r).0 e) k
  converted_hash included_final response id r h e k =
      carried response id r h ((convert_iff J E X T included_final response id r).0 e) k
  converted_hash executed_optimistic response id r h e k = cc
  converted_hash executed response id r h e k = cc
  converted_hash final response id r h e k = cc

  hashed :
      (call : SignedTransaction b → Result (RpcError J) Raw) (signed : SignedTransaction b)
      (response : Raw)
      → send_tx J E X T b c (Response J E X T w) S call signed ≡ ok response
      → response.transaction_hash ≡ hash_of signed
  unfolding send_tx
  hashed call signed response e =
      let (raw, _, same) = >>=-eq-ok (call signed) _ e in
      let equal = ok_injective same in ap (λ x. x.transaction_hash) (sym equal)

  module _ (builder : Builder b c J E S Raw (Response J E X T w))
      (view : (attempt : ℕ) → Bytes → PublicKey → Result (RpcError J) AccessKeyView)
      (call : (attempt : ℕ) → SignedTransaction b → Result (RpcError J) Raw) where
    Hashes : Sent b c J E S Raw (Response J E X T w) → Type 0
    Hashes run =
        (r : Response J E X T w) (h : Bytes)
        → run.result ≡ ok r
        → hash_in w r ≡ some h
        → LastHas run.sent h

    stopped :
        (account_id : Bytes) (attempt : ℕ) (signed : SignedTransaction b) (r : Response J E X T w)
        (h : Bytes)
        → decide b c J E S Raw
            (Response J E X T w)
            builder
            (wait_node view call)
            account_id
            attempt
            (send_tx J E X T b c (Response J E X T w) S (call attempt) signed)
          ≡ finish (ok r)
        → hash_in w r ≡ some h
        → h ≡ hash_of signed
    stopped account_id attempt signed r h d k =
        let (response, answered, converted) =
          finish_ok b c J E S Raw (Response J E X T w) builder (wait_node view call) account_id
            attempt (send_tx J E X T b c (Response J E X T w) S (call attempt) signed) r d in
        converted_hash w response account_id r h converted k
        ∙ hashed (call attempt) signed response answered

    loop_end :
        (total : ℕ) (signer : Signer E S) (last_error : Option (Error J E)) (ak : Option ℕ) (s : S)
        (nonces : Nonces)
        → Hashes (
            send_loop b c J E S Raw
              (Response J E X T w)
              builder
              (wait_node view call)
              signer
              0
              total
              last_error
              ak
              s
              nonces)
    unfolding Hashes send_loop
    loop_end total signer none ak s nonces r h e k = cc
    loop_end total signer (some x) ak s nonces r h e k = cc

    loop-Hashes :
        (signer : Signer E S) (s : S) (nonces : Nonces)
        → Hashes (
            send_loop b c J E S Raw
              (Response J E X T w)
              builder
              (wait_node view call)
              signer
              (suc builder.max_nonce_retries)
              0
              none
              none
              s
              nonces)
    unfolding Hashes
    loop-Hashes signer s nonces =
        send_loop-ind b c J E S Raw (Response J E X T w) builder (wait_node view call) signer
          (λ _ _ _ _ _ run. Hashes run) (suc builder.max_nonce_retries)
          (λ e ak s n. loop_end _ signer e ak s n) (λ _ _ _ _ _ _ _ _ _ r h e k. cc)
          (λ attempt _ _ s n _ signed result _ d r h e k.
            ([], signed, refl, stopped signer.account_id attempt signed r h (d ∙ ap finish e) k))
          (λ attempt _ _ s n _ signed ak x later _ _ more r h e k.
            let (front, last, all, same) = more r h e k in
            (signed ∷ front, last, ap (signed ∷◌) all, same))
          (suc builder.max_nonce_retries) 0 (omega arith) none none s nonces

    -- Where `send` ends at a wait level before execution with a response, the transaction hash in
    -- it is that of the last transaction that was sent.
    pub send-LastHas :
        (s : S) (nonces : Nonces) (r : Response J E X T w) (h : Bytes)
        → (send b c J E S Raw (Response J E X T w) builder (wait_node view call) s nonces).result
          ≡ ok r
        → hash_in w r ≡ some h
        → LastHas
            (send b c J E S Raw (Response J E X T w) builder (wait_node view call) s nonces).sent
            h
    unfolding Hashes
    send-LastHas s nonces =
        by_signer b c J E S Raw (Response J E X T w) builder (wait_node view call) Hashes s nonces
          (λ e _ r h e' k. cc) (λ signer _. loop-Hashes signer s nonces)

-- No wait level gives the error for a loop that ran out.
module _ (b : Borsh) (c : Crypto) (J E S R X T : Type 0) where
  validated-Known :
      (builder : Builder b c J E S R (FinalExecutionOutcome J E X T))
      (node : Node b c J E S R (FinalExecutionOutcome J E X T)) (o : FinalExecutionOutcome J E X T)
      (status : FinalExecutionStatus J X)
      → IsKnown b c J E S R
          (FinalExecutionOutcome J E X T)
          builder
          node
          (validated J E X T o status)
  validated-Known builder node o (failure (invalid_tx_error e)) = refl
  validated-Known builder node o (failure (action_error x)) = tt
  validated-Known builder node o not_started = tt
  validated-Known builder node o started = tt
  validated-Known builder node o (success_value v) = tt

  outcome-Known :
      (builder : Builder b c J E S R (FinalExecutionOutcome J E X T))
      (node : Node b c J E S R (FinalExecutionOutcome J E X T))
      (o : Option (FinalExecutionOutcome J E X T))
      → IsKnown b c J E S R (FinalExecutionOutcome J E X T) builder node (from_outcome J E X T o)
  outcome-Known builder node none = refl
  outcome-Known builder node (some o) = validated-Known builder node o o.status

  pub convert-IsKnown :
      (w : WaitLevel J E X T) (builder : Builder b c J E S R (Response J E X T w))
      (node : Node b c J E S R (Response J E X T w)) (response : RawTransactionResponse J E X T)
      (id : Bytes)
      → IsKnown b c J E S R (Response J E X T w) builder node (convert J E X T w response id)
  unfolding convert send_tx_response extract_outcome
  convert-IsKnown submitted builder node response id = tt
  convert-IsKnown included builder node response id = tt
  convert-IsKnown included_final builder node response id = tt
  convert-IsKnown executed_optimistic builder node response id =
      outcome-Known builder node response.outcome
  convert-IsKnown executed builder node response id = outcome-Known builder node response.outcome
  convert-IsKnown final builder node response id = outcome-Known builder node response.outcome

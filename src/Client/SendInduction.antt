-- ===== src/Client/SendInduction.antt =====
-- Induction over the attempts of the send loop of client/transaction.rs.
use mathlib.Core.Path.{subst}
use near_kit_rs.Prelude.{
  ℕ, zero, suc, ◌+◌, ◌≡◌, refl, Option, none, some, [], ◌∷◌, Bytes, Result, ok, err, arith,
  Result-cases, ◌⊎◌, inl, inr,
}
use near_kit_rs.Borsh.{Borsh}
use near_kit_rs.Key.{Crypto}
use near_kit_rs.Transaction.{Transaction, SignedTransaction}
use near_kit_rs.Client.Errors.{RpcError}
use near_kit_rs.Client.Nonces.{NonceKey, Nonces, next}
use near_kit_rs.Client.Signers.{SigningKey, Signer}
use near_kit_rs.Client.Send.{
  AccessKeyView, Error, signing, of_rpc, Builder, Node, Sent, Decision, finish, retry, get_hash,
  unwrap_or, build, decide, conclude, submit, with_access_key, send_loop,
}

module _ (b : Borsh) (c : Crypto) (J E S R A : Type 0) (builder : Builder b c J E S R A)
    (node : Node b c J E S R A) (signer : Signer E S) where
  abbrev pub key_of : S → SigningKey E
  key_of s = (signer.key s).0

  abbrev pub nonce_key : S → NonceKey
  nonce_key s = record {
    network = builder.network;
    account_id = signer.account_id;
    public_key = (key_of s).public_key;
  }

  abbrev pub provided : Option ℕ → AccessKeyView → ℕ
  provided last_ak_nonce access_key = unwrap_or b c J E S R A last_ak_nonce access_key.nonce

  -- The transaction of one attempt.
  abbrev pub transaction_of : Option ℕ → S → Nonces → AccessKeyView → Transaction b
  transaction_of last_ak_nonce s nonces access_key =
      build b c J E S R A builder signer (key_of s).public_key
        (next nonces (nonce_key s) (provided last_ak_nonce access_key)).1 access_key.block_hash

  -- An attempt that came to send `signed`.
  abbrev pub Attempted :
      (attempt : ℕ) (last_ak_nonce : Option ℕ) (s : S) (nonces : Nonces)
      (access_key : AccessKeyView) (signed : SignedTransaction b)
      → Type 0
  Attempted attempt last_ak_nonce s nonces access_key signed =
      (node.view_access_key attempt signer.account_id (key_of s).public_key ≡ ok access_key)
      × (signed.transaction ≡ transaction_of last_ak_nonce s nonces access_key)
      × ((key_of s).sign (get_hash b c J E S R A signed.transaction) ≡ ok signed.signature)

  abbrev pub decision : (attempt : ℕ) → SignedTransaction b → Decision b c J E S R A
  decision attempt signed =
      decide b c J E S R A builder node signer.account_id attempt (node.send_tx attempt signed)

  pub send_loop-zero :
      (total : ℕ) (last_error : Option (Error J E)) (ak : Option ℕ) (s : S) (nonces : Nonces)
      → (send_loop b c J E S R A builder node signer zero total last_error ak s nonces).sent ≡ []
  unfolding send_loop
  send_loop-zero total none ak s nonces = refl
  send_loop-zero total (some e) ak s nonces = refl

  decision_cases :
      (d : Decision b c J E S R A)
      → ((result : Result (Error J E) A) × (d ≡ finish result))
        ⊎ ((ak : Option ℕ) × (e : Error J E) × (d ≡ retry ak e))
  decision_cases (finish result) = inl (result, refl)
  decision_cases (retry ak e) = inr (ak, e, refl)

  module _ (P : ℕ → Option (Error J E) → Option ℕ → S → Nonces → Sent b c J E S R A → Type 0) where
    abbrev pub AtEnd : ℕ → Type 0
    AtEnd total =
        (last_error : Option (Error J E)) (last_ak_nonce : Option ℕ) (s : S) (nonces : Nonces)
        → P total last_error last_ak_nonce s nonces (
            send_loop b c J E S R A builder node signer zero total last_error last_ak_nonce s
              nonces)

    -- The node did not give the access key, or the key did not sign: nothing is sent.
    abbrev pub AtFailure : Type 0
    AtFailure =
        (attempt : ℕ) (last_error : Option (Error J E)) (last_ak_nonce : Option ℕ) (s s' : S)
        (nonces nonces' : Nonces) (e : Error J E)
        → ((x : RpcError J) × (e ≡ of_rpc x)
            × (node.view_access_key attempt signer.account_id (key_of s).public_key ≡ err x))
          ⊎ ((x : E) × (e ≡ signing x) × (m : Bytes) × ((key_of s).sign m ≡ err x))
        → P attempt last_error last_ak_nonce s nonces
            (record { result = err e; sent = []; signer_state = s'; nonces = nonces' })

    abbrev pub AtStop : Type 0
    AtStop =
        (attempt : ℕ) (last_error : Option (Error J E)) (last_ak_nonce : Option ℕ) (s : S)
        (nonces : Nonces) (access_key : AccessKeyView) (signed : SignedTransaction b)
        (result : Result (Error J E) A)
        → Attempted attempt last_ak_nonce s nonces access_key signed
        → decision attempt signed ≡ finish result
        → P attempt last_error last_ak_nonce s nonces (record {
          result = result;
          sent = signed ∷ [];
          signer_state = (signer.key s).1;
          nonces = (next nonces (nonce_key s) (provided last_ak_nonce access_key)).0;
        })

    abbrev pub AtRetry : Type 0
    AtRetry =
        (attempt : ℕ) (last_error : Option (Error J E)) (last_ak_nonce : Option ℕ) (s : S)
        (nonces : Nonces) (access_key : AccessKeyView) (signed : SignedTransaction b)
        (new_ak_nonce : Option ℕ) (e : Error J E) (later : Sent b c J E S R A)
        → Attempted attempt last_ak_nonce s nonces access_key signed
        → decision attempt signed ≡ retry new_ak_nonce e
        → P (attempt + 1) (some e) new_ak_nonce (signer.key s).1
            (next nonces (nonce_key s) (provided last_ak_nonce access_key)).0 later
        → P attempt last_error last_ak_nonce s nonces (record {
          result = later.result;
          sent = signed ∷ later.sent;
          signer_state = later.signer_state;
          nonces = later.nonces;
        })

    -- A property of the runs of the loop, from its end and from each way that one attempt goes.
    pub send_loop-ind :
        (total : ℕ)
        → AtEnd total
        → AtFailure
        → AtStop
        → AtRetry
        → (remaining attempt : ℕ) → attempt + remaining ≡ total
        → (last_error : Option (Error J E)) (last_ak_nonce : Option ℕ) (s : S) (nonces : Nonces)
        → P attempt last_error last_ak_nonce s nonces (
            send_loop b c J E S R A builder node signer remaining attempt last_error last_ak_nonce s
              nonces)
    unfolding send_loop with_access_key submit conclude
    send_loop-ind total end failure stop again zero attempt h last_error last_ak_nonce s nonces =
        subst
          (λ a.
            P a last_error last_ak_nonce s nonces (
              send_loop b c J E S R A builder node signer zero a last_error last_ak_nonce s nonces))
          same (end last_error last_ak_nonce s nonces)
      where
        same : total ≡ attempt
        same = omega arith
    send_loop-ind total end failure stop again (suc remaining) attempt h last_error last_ak_nonce s
          nonces =
        elim (Result-cases (node.view_access_key attempt signer.account_id (key_of s).public_key)) [
          | inr (e, v) ↦
              rw (v) (
                failure attempt last_error last_ak_nonce s _ nonces _ (of_rpc e) (inl (e, refl, v)))
          | inl (access_key, v) ↦
              let t = transaction_of last_ak_nonce s nonces access_key in
              elim (Result-cases ((key_of s).sign (get_hash b c J E S R A t))) [
                | inr (e, g) ↦
                    rw (v, g)
                      (failure attempt last_error last_ak_nonce s _ nonces _ (signing e)
                        (inr (e, refl, _, g)))
                | inl (signature, g) ↦
                    let signed : SignedTransaction b = record {
                      transaction = t;
                      signature = signature;
                    } in
                    elim (decision_cases (decision attempt signed)) [
                      | inl (result, d) ↦
                          rw (v, g, d)
                            (stop attempt last_error last_ak_nonce s nonces access_key signed result
                              (v, refl, g) d)
                      | inr (ak, e, d) ↦
                          rw (v, g, d)
                            (again attempt last_error last_ak_nonce s nonces access_key signed ak e
                              _ (v, refl, g) d
                              (send_loop-ind total end failure stop again remaining (attempt + 1)
                                (omega arith) (some e) ak _ _))
                    ]
              ]
        ]

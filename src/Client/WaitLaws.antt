-- ===== src/Client/WaitLaws.antt =====
-- What the wait levels deliver, alone and at the end of `send`.
use near_kit_rs.Prelude.{◌≡◌, ◌≢◌, ◌↔◌, refl, sym, ap, ◌∙◌, Option, none, some, Bytes, Result, ok}
use near_kit_rs.Client.Errors.{InvalidTxError}
use near_kit_rs.Client.Send.{Error}
use near_kit_rs.Client.WaitLevel.{
  FinalExecutionStatus, failure, invalid_tx_error, action_error, not_started, started,
  success_value, FinalExecutionOutcome, RawTransactionResponse, WaitLevel, submitted, included,
  included_final, executed_optimistic, executed, final, Response, validated, from_outcome,
  extract_outcome, send_tx_response, convert,
}

module _ (J E X T : Type 0) where
  -- An outcome that is delivered is the node's, and no invalid transaction.
  abbrev pub IsOutcome : RawTransactionResponse J E X T → FinalExecutionOutcome J E X T → Type 0
  IsOutcome response outcome =
      (response.outcome ≡ some outcome)
      × ((e : InvalidTxError J) → outcome.status ≢ failure (invalid_tx_error e))

  -- What a wait level delivers for a response.
  abbrev pub Delivers :
      (w : WaitLevel J E X T)
      → RawTransactionResponse J E X T
      → (sender_id : Bytes) → Response J E X T w
      → Type 0
  Delivers submitted response sender_id r = r ≡ record {
    transaction_hash = response.transaction_hash;
    sender_id = sender_id;
    outcome = response.outcome;
  }
  Delivers included response sender_id r = r ≡ record {
    transaction_hash = response.transaction_hash;
    sender_id = sender_id;
    outcome = response.outcome;
  }
  Delivers included_final response sender_id r = r ≡ record {
    transaction_hash = response.transaction_hash;
    sender_id = sender_id;
    outcome = response.outcome;
  }
  Delivers executed_optimistic response sender_id r = IsOutcome response r
  Delivers executed response sender_id r = IsOutcome response r
  Delivers final response sender_id r = IsOutcome response r

  -- The outcome that is passed on has the status that was looked at.
  passed_on :
      (o r : FinalExecutionOutcome J E X T) (status : FinalExecutionStatus J X)
      → status ≡ o.status
      → ((e : InvalidTxError J) → status ≢ failure (invalid_tx_error e))
      → (◌≡◌ {A = Result (Error J E) (FinalExecutionOutcome J E X T)} (ok o) (ok r)) ↔ (
          (◌≡◌ {A = Option (FinalExecutionOutcome J E X T)} (some o) (some r))
          × ((e : InvalidTxError J) → r.status ≢ failure (invalid_tx_error e)))
  passed_on o r status same valid = (
    λ h.
        let equal : o ≡ r = cc in
        (ap some equal, λ e k. valid e (same ∙ ap (λ x. x.status) equal ∙ k)),
    λ (h, _). let equal : o ≡ r = cc in ap ok equal,
  )

  validated_iff :
      (o r : FinalExecutionOutcome J E X T) (status : FinalExecutionStatus J X)
      → status ≡ o.status
      → (validated J E X T o status ≡ ok r) ↔ (
          (◌≡◌ {A = Option (FinalExecutionOutcome J E X T)} (some o) (some r))
          × ((e : InvalidTxError J) → r.status ≢ failure (invalid_tx_error e)))
  validated_iff o r (failure (invalid_tx_error e)) same = (
    λ h. cc,
    λ (h, valid).
        let equal : o ≡ r = cc in absurd (valid e (sym (ap (λ x. x.status) equal) ∙ sym same)),
  )
  validated_iff o r (failure (action_error x)) same = passed_on o r _ same (λ e k. cc)
  validated_iff o r not_started same = passed_on o r _ same (λ e k. cc)
  validated_iff o r started same = passed_on o r _ same (λ e k. cc)
  validated_iff o r (success_value s) same = passed_on o r _ same (λ e k. cc)

  outcome_iff :
      (o : Option (FinalExecutionOutcome J E X T)) (r : FinalExecutionOutcome J E X T)
      → (from_outcome J E X T o ≡ ok r)
        ↔ ((o ≡ some r) × ((e : InvalidTxError J) → r.status ≢ failure (invalid_tx_error e)))
  outcome_iff none r = (λ h. cc, λ (h, _). cc)
  outcome_iff (some o) r = validated_iff o r o.status refl

  plain_iff : {Y : Type 0} (x y : Y) → (◌≡◌ {A = Result (Error J E) Y} (ok x) (ok y)) ↔ (y ≡ x)
  plain_iff x y = (λ e. cc, λ e. cc)

  -- A wait level that waits for execution delivers exactly the outcome of the response, if there is
  -- one and it is no invalid transaction; every other level delivers exactly the hash, the sender
  -- and the outcome so far.
  pub convert_iff :
      (w : WaitLevel J E X T) (response : RawTransactionResponse J E X T) (sender_id : Bytes)
      (r : Response J E X T w)
      → (convert J E X T w response sender_id ≡ ok r) ↔ Delivers w response sender_id r
  unfolding convert send_tx_response extract_outcome
  convert_iff submitted response sender_id r = plain_iff _ r
  convert_iff included response sender_id r = plain_iff _ r
  convert_iff included_final response sender_id r = plain_iff _ r
  convert_iff executed_optimistic response sender_id r = outcome_iff response.outcome r
  convert_iff executed response sender_id r = outcome_iff response.outcome r
  convert_iff final response sender_id r = outcome_iff response.outcome r

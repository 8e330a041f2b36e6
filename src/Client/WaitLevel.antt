-- ===== src/Client/WaitLevel.antt =====
-- types/wait_level.rs: the wait levels, and what each makes of a response; the parts of types/rpc.rs
-- that they read, and client/rpc.rs's `send_tx` and `tx_status`. `X` stands for action errors, and
-- `T` for the views of transactions and receipts, which are passed on.
use near_kit_rs.Prelude.{
  ℕ, ◌+◌, ◌%◌, ◌^◌, Bool, true, false, Option, none, some, List, [], ◌∷◌, Bytes, Result, ok, err,
  ◌>>=◌, map_err,
}
use near_kit_rs.Borsh.{Borsh}
use near_kit_rs.Key.{Crypto}
use near_kit_rs.Transaction.{SignedTransaction}
use near_kit_rs.Status.{TxExecutionStatus}
use near_kit_rs.Client.Errors.{InvalidTxError, RpcError}
use near_kit_rs.Client.Send.{Error, no_outcome, get_hash}

module _ (J X : Type 0) where
  pub data TxExecutionError : Type 0 where
    action_error : X → TxExecutionError
    invalid_tx_error : InvalidTxError J → TxExecutionError

  pub data FinalExecutionStatus : Type 0 where
    not_started started : FinalExecutionStatus
    failure : TxExecutionError → FinalExecutionStatus
    success_value : Bytes → FinalExecutionStatus

-- `ExecutionOutcomeWithId`, as far as it is read.
pub record ExecutionOutcomeWithId : Type 0 where
  pub id : Bytes
  pub gas_burnt : ℕ

module _ (J E X T : Type 0) where
  pub record FinalExecutionOutcome : Type 0 where
    pub status : FinalExecutionStatus J X
    pub transaction : T
    pub transaction_outcome : ExecutionOutcomeWithId
    pub receipts_outcome : List ExecutionOutcomeWithId
    pub receipts : List T

  pub record RawTransactionResponse : Type 0 where
    pub transaction_hash : Bytes
    pub final_execution_status : TxExecutionStatus
    pub outcome : Option FinalExecutionOutcome

  pub record SendTxResponse : Type 0 where
    pub transaction_hash : Bytes
    pub sender_id : Bytes
    pub outcome : Option FinalExecutionOutcome

  is_success_status : FinalExecutionStatus J X → Bool
  is_success_status (success_value _) = true
  is_success_status _ = false

  unfoldable pub is_success : FinalExecutionOutcome → Bool
  unfolding is_success_status
  is_success outcome = is_success_status outcome.status

  is_failure_status : FinalExecutionStatus J X → Bool
  is_failure_status (failure _) = true
  is_failure_status _ = false

  unfoldable pub is_failure : FinalExecutionOutcome → Bool
  unfolding is_failure_status
  is_failure outcome = is_failure_status outcome.status

  -- The sum wraps in a release build.
  unfoldable pub sum_gas : List ExecutionOutcomeWithId → ℕ
  sum_gas [] = 0
  sum_gas (r ∷ receipts) = (r.gas_burnt + sum_gas receipts) % 2 ^ 64

  unfoldable pub total_gas_used : FinalExecutionOutcome → ℕ
  unfolding sum_gas
  total_gas_used outcome =
      (outcome.transaction_outcome.gas_burnt + sum_gas outcome.receipts_outcome) % 2 ^ 64

  -- The errors of `FinalExecutionOutcome::result`.
  pub data ResultError : Type 0 where
    invalid_tx : InvalidTxError J → ResultError
    failed_action : X → ResultError
    no_base64 not_finished : ResultError

  module _ (decode : Bytes → Result Unit Bytes) where
    result_of : FinalExecutionStatus J X → Result ResultError Bytes
    result_of (failure (invalid_tx_error e)) = err (invalid_tx e)
    result_of (failure (action_error e)) = err (failed_action e)
    result_of (success_value s) = map_err (λ _. no_base64) (decode s)
    result_of _ = err not_finished

    unfoldable pub result : FinalExecutionOutcome → Result ResultError Bytes
    unfolding result_of
    result outcome = result_of outcome.status

  -- `send_tx_response`
  unfoldable pub send_tx_response : RawTransactionResponse → (sender_id : Bytes) → SendTxResponse
  send_tx_response response sender_id = record {
    transaction_hash = response.transaction_hash;
    sender_id = sender_id;
    outcome = response.outcome;
  }

  abbrev pub validated :
      FinalExecutionOutcome → FinalExecutionStatus J X → Result (Error J E) FinalExecutionOutcome
  validated outcome (failure (invalid_tx_error e)) = err (Error.invalid_tx e)
  validated outcome _ = ok outcome

  abbrev pub from_outcome : Option FinalExecutionOutcome → Result (Error J E) FinalExecutionOutcome
  from_outcome none = err no_outcome
  from_outcome (some outcome) = validated outcome outcome.status

  -- `extract_outcome`
  unfoldable pub extract_outcome : RawTransactionResponse → Result (Error J E) FinalExecutionOutcome
  extract_outcome response = from_outcome response.outcome

  pub data WaitLevel : Type 0 where
    submitted included included_final executed_optimistic executed final : WaitLevel

  -- `WaitLevel::Response` and `WaitLevel::STATUS`
  abbrev pub Response : WaitLevel → Type 0
  Response submitted = SendTxResponse
  Response included = SendTxResponse
  Response included_final = SendTxResponse
  Response executed_optimistic = FinalExecutionOutcome
  Response executed = FinalExecutionOutcome
  Response final = FinalExecutionOutcome

  unfoldable pub status_of : WaitLevel → TxExecutionStatus
  status_of submitted = TxExecutionStatus.nothing
  status_of included = TxExecutionStatus.included
  status_of included_final = TxExecutionStatus.included_final
  status_of executed_optimistic = TxExecutionStatus.executed_optimistic
  status_of executed = TxExecutionStatus.executed
  status_of final = TxExecutionStatus.final

  -- `WaitLevel::convert`
  unfoldable pub convert :
      (w : WaitLevel)
      → RawTransactionResponse
      → (sender_id : Bytes) → Result (Error J E) (Response w)
  unfolding send_tx_response extract_outcome
  convert submitted response sender_id = ok (send_tx_response response sender_id)
  convert included response sender_id = ok (send_tx_response response sender_id)
  convert included_final response sender_id = ok (send_tx_response response sender_id)
  convert executed_optimistic response sender_id = extract_outcome response
  convert executed response sender_id = extract_outcome response
  convert final response sender_id = extract_outcome response

  abbrev with_hash : RawTransactionResponse → Bytes → RawTransactionResponse
  with_hash response transaction_hash = record response { transaction_hash = transaction_hash }

  -- `RpcClient::send_tx`, from what the node answers to the call.
  unfoldable pub send_tx :
      (b : Borsh) (c : Crypto) (A S : Type 0)
      (call : SignedTransaction b → Result (RpcError J) RawTransactionResponse)
      → SignedTransaction b
      → Result (RpcError J) RawTransactionResponse
  unfolding get_hash
  send_tx b c A S call signed = call signed >>= λ response.
      ok (with_hash response (get_hash b c J E S RawTransactionResponse A signed.transaction))

  abbrev hash_or : Option FinalExecutionOutcome → Bytes → Bytes
  hash_or none tx_hash = tx_hash
  hash_or (some outcome) tx_hash = outcome.transaction_outcome.id

  -- `RpcClient::tx_status`
  unfoldable pub tx_status :
      Result (RpcError J) RawTransactionResponse
      → (tx_hash : Bytes) → Result (RpcError J) RawTransactionResponse
  tx_status answer tx_hash =
      answer >>= λ response. ok (with_hash response (hash_or response.outcome tx_hash))

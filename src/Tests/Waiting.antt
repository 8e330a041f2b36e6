-- ===== src/Tests/Waiting.antt =====
-- Wait levels and pages at concrete values.
use near_kit_rs.Prelude.{
  ℕ, zero, suc, ◌≡◌, ◌↔◌, refl, none, some, Option, [], ◌∷◌, Bytes, Result, ok, arith, inl, inr,
}
use near_kit_rs.Borsh.Format.{format}
use near_kit_rs.Key.{PublicKey}
use near_kit_rs.Transaction.{SignedTransaction}
use near_kit_rs.Status.{TxExecutionStatus}
use near_kit_rs.Client.Errors.{RpcError}
use near_kit_rs.Client.Signers
use near_kit_rs.Client.Send.{Builder, send, chosen_signer, AccessKeyView}
use near_kit_rs.Client.WaitLevel
use near_kit_rs.Client.WaitLevel.{
  FinalExecutionOutcome, RawTransactionResponse, FinalExecutionStatus, SendTxResponse, WaitLevel,
  convert,
}
use near_kit_rs.Client.WaitLaws.{Delivers, convert_iff}
use near_kit_rs.Client.WaitSend.{wait_node, LastHas, send-LastHas}
use near_kit_rs.Client.Paging.{Page, Pages, BlockReference, view_state_all}
use near_kit_rs.Client.PagingLaws.{Contents, Serves, IsComplete, view_state_all-IsComplete}
use near_kit_rs.Tests.Samples.{crypto, key, signature, alice, bob, transfer, zeros}

abbrev outcome : FinalExecutionOutcome ℕ ℕ ℕ ℕ
outcome = record {
  status = WaitLevel.success_value [];
  transaction = 0;
  transaction_outcome = record { id = zeros 32; gas_burnt = 5 };
  receipts_outcome = [];
  receipts = [];
}

abbrev response : RawTransactionResponse ℕ ℕ ℕ ℕ
response = record {
  transaction_hash = [];
  final_execution_status = TxExecutionStatus.executed;
  outcome = some outcome;
}

convert_iff_example :
    (convert ℕ ℕ ℕ ℕ WaitLevel.executed response alice ≡ ok outcome)
    ↔ Delivers ℕ ℕ ℕ ℕ WaitLevel.executed response alice outcome
convert_iff_example = convert_iff ℕ ℕ ℕ ℕ WaitLevel.executed response alice outcome

abbrev level : WaitLevel ℕ ℕ ℕ ℕ
level = WaitLevel.included

abbrev signer : Signers.Signer ℕ Unit
signer = Signers.in_memory_signer ℕ (record {
  account_id = alice;
  secret_key = record { public_key = key; sign = λ _. ok signature };
})

abbrev builder :
    Builder format crypto ℕ ℕ Unit (RawTransactionResponse ℕ ℕ ℕ ℕ) (SendTxResponse ℕ ℕ ℕ ℕ)
builder = record {
  signer_override = none;
  signer = some signer;
  receiver_id = bob;
  actions = transfer ∷ [];
  max_nonce_retries = 3;
  network = [];
}

abbrev view : ℕ → Bytes → PublicKey → Result (RpcError ℕ) AccessKeyView
view _ _ _ = ok (record { nonce = 10; block_hash = [] })

abbrev included_response : SendTxResponse ℕ ℕ ℕ ℕ
included_response = record {
  transaction_hash = zeros 32;
  sender_id = alice;
  outcome = some outcome;
}

abbrev call : ℕ → SignedTransaction format → Result (RpcError ℕ) (RawTransactionResponse ℕ ℕ ℕ ℕ)
call _ _ = ok response

answered :
    (send format crypto ℕ ℕ Unit
      (RawTransactionResponse ℕ ℕ ℕ ℕ)
      (SendTxResponse ℕ ℕ ℕ ℕ)
      builder
      (wait_node format crypto ℕ ℕ Unit ℕ ℕ level view call)
      tt
      []).result
    ≡ ok included_response
unfolding send chosen_signer WaitLevel.send_tx convert
answered = refl

send-LastHas_example :
    LastHas format crypto ℕ ℕ Unit ℕ ℕ level
      (send format crypto ℕ ℕ Unit
        (RawTransactionResponse ℕ ℕ ℕ ℕ)
        (SendTxResponse ℕ ℕ ℕ ℕ)
        builder
        (wait_node format crypto ℕ ℕ Unit ℕ ℕ level view call)
        tt
        []).sent
      (zeros 32)
send-LastHas_example =
    send-LastHas format crypto ℕ ℕ Unit ℕ ℕ level builder view call tt [] included_response
      (zeros 32) answered refl

-- A node with the items 1, 2 and 3, and pages of two items.
abbrev contents : Contents ℕ ℕ ℕ
contents _ none = 1 ∷ 2 ∷ 3 ∷ []
contents _ (some zero) = []
contents _ (some (suc _)) = 3 ∷ []

abbrev block_of : BlockReference → Bytes
block_of (BlockReference.hash h) = h
block_of _ = zeros 32

abbrev page_after : Option ℕ → Bytes → Page ℕ ℕ
page_after none h = record {
  values = 1 ∷ 2 ∷ [];
  last_key = some 2;
  block_height = 7;
  block_hash = h;
}
page_after (some zero) h = record { values = []; last_key = none; block_height = 7; block_hash = h }
page_after (some (suc _)) h = record {
  values = 3 ∷ [];
  last_key = none;
  block_height = 7;
  block_hash = h;
}

abbrev pages : Pages ℕ ℕ ℕ
pages _ after _ block = ok (page_after after (block_of block))

serves : Serves ℕ ℕ ℕ contents 2 pages
serves request none (BlockReference.hash h) = (_, refl, refl, inr (2, refl, omega arith, refl))
serves request none (BlockReference.finality f) = (_, refl, tt, inr (2, refl, omega arith, refl))
serves request none (BlockReference.height n) = (_, refl, tt, inr (2, refl, omega arith, refl))
serves request none (BlockReference.sync_checkpoint p) =
    (_, refl, tt, inr (2, refl, omega arith, refl))
serves request (some zero) (BlockReference.hash h) = (_, refl, refl, inl (refl, refl))
serves request (some zero) (BlockReference.finality f) = (_, refl, tt, inl (refl, refl))
serves request (some zero) (BlockReference.height n) = (_, refl, tt, inl (refl, refl))
serves request (some zero) (BlockReference.sync_checkpoint p) = (_, refl, tt, inl (refl, refl))
serves request (some (suc _)) (BlockReference.hash h) = (_, refl, refl, inl (refl, refl))
serves request (some (suc _)) (BlockReference.finality f) = (_, refl, tt, inl (refl, refl))
serves request (some (suc _)) (BlockReference.height n) = (_, refl, tt, inl (refl, refl))
serves request (some (suc _)) (BlockReference.sync_checkpoint p) = (_, refl, tt, inl (refl, refl))

view_state_all-IsComplete_example :
    IsComplete ℕ ℕ ℕ contents
      (BlockReference.height 7)
      (view_state_all ℕ ℕ ℕ pages 3 2 (BlockReference.height 7))
view_state_all-IsComplete_example =
    view_state_all-IsComplete ℕ ℕ ℕ contents 2 pages serves 3 (BlockReference.height 7)
      (λ h. omega arith)

-- ===== src/Rpc/RetryLaws.antt =====
-- Each cause that `parse_rpc_error` tells apart, and which errors are worth a retry.
use near_kit_rs.Prelude.{
  ◌≡◌, ◌↔◌, ◌⊎◌, inl, inr, refl, sym, ap, ◌∙◌, Bool, true, false, Option, none, some, Bytes, codes,
  ◌>>?◌,
}
use near_kit_rs.Key.{Crypto}
use near_kit_rs.Client.Errors.{RpcError, Context, is_retryable}
use near_kit_rs.Rpc.Panics.{unwrap_or, parse_account_id}
use near_kit_rs.Rpc.Causes.{
  Json, ErrorCause, JsonRpcError, Cause, cause_of, or_else, invalid_transaction_error,
  unknown_account, invalid_account, unknown_access_key, unknown_gas_key, unknown_block,
  garbage_collected_block, unknown_chunk, unknown_epoch, unknown_receipt, no_contract_code,
  no_global_contract_code, too_large_contract_state, contract_execution_error, unavailable_shard,
  not_synced, invalid_shard_id, invalid_transaction, timeout_error, parse_error, internal_error,
  too_many_access_keys, other_cause, data_text, text_field, parse_function_call_error,
}
use near_kit_rs.Rpc.Parse.{
  of_cause, by_cause, by_text, parse_rpc_error, classified, execution_failed, requested, u32_field,
  public_key_field, contract_field, missing_account, or_unknown, failed_contract, failed_method,
  parse_error_block_context,
}
use near_kit_rs.Rpc.Retryable.{
  is_transient, IsSettled, settled, >>?-IsSettled, or_else-IsSettled, classify-IsSettled,
  legacy-IsSettled, Agrees, settled-Agrees, never, always, invalid_tx-Agrees, IsRefusedForNow,
  true_not_false,
}

module _ (c : Crypto) (J : Type 0) (json : Json J) (valid : Bytes → Bool) where
  module _ (error : JsonRpcError J) (info : Option J) (block : Context J) where
    classified-IsSettled : IsSettled J (classified c J json valid error info block)
    unfolding classified
    classified-IsSettled =
        let contract_id = failed_contract c J json valid info in
        let method_name = failed_method c J json valid info in
        let legacy = legacy-IsSettled J valid contract_id method_name block in
        or_else-IsSettled J _ _
          (>>?-IsSettled J (parse_function_call_error J json info) _
            (classify-IsSettled J valid contract_id method_name block))
          (or_else-IsSettled J _ _ (>>?-IsSettled J (data_text J json error) _ legacy)
            (>>?-IsSettled J (text_field J json (codes "vm_error") info) _ legacy))

    unwrapped-IsSettled :
        (o : Option (RpcError J)) (r : RpcError J)
        → IsSettled J o
        → is_retryable J r ≡ false
        → IsSettled J (some (unwrap_or o r))
    unwrapped-IsSettled none r s h = settled h
    unwrapped-IsSettled (some a) r s h = s

    cause-Agrees :
        (cause : Cause) → Agrees J json cause error (of_cause c J json valid cause error info block)
    unfolding of_cause is_transient is_retryable execution_failed invalid_transaction_error
    cause-Agrees unknown_account =
        settled-Agrees J json unknown_account error refl (λ e. cc) _
          (>>?-IsSettled J (requested c J json valid info) _ (λ a. settled refl))
    cause-Agrees invalid_account = never J json invalid_account error refl (λ e. cc)
    cause-Agrees unknown_access_key =
        settled-Agrees J json unknown_access_key error refl (λ e. cc) _
          (>>?-IsSettled J (public_key_field c J json valid info) _ (λ a. settled refl))
    cause-Agrees unknown_gas_key =
        settled-Agrees J json unknown_gas_key error refl (λ e. cc) _
          (>>?-IsSettled J (public_key_field c J json valid info) _ (λ a. settled refl))
    cause-Agrees unknown_block = never J json unknown_block error refl (λ e. cc)
    cause-Agrees garbage_collected_block = never J json garbage_collected_block error refl (λ e. cc)
    cause-Agrees unknown_chunk = never J json unknown_chunk error refl (λ e. cc)
    cause-Agrees unknown_epoch = never J json unknown_epoch error refl (λ e. cc)
    cause-Agrees unknown_receipt = never J json unknown_receipt error refl (λ e. cc)
    cause-Agrees no_contract_code =
        settled-Agrees J json no_contract_code error refl (λ e. cc) _
          (>>?-IsSettled J
            (parse_account_id J valid
              (or_unknown c J json valid (contract_field c J json valid info)))
            _ (λ a. settled refl))
    cause-Agrees no_global_contract_code = never J json no_global_contract_code error refl (λ e. cc)
    cause-Agrees too_large_contract_state =
        settled-Agrees J json too_large_contract_state error refl (λ e. cc) _
          (>>?-IsSettled J (contract_field c J json valid info >>? parse_account_id J valid) _
            (λ a. settled refl))
    cause-Agrees contract_execution_error =
        settled-Agrees J json contract_execution_error error refl (λ e. cc) _
          (unwrapped-IsSettled _ _ classified-IsSettled refl)
    cause-Agrees unavailable_shard = always J json unavailable_shard error refl
    cause-Agrees not_synced = always J json not_synced error refl
    cause-Agrees invalid_shard_id = never J json invalid_shard_id error refl (λ e. cc)
    cause-Agrees invalid_transaction = invalid_tx-Agrees J json error _ refl
    cause-Agrees timeout_error = always J json timeout_error error refl
    cause-Agrees parse_error = never J json parse_error error refl (λ e. cc)
    cause-Agrees internal_error = always J json internal_error error refl
    cause-Agrees too_many_access_keys =
        settled-Agrees J json too_many_access_keys error refl (λ e. cc) _
          (>>?-IsSettled J (requested c J json valid info) _
            (λ a. >>?-IsSettled J (u32_field c J json valid _ info) _ (λ l. settled refl)))
    cause-Agrees other_cause = (refl, λ e. cc)

  abbrev generic : JsonRpcError J → RpcError J
  generic error = RpcError.rpc error.code error.message error.data_

  -- The causes that pass by themselves, or a refusal for now, of an error that has a cause.
  abbrev pub IsPassing : JsonRpcError J → Option (ErrorCause J) → Type 0
  IsPassing error none = ⊥
  IsPassing error (some cause) =
      (is_transient (cause_of cause.name) ≡ true)
      ⊎ IsRefusedForNow J json (cause_of cause.name) error

  -- An error that nothing was recognized in, with a code that is retried.
  abbrev pub IsGeneric : JsonRpcError J → RpcError J → Type 0
  IsGeneric error result = (result ≡ generic error) × (is_retryable J (generic error) ≡ true)

  -- What remains to be decided: by the text, or by the code.
  rest-Decides :
      (error : JsonRpcError J) (passing : Type 0)
      → ¬ passing
      → (t : Option (RpcError J)) → IsSettled J t
      → (is_retryable J (unwrap_or t (generic error)) ≡ true)
        ↔ (passing ⊎ IsGeneric error (unwrap_or t (generic error)))
  rest-Decides error passing k none s =
      (λ y. inr (refl, y), λ reason. elim reason [ inl p ↦ absurd (k p) | inr g ↦ g.1 ])
  rest-Decides error passing k (some r) (settled s) = (
    λ y. absurd (true_not_false (sym y ∙ s)),
    λ reason. elim reason [ inl p ↦ absurd (k p) | inr g ↦ ap (is_retryable J) g.0 ∙ g.1 ],
  )

  cause-Decides :
      (error : JsonRpcError J) (cause : Cause) (o t : Option (RpcError J))
      → Agrees J json cause error o
      → IsSettled J t
      → (is_retryable J (unwrap_or (or_else o t) (generic error)) ≡ true) ↔ (
          ((is_transient cause ≡ true) ⊎ IsRefusedForNow J json cause error)
          ⊎ IsGeneric error (unwrap_or (or_else o t) (generic error)))
  cause-Decides error cause none t (h, k) s =
      rest-Decides error ((is_transient cause ≡ true) ⊎ IsRefusedForNow J json cause error)
        (λ reason. elim reason [ inl y ↦ true_not_false (sym y ∙ h) | inr p ↦ k p.0 ]) t s
  cause-Decides error cause (some r) t (f, g) s = (
    λ y. inl (f y),
    λ reason. elim reason [ inl p ↦ g p | inr q ↦ ap (is_retryable J) q.0 ∙ q.1 ],
  )

  text-IsSettled : (error : JsonRpcError J) → IsSettled J (by_text c J json valid error)
  unfolding by_text is_retryable
  text-IsSettled error =
      >>?-IsSettled J (data_text J json error >>? missing_account c J json valid) _
        (λ a. settled refl)

  decided :
      (error : JsonRpcError J) (cause : Option (ErrorCause J))
      → (is_retryable J (
            unwrap_or
              (or_else (by_cause c J json valid error cause) (by_text c J json valid error))
              (generic error))
          ≡ true)
        ↔ (IsPassing error cause
            ⊎ IsGeneric error (
                unwrap_or
                  (or_else (by_cause c J json valid error cause) (by_text c J json valid error))
                  (generic error)))
  decided error none = rest-Decides error ⊥ (λ x. x) _ (text-IsSettled error)
  decided error (some cause) =
      cause-Decides error (cause_of cause.name) _ _
        (cause-Agrees error cause.info (parse_error_block_context c J json valid cause.info)
          (cause_of cause.name))
        (text-IsSettled error)

  -- The error that `parse_rpc_error` makes of a node's error is worth a retry exactly when the
  -- cause is that a shard is unavailable, that the node is not synced, a timeout or an internal
  -- error; or when it is a refused transaction whose data reads as an error that is worth a retry;
  -- or when neither the cause nor the text gives a typed error and the code is one that is retried.
  pub parse_rpc_error_iff :
      (error : JsonRpcError J)
      → (is_retryable J (parse_rpc_error c J json valid error) ≡ true)
        ↔ (IsPassing error error.cause ⊎ IsGeneric error (parse_rpc_error c J json valid error))
  unfolding parse_rpc_error
  parse_rpc_error_iff error = decided error error.cause

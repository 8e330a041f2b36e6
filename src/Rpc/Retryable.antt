-- ===== src/Rpc/Retryable.antt =====
-- Which of a node's errors are worth a retry once `parse_rpc_error` has made an error of them.
use near_kit_rs.Prelude.{
  ◌≡◌, ◌≢◌, ◌↔◌, ◌⊎◌, inl, inr, refl, sym, ◌∙◌, Bool, true, false, Option, none, some, Bytes, ◌>>?◌,
}
use near_kit_rs.Client.Errors.{InvalidTxError, RpcError, Context, is_retryable}
use near_kit_rs.Rpc.Panics.{
  FunctionCallError, compilation_error, code_does_not_exist, other_compilation_error,
  method_resolve_error, method_not_found, other_method_error, host_error, guest_panic,
  other_host_error, execution_error, classify_function_call_error,
  classify_legacy_function_call_error, classify_unwrapped, of_execution_error, of_guest_panic,
  of_no_code, if_stripped, panicked,
}
use near_kit_rs.Rpc.Causes.{
  Json, JsonRpcError, Cause, or_else, try_parse_invalid_tx, of_invalid_tx, unavailable_shard,
  not_synced, invalid_transaction, timeout_error, internal_error,
}

-- The causes that pass by themselves.
unfoldable pub is_transient : Cause → Bool
is_transient unavailable_shard = true
is_transient not_synced = true
is_transient timeout_error = true
is_transient internal_error = true
is_transient _ = false

pub true_not_false : true ≢ false
true_not_false h = cc

module _ (J : Type 0) where
  -- No error, or one that is not worth a retry.
  pub data IsSettled : Option (RpcError J) → Type 0 where
    nothing : IsSettled none
    settled : {r : RpcError J} → is_retryable J r ≡ false → IsSettled (some r)

  pub >>?-IsSettled :
      {X : Type 0} (o : Option X) (f : X → Option (RpcError J))
      → ((x : X) → IsSettled (f x))
      → IsSettled (o >>? f)
  >>?-IsSettled none f h = nothing
  >>?-IsSettled (some x) f h = h x

  pub or_else-IsSettled :
      (o other : Option (RpcError J)) → IsSettled o → IsSettled other → IsSettled (or_else o other)
  or_else-IsSettled none other h k = k
  or_else-IsSettled (some r) other h k = h

  panicked-IsSettled :
      (valid : Bytes → Bool) (block : Context J) (o : Option Bytes)
      → IsSettled (panicked J valid block o)
  unfolding is_retryable panicked
  panicked-IsSettled valid block none = nothing
  panicked-IsSettled valid block (some message) = settled refl

  if_stripped-IsSettled :
      (valid : Bytes → Bool) (contract_id : Bytes) (method_name : Option Bytes) (block : Context J)
      (o : Option Bytes) (go : Bytes → Option (RpcError J)) (other : Option (RpcError J))
      → ((rest : Bytes) → IsSettled (go rest))
      → IsSettled other
      → IsSettled (if_stripped J valid contract_id method_name block o go other)
  unfolding if_stripped
  if_stripped-IsSettled valid contract_id method_name block none go other h k = k
  if_stripped-IsSettled valid contract_id method_name block (some rest) go other h k = h rest

  module _ (valid : Bytes → Bool) (contract_id : Bytes) (method_name : Option Bytes)
      (block : Context J) where
    pub classify-IsSettled :
        (e : FunctionCallError J)
        → IsSettled (classify_function_call_error J valid contract_id method_name block e)
    unfolding classify_function_call_error is_retryable
    classify-IsSettled (compilation_error (code_does_not_exist a)) = settled refl
    classify-IsSettled (compilation_error (other_compilation_error j)) = nothing
    classify-IsSettled (method_resolve_error method_not_found) = settled refl
    classify-IsSettled (method_resolve_error (other_method_error j)) = nothing
    classify-IsSettled (host_error (guest_panic m)) = settled refl
    classify-IsSettled (host_error (other_host_error j)) = nothing
    classify-IsSettled (execution_error m) = panicked-IsSettled valid block _
    classify-IsSettled _ = nothing

    pub legacy-IsSettled :
        (message : Bytes)
        → IsSettled
            (classify_legacy_function_call_error J valid contract_id method_name block message)
    unfolding classify_legacy_function_call_error classify_unwrapped of_execution_error
        of_guest_panic of_no_code is_retryable
    legacy-IsSettled message =
        let one = if_stripped-IsSettled valid contract_id method_name block in
        one _ _ _ (λ rest. panicked-IsSettled valid block _)
          (one _ _ _ (λ rest. settled refl)
            (one _ _ _ (λ rest. settled refl)
              (one _ _ _ (λ rest. settled refl) (panicked-IsSettled valid block _))))

  -- A transaction that was refused, and will not be if it is sent again later.
  abbrev pub IsRefusedForNow : (json : Json J) → Cause → JsonRpcError J → Type 0
  IsRefusedForNow json cause error =
      (cause ≡ invalid_transaction)
      × ((tx : InvalidTxError J) × ((error.data_ >>? try_parse_invalid_tx J json) ≡ some tx)
          × (is_retryable J (RpcError.invalid_tx tx) ≡ true))

  -- Where the cause gives an error, that is worth a retry exactly for these causes; where it gives
  -- none, the cause is another one.
  abbrev pub Agrees : (json : Json J) → Cause → JsonRpcError J → Option (RpcError J) → Type 0
  Agrees json cause error none = (is_transient cause ≡ false) × (cause ≢ invalid_transaction)
  Agrees json cause error (some r) =
      (is_retryable J r ≡ true) ↔ ((is_transient cause ≡ true) ⊎ IsRefusedForNow json cause error)

  pub never :
      (json : Json J) (cause : Cause) (error : JsonRpcError J)
      → is_transient cause ≡ false
      → cause ≢ invalid_transaction
      → (false ≡ true) ↔ ((is_transient cause ≡ true) ⊎ IsRefusedForNow json cause error)
  never json cause error h k = (
    λ y. absurd (true_not_false (sym y)),
    λ reason. elim reason [ inl y ↦ absurd (true_not_false (sym y ∙ h)) | inr p ↦ absurd (k p.0) ],
  )

  pub always :
      (json : Json J) (cause : Cause) (error : JsonRpcError J)
      → is_transient cause ≡ true
      → (true ≡ true) ↔ ((is_transient cause ≡ true) ⊎ IsRefusedForNow json cause error)
  always json cause error h = (λ _. inl h, λ _. refl)

  pub settled-Agrees :
      (json : Json J) (cause : Cause) (error : JsonRpcError J)
      → is_transient cause ≡ false
      → cause ≢ invalid_transaction
      → (o : Option (RpcError J)) → IsSettled o
      → Agrees json cause error o
  settled-Agrees json cause error h k none s = (h, k)
  settled-Agrees json cause error h k (some r) (settled s) = rw (s) (never json cause error h k)

  pub invalid_tx-Agrees :
      (json : Json J) (error : JsonRpcError J) (o : Option (InvalidTxError J))
      → (error.data_ >>? try_parse_invalid_tx J json) ≡ o
      → Agrees json invalid_transaction error
          (some (of_invalid_tx J json error.message error.data_ o))
  unfolding is_transient is_retryable
  invalid_tx-Agrees json error none e = (
    λ y. absurd (true_not_false (sym y ∙ refused_for_good)),
    λ reason. elim reason [
      | inl y ↦ absurd (true_not_false (sym y))
      | inr p ↦ absurd (nothing_there p.1.1)
    ],
  )
    where
      refused_for_good :
          is_retryable J (RpcError.invalid_transaction error.message error.data_) ≡ false
      refused_for_good = refl

      nothing_there :
          {tx : InvalidTxError J} → ¬ ((error.data_ >>? try_parse_invalid_tx J json) ≡ some tx)
      nothing_there h = cc
  invalid_tx-Agrees json error (some tx) e = (
    λ y. inr (refl, (tx, e, y)),
    λ reason. elim reason [
      | inl y ↦ absurd (true_not_false (sym y))
      | inr p ↦ same p.1.0 p.1.1 p.1.2
    ],
  )
    where
      same :
          (tx' : InvalidTxError J)
          → (error.data_ >>? try_parse_invalid_tx J json) ≡ some tx'
          → is_retryable J (RpcError.invalid_tx tx') ≡ true
          → is_retryable J (RpcError.invalid_tx tx) ≡ true
      same tx' h y = cc

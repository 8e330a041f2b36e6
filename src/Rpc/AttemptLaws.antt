-- ===== src/Rpc/AttemptLaws.antt =====
-- When an attempt of a call succeeds, and what it may be retried for.
use near_kit_rs.Prelude.{
  codes, ◌⊎◌, ◌>>?◌, ℕ, ◌≤◌, ◌<◌, ◌≡◌, ◌≢◌, ◌↔◌, refl, sym, ap, ◌∙◌, Bool, true, false, inl, inr,
  Option, none, some, Bytes, Result, ok, err, map_err, ltb, leb, ◌&&◌, if◌then◌else◌, arith,
}
use mathlib.Core.Path.{subst}
use near_kit_rs.Key.{Crypto}
use near_kit_rs.Client.Errors.{
  RpcError, is_retryable, is_retryable_status, preserve_http_retry_classification,
  preserve-is_retryable, http_text,
}
use near_kit_rs.Rpc.Causes.{Json, JsonRpcError, field}
use near_kit_rs.Rpc.Parse.{parse_rpc_error}
use near_kit_rs.Rpc.RetryLaws.{IsPassing, parse_rpc_error_iff}
use near_kit_rs.Rpc.Retryable.{true_not_false}
use near_kit_rs.Rpc.Attempt.{
  Response, JsonRpcResponse, query_error, of_value, of_result, of_error, of_body, of_failed_error,
  error_in, of_response, is_success_status,
}

module _ (c : Crypto) (J : Type 0) (json : Json J) (valid : Bytes → Bool) (R : Type 0)
    (read_response : Bytes → Result J (JsonRpcResponse J)) (of_text : Bytes → J)
    (read : J → Result J R) where
  -- A successful status, and a body without an error, whose result reads as the value; a query's
  -- result has no error in it either.
  abbrev pub IsAnswer : (is_query : Bool) → Response → R → Type 0
  IsAnswer is_query response v =
      ((200 ≤ response.status) × (response.status < 300))
      × ((r : JsonRpcResponse J) × (read_response response.body ≡ ok r)
          × (r.error ≡ none)
          × ((value : J) × (r.result ≡ some value)
              × ((is_query ≡ false) ⊎ ((field J json (codes "error") value >>? json.as_str) ≡ none))
              × (read value ≡ ok v)))

  read-ok : (r : Result J R) {v : R} → map_err RpcError.json r ≡ ok v → r ≡ ok v
  read-ok (err e) h = cc
  read-ok (ok x) h = cc

  value-ok :
      (value : J) (t : Option Bytes) {v : R}
      → of_value J c json valid R read_response of_text read value t ≡ ok v
      → (t ≡ none) × (read value ≡ ok v)
  value-ok value none h = (refl, read-ok (read value) h)
  value-ok value (some text) h = cc

  no_text :
      (is_query : Bool) (value : J)
      → query_error J c json valid R read_response of_text read is_query value ≡ none
      → (is_query ≡ false) ⊎ ((field J json (codes "error") value >>? json.as_str) ≡ none)
  unfolding query_error
  no_text true value h = inr h
  no_text false value h = inl refl

  no_query_error :
      (is_query : Bool) (value : J)
      → (is_query ≡ false) ⊎ ((field J json (codes "error") value >>? json.as_str) ≡ none)
      → query_error J c json valid R read_response of_text read is_query value ≡ none
  unfolding query_error
  no_query_error true value (inl h) = absurd (true_not_false h)
  no_query_error true value (inr h) = h
  no_query_error false value h = refl

  result-ok :
      (is_query : Bool) (o : Option J) {v : R}
      → of_result J c json valid R read_response of_text read is_query o ≡ ok v
      → (value : J) × (o ≡ some value)
        × ((is_query ≡ false) ⊎ ((field J json (codes "error") value >>? json.as_str) ≡ none))
        × (read value ≡ ok v)
  result-ok is_query none h = cc
  result-ok is_query (some value) h =
      let (k, l) = value-ok value _ h in (value, refl, no_text is_query value k, l)

  error-ok :
      (is_query : Bool) (e : Option (JsonRpcError J)) (o : Option J) {v : R}
      → of_error J c json valid R read_response of_text read is_query e o ≡ ok v
      → (e ≡ none) × (of_result J c json valid R read_response of_text read is_query o ≡ ok v)
  error-ok is_query none o h = (refl, h)
  error-ok is_query (some e) o h = cc

  body-ok :
      (is_query : Bool) (b : Result J (JsonRpcResponse J)) {v : R}
      → of_body J c json valid R read_response of_text read is_query b ≡ ok v
      → (r : JsonRpcResponse J) × (b ≡ ok r)
        × (of_error J c json valid R read_response of_text read is_query r.error r.result ≡ ok v)
  body-ok is_query (err e) h = cc
  body-ok is_query (ok r) h = (r, refl, h)

  status-ok :
      (t : Bool) (x : Result (RpcError J) R) (e : RpcError J) {v : R}
      → (if t then x else err e) ≡ ok v
      → (t ≡ true) × (x ≡ ok v)
  status-ok true x e h = (refl, h)
  status-ok false x e h = cc

  success-bounds :
      (status : ℕ) → is_success_status J status ≡ true → (200 ≤ status) × (status < 300)
  success-bounds status h = ground arith

  success-status : (status : ℕ) → 200 ≤ status → status < 300 → is_success_status J status ≡ true
  success-status status low high = ground arith

  -- An attempt of a call succeeds with a value exactly when the status is from 200 to 299 and the
  -- body reads as a response without an error, whose result is there, has no error text in it if
  -- the call is a query, and reads as that value.
  pub of_response_iff :
      (is_query : Bool) (response : Response) (v : R)
      → (of_response J c json valid R read_response of_text read is_query response ≡ ok v)
        ↔ IsAnswer is_query response v
  unfolding of_response
  of_response_iff is_query response v = (
    λ h.
        let (in_range, body) = status-ok _ _ _ h in
        let (r, reads, rest) = body-ok is_query (read_response response.body) body in
        let (no_error, rest') = error-ok is_query r.error r.result rest in
        (
          success-bounds response.status in_range,
          (r, reads, no_error, result-ok is_query r.result rest'),
        ),
    λ ((low, high), (r, reads, no_error, (value, found, quiet, answer))).
        rw
          (
            success-status response.status low high,
            reads,
            no_error,
            found,
            no_query_error is_query value quiet,
            answer,
          )
          refl,
  )

  -- Under a client-error status that is not itself retried.
  abbrev pub IsClientError : ℕ → Type 0
  IsClientError status = (400 ≤ status) × (status < 500) × (status ≢ 408) × (status ≢ 429)

  -- The body has an error, of a cause that passes by itself or a transaction refused for now.
  abbrev pub IsTypedTransient : Response → RpcError J → Type 0
  IsTypedTransient response e =
      (r : JsonRpcResponse J) × (node_error : JsonRpcError J) × (read_response response.body ≡ ok r)
      × (r.error ≡ some node_error)
      × (e ≡ parse_rpc_error c J json valid node_error)
      × IsPassing c J json valid node_error node_error.cause

  not_retried_status : (status : ℕ) → IsClientError status → is_retryable_status J status ≡ false
  not_retried_status status (low, high, other, another) = ground arith

  not_success : (status : ℕ) → IsClientError status → is_success_status J status ≡ false
  not_success status (low, high, other, another) = ground arith

  not_retried_network :
      (status : ℕ) (body : Bytes)
      → IsClientError status
      → is_retryable J
          (RpcError.network (http_text J status body) (some status) (is_retryable_status J status))
        ≡ false
  unfolding is_retryable
  not_retried_network status body client = not_retried_status status client

  status-err :
      (t : Bool) (x : Result (RpcError J) R) (failure : RpcError J) {e : RpcError J}
      → t ≡ false
      → (if t then x else err failure) ≡ err e
      → failure ≡ e
  status-err true x failure off h = cc
  status-err false x failure off h = cc

  generic_not_retried :
      (node_error : JsonRpcError J) (status : ℕ) (body : Bytes)
      → IsClientError status
      → is_retryable J (
          preserve_http_retry_classification J
            (RpcError.rpc node_error.code node_error.message node_error.data_)
            status
            body)
        ≡ false
  unfolding preserve_http_retry_classification is_retryable
  generic_not_retried node_error status body (low, high, _, _) =
      let client_error : (leb 400 status && ltb status 500) ≡ true = ground arith in
      rw (client_error) refl

  -- What is made of the error in the body, if there is one.
  abbrev failed : Response → Option (JsonRpcError J) → RpcError J
  failed response o =
      of_failed_error J c json valid R read_response of_text read response.status response.body o

  failed-IsTypedTransient :
      (response : Response) (r : JsonRpcResponse J)
      → IsClientError response.status
      → read_response response.body ≡ ok r
      → (o : Option (JsonRpcError J)) → r.error ≡ o
      → is_retryable J (failed response o) ≡ true
      → IsTypedTransient response (failed response o)
  failed-IsTypedTransient response r client reads none e h =
      absurd (true_not_false (sym h ∙ not_retried_network response.status response.body client))
  failed-IsTypedTransient response r (low, high, a, b) reads (some node_error) e h =
      let parsed = parse_rpc_error c J json valid node_error in
      let same = preserve-is_retryable J parsed response.status response.body low high h in
      let (reason, _) = parse_rpc_error_iff c J json valid node_error in
      elim (reason (ap (is_retryable J) (sym same) ∙ h)) [
        | inl passing ↦ (r, node_error, reads, e, same, passing)
        | inr generic ↦ absurd (
            true_not_false (
              sym h
              ∙ ap
                  (λ x.
                    is_retryable J
                      (preserve_http_retry_classification J x response.status response.body))
                  generic.0
              ∙ generic_not_retried node_error response.status response.body (low, high, a, b)))
      ]

  body-IsTypedTransient :
      (response : Response) (b : Result J (JsonRpcResponse J))
      → IsClientError response.status
      → read_response response.body ≡ b
      → is_retryable J (failed response (error_in J c json valid R read_response of_text read b))
        ≡ true
      → IsTypedTransient response
          (failed response (error_in J c json valid R read_response of_text read b))
  body-IsTypedTransient response (err j) client reads h =
      absurd (true_not_false (sym h ∙ not_retried_network response.status response.body client))
  body-IsTypedTransient response (ok r) client reads h =
      failed-IsTypedTransient response r client reads r.error refl h

  -- Under a status from 400 to 499 other than 408 and 429, an error of an attempt that is worth a
  -- retry is the one that `parse_rpc_error` makes of the error in the body, and the cause of that
  -- error is one that passes by itself or a refused transaction that is worth a retry.
  pub of_response-IsTypedTransient :
      (is_query : Bool) (response : Response) (e : RpcError J)
      → IsClientError response.status
      → of_response J c json valid R read_response of_text read is_query response ≡ err e
      → is_retryable J e ≡ true
      → IsTypedTransient response e
  unfolding of_response
  of_response-IsTypedTransient is_query response e client h retried =
      let refused : is_success_status J response.status ≡ false =
        not_success response.status client in
      let same = status-err _ _ _ refused h in
      subst (λ x. is_retryable J x ≡ true → IsTypedTransient response x) same
        (body-IsTypedTransient response (read_response response.body) client refl) retried

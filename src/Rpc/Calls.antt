-- ===== src/Rpc/Calls.antt =====
-- The retry loop of `RpcClient::call` over the attempts of `try_call`.
use near_kit_rs.Prelude.{ℕ, ◌+◌, ◌<◌, Bytes, Result, arith, Bool, ◌^◌}
use near_kit_rs.Key.{Crypto}
use near_kit_rs.Client.Errors.{RpcError}
use near_kit_rs.Client.Retry.{RetryConfig, call}
use near_kit_rs.Client.RetryLaws.{Stops, call-Stops}
use near_kit_rs.Rpc.Causes.{Json}
use near_kit_rs.Rpc.Attempt.{Response, JsonRpcResponse, of_response}
use near_kit_rs.Rpc.AttemptLaws.{IsClientError, IsTypedTransient, of_response-IsTypedTransient}

module _ (c : Crypto) (J : Type 0) (json : Json J) (valid : Bytes → Bool) (R : Type 0)
    (read_response : Bytes → Result J (JsonRpcResponse J)) (of_text : Bytes → J)
    (read : J → Result J R) where
  -- What each attempt of a call answers, by the responses of the transport.
  abbrev pub answers : (is_query : Bool) → (responses : ℕ → Response) → ℕ → Result (RpcError J) R
  answers is_query responses attempt =
      of_response J c json valid R read_response of_text read is_query (responses attempt)

  -- The attempts before the last one, each of which was retried: those of a client-error status
  -- had an error in the body that passes by itself.
  abbrev pub RetriedForCause : (responses : ℕ → Response) → (last : ℕ) → Type 0
  RetriedForCause responses last =
      (attempt : ℕ)
      → attempt < last
      → IsClientError c J json valid R read_response of_text read (responses attempt).status
      → (e : RpcError J) × IsTypedTransient c J json valid R read_response of_text read
          (responses attempt) e

  -- For fewer than 2 ^ 32 - 1 retries, a call stops as `call-Stops` states, and an attempt under a
  -- client-error status other than 408 and 429 was retried for a typed error only.
  pub call-RetriedForCause :
      (is_query : Bool) (responses : ℕ → Response) (config : RetryConfig) (request_id : ℕ)
      → config.max_retries + 1 < 2 ^ 32
      → (last : ℕ) × (n : ℕ) × Stops J R
          (answers is_query responses)
          config
          (config.max_retries + 1)
          0
          last
          n
          (call J R (answers is_query responses) config request_id)
        × RetriedForCause responses last
  call-RetriedForCause is_query responses config request_id small =
      let (last, n, stops) = call-Stops J R (answers is_query responses) config request_id small in
      let (_, _, before, _, _, _, _) = stops in
      (
        last,
        n,
        stops,
        λ attempt below client.
            let (e, answer, retried) = before attempt (omega arith) below in
            (
              e,
              of_response-IsTypedTransient c J json valid R read_response of_text read is_query
                  (responses attempt) e client answer retried,
            ),
      )

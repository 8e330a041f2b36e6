-- ===== src/Rpc/Attempt.antt =====
-- client/rpc.rs: `try_call`, one attempt of a call: what it makes of the response of the transport.
-- The readers of serde are parameters: of a response, and of the result as an `R`.
use near_kit_rs.Prelude.{
  ℕ, Bool, true, false, ◌&&◌, Option, none, some, Bytes, Result, ok, err, ◌>>=◌, map_err, ◌>>?◌,
  codes, ltb, leb, if◌then◌else◌,
}
use near_kit_rs.Key.{Crypto}
use near_kit_rs.Client.Errors.{
  negsuc, RpcError, is_retryable_status, preserve_http_retry_classification, http_text,
}
use near_kit_rs.Rpc.Causes.{Json, JsonRpcError, field}
use near_kit_rs.Rpc.Parse.{parse_rpc_error}

pub record Response : Type 0 where
  pub status : ℕ
  pub body : Bytes

module _ (J : Type 0) where
  pub record JsonRpcResponse : Type 0 where
    pub result : Option J
    pub error : Option (JsonRpcError J)

  -- The error that the program makes of a text inside a result; its code is -32600.
  abbrev pub synthetic : (of_text : Bytes → J) → (text : Bytes) → JsonRpcError J
  synthetic of_text text = record {
    code = negsuc 32599;
    message = text;
    data_ = some (of_text text);
    cause = none;
  }

  abbrev pub is_success_status : ℕ → Bool
  is_success_status status = leb 200 status && ltb status 300

  module _ (c : Crypto) (json : Json J) (is_account_id : Bytes → Bool) (R : Type 0)
      (read_response : Bytes → Result J JsonRpcResponse) (of_text : Bytes → J)
      (read : J → Result J R) where
    -- The text of an error inside the result, which is looked for in queries only.
    unfoldable pub query_error : (is_query : Bool) → J → Option Bytes
    query_error true value = field J json (codes "error") value >>? json.as_str
    query_error false value = none

    abbrev pub of_value : J → Option Bytes → Result (RpcError J) R
    of_value value none = map_err RpcError.json (read value)
    of_value value (some text) =
        err (parse_rpc_error c J json is_account_id (synthetic of_text text))

    abbrev pub of_result : (is_query : Bool) → Option J → Result (RpcError J) R
    of_result is_query none = err (RpcError.invalid_response (codes "Missing result in response"))
    of_result is_query (some value) = of_value value (query_error is_query value)

    abbrev pub of_error :
        (is_query : Bool)
        → (error : Option (JsonRpcError J)) (result : Option J) → Result (RpcError J) R
    of_error is_query none result = of_result is_query result
    of_error is_query (some e) result = err (parse_rpc_error c J json is_account_id e)

    abbrev pub of_body : (is_query : Bool) → Result J JsonRpcResponse → Result (RpcError J) R
    of_body is_query (err e) = err (RpcError.json e)
    of_body is_query (ok r) = of_error is_query r.error r.result

    abbrev pub of_failed_error : (status : ℕ) (body : Bytes) → Option (JsonRpcError J) → RpcError J
    of_failed_error status body (some e) =
        preserve_http_retry_classification J (parse_rpc_error c J json is_account_id e) status body
    of_failed_error status body none =
        RpcError.network (http_text J status body) (some status) (is_retryable_status J status)

    abbrev pub error_in : Result J JsonRpcResponse → Option (JsonRpcError J)
    error_in (err e) = none
    error_in (ok r) = r.error

    unfoldable pub of_response : (is_query : Bool) → Response → Result (RpcError J) R
    unfolding query_error parse_rpc_error preserve_http_retry_classification
    of_response is_query response =
        if is_success_status response.status
        then of_body is_query (read_response response.body)
        else err
            (of_failed_error response.status response.body (error_in (read_response response.body)))

    -- `RpcClient::try_call`, with the request as serde writes it.
    unfoldable pub try_call :
        (is_query : Bool)
        → (request : Result J Bytes) (post_json : Bytes → Result (RpcError J) Response)
        → Result (RpcError J) R
    unfolding of_response
    try_call is_query request post_json =
        map_err RpcError.json request >>= post_json >>= of_response is_query

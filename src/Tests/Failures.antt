-- ===== src/Tests/Failures.antt =====
-- Concrete errors of a node. A JSON value here is a text, a number, or an object of one field.
use near_kit_rs.Prelude.{
  ℕ, ◌≡◌, ◌↔◌, ◌⊎◌, refl, Bool, true, false, not, List, Option, none, some, [], ◌∷◌, ◌++◌, Bytes,
  All, codes, arith, bytes_eq, Result, ok, err, if◌then◌else◌,
}
use near_kit_rs.Client.Errors.{RpcError, is_retryable, pos}
use near_kit_rs.Rpc.DebugStr.{parse_debug_str, from_str_radix, utf8}
use near_kit_rs.Rpc.Quoted.{
  Piece, plain, newline, numbered, IsPiece, quoted, parse_debug_str-quoted,
}
use near_kit_rs.Rpc.Panics.{classify_function_call_error, classify_legacy_function_call_error}
use near_kit_rs.Rpc.Legacy.{guest, call, opening, debug_text, error_of, classify_legacy-Report}
use near_kit_rs.Rpc.Causes.{Json, JsonRpcError, cause_of, cause_in}
use near_kit_rs.Rpc.Parse.{parse_rpc_error, of_cause}
use near_kit_rs.Rpc.Attempt.{Response, JsonRpcResponse, of_response}
use near_kit_rs.Rpc.AttemptLaws.{
  IsAnswer, of_response_iff, IsTypedTransient, of_response-IsTypedTransient,
}
use near_kit_rs.Rpc.RetryLaws.{IsPassing, IsGeneric, parse_rpc_error_iff}
use near_kit_rs.Tests.Samples.{crypto}

data Value : Type 0 where
  text : Bytes → Value
  number : ℕ → Value
  entry : Bytes → Value → Value

get : Value → Bytes → Option Value
get (entry key value) name = if bytes_eq key name then some value else none
get _ name = none

as_str : Value → Option Bytes
as_str (text s) = some s
as_str _ = none

as_u64 : Value → Option ℕ
as_u64 (number n) = some n
as_u64 _ = none

is_object : Value → Bool
is_object (entry _ _) = true
is_object _ = false

abbrev json : Json Value
json = record {
  get = get;
  as_str = as_str;
  as_u64 = as_u64;
  is_object = is_object;
  print = λ _. [];
  read_function_call_error = λ _. none;
  read_invalid_tx_error = λ _. none;
  read_identifier = λ _. none;
  account_identifier = text;
  print_function_call_error = λ _. [];
}

abbrev is_account_id : Bytes → Bool
is_account_id s = not (bytes_eq s [])

abbrev pieces : List Piece
pieces = plain b'a' ∷ newline ∷ numbered (codes "e9") 233 ∷ []

pieces-IsPiece : All IsPiece pieces
unfolding from_str_radix
pieces-IsPiece = (
  ((λ e. omega arith), (λ e. omega arith)),
  (tt, ((((λ e. omega arith), ((λ e. omega arith), tt)), refl, refl), tt)),
)

parse_debug_str-quoted_example :
    parse_debug_str (quoted pieces ++ codes ")") ≡ some (b'a' ∷ 10 ∷ 195 ∷ 169 ∷ [])
unfolding utf8
parse_debug_str-quoted_example = parse_debug_str-quoted pieces (codes ")") pieces-IsPiece

classify_legacy-Report_example :
    classify_legacy_function_call_error Value is_account_id
      (codes "counter")
      none
      (none, none)
      (opening call ++ debug_text (guest pieces))
    ≡ classify_function_call_error Value is_account_id
        (codes "counter")
        none
        (none, none)
        (error_of Value (guest pieces))
classify_legacy-Report_example =
    classify_legacy-Report Value is_account_id (codes "counter") none (none, none) call
      (guest pieces) pieces-IsPiece

abbrev not_synced : JsonRpcError Value
not_synced = record {
  code = pos 0;
  message = codes "Server error";
  data_ = none;
  cause = some (record { name = codes "NOT_SYNCED_YET"; info = none });
}

parse_rpc_error_iff_example :
    (is_retryable Value (parse_rpc_error crypto Value json is_account_id not_synced) ≡ true) ↔ (
      IsPassing crypto Value json is_account_id not_synced not_synced.cause
      ⊎ IsGeneric crypto Value json is_account_id not_synced
          (parse_rpc_error crypto Value json is_account_id not_synced))
parse_rpc_error_iff_example = parse_rpc_error_iff crypto Value json is_account_id not_synced

abbrev answered : JsonRpcResponse Value
answered = record { result = some (number 7); error = none }

abbrev refused : JsonRpcResponse Value
refused = record { result = none; error = some not_synced }

abbrev accept : Value → Result Value Value
accept value = ok value

of_response_iff_example :
    (of_response Value crypto json is_account_id Value
        (λ _. ok answered)
        text
        accept
        true
        (record { status = 200; body = [] })
      ≡ ok (number 7))
    ↔ IsAnswer crypto Value json is_account_id Value
        (λ _. ok answered)
        text
        accept
        true
        (record { status = 200; body = [] })
        (number 7)
of_response_iff_example =
    of_response_iff crypto Value json is_account_id Value (λ _. ok answered) text accept true
      (record { status = 200; body = [] }) (number 7)

abbrev unprocessable : Response
unprocessable = record { status = 422; body = [] }

abbrev still_syncing : RpcError Value
still_syncing = RpcError.node_not_synced (codes "Server error")

syncing :
    of_response Value crypto json is_account_id Value
      (λ _. ok refused)
      text
      accept
      true
      unprocessable
    ≡ err still_syncing
unfolding of_response parse_rpc_error of_cause cause_of cause_in
syncing = refl

syncing_retried : is_retryable Value still_syncing ≡ true
unfolding is_retryable
syncing_retried = refl

of_response-IsTypedTransient_example :
    IsTypedTransient crypto Value json is_account_id Value
      (λ _. ok refused)
      text
      accept
      unprocessable
      still_syncing
of_response-IsTypedTransient_example =
    of_response-IsTypedTransient crypto Value json is_account_id Value (λ _. ok refused) text accept
      true unprocessable still_syncing
      (omega arith, omega arith, λ e. omega arith, λ e. omega arith) syncing syncing_retried

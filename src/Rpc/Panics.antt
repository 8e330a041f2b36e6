-- ===== src/Rpc/Panics.antt =====
-- client/rpc.rs: `classify_function_call_error`, `classify_legacy_function_call_error` and
-- `extract_contract_panic_message`, and the error enums of types/error.rs that they read. `J` stands
-- for the parts of those enums that are not read. Whitespace is that of ASCII.
use near_kit_rs.Prelude.{
  ℕ, ◌+◌, Bool, true, false, ◌&&◌, Option, none, some, [], ◌∷◌, Bytes, codes, length, take, drop,
  leb, ◌==◌, if◌then◌else◌, strip_prefix, ◌>>?◌,
}
use near_kit_rs.Amount.Padding.{is_whitespace, trim_start_matches, trim_end_matches, trim}
use near_kit_rs.Client.Errors.{RpcError, Context}
use near_kit_rs.Rpc.DebugStr.{parse_debug_str, quote}

module _ (J : Type 0) where
  pub data CompilationError : Type 0 where
    code_does_not_exist : (account_id : Bytes) → CompilationError
    other_compilation_error : J → CompilationError

  pub data MethodResolveError : Type 0 where
    method_not_found : MethodResolveError
    other_method_error : J → MethodResolveError

  pub data HostError : Type 0 where
    guest_panic : (panic_msg : Bytes) → HostError
    other_host_error : J → HostError

  pub data FunctionCallError : Type 0 where
    wasm_unknown_error evm_error : FunctionCallError
    compilation_error : CompilationError → FunctionCallError
    link_error : (msg : Bytes) → FunctionCallError
    method_resolve_error : MethodResolveError → FunctionCallError
    wasm_trap : J → FunctionCallError
    host_error : HostError → FunctionCallError
    execution_error : Bytes → FunctionCallError
    unknown : J → FunctionCallError

abbrev pub to_ascii_lowercase : ℕ → ℕ
to_ascii_lowercase c = if leb b'A' c && leb c b'Z' then c + 32 else c

unfoldable pub eq_ignore_ascii_case : Bytes → Bytes → Bool
eq_ignore_ascii_case [] [] = true
eq_ignore_ascii_case (x ∷ xs) (y ∷ ys) =
    to_ascii_lowercase x == to_ascii_lowercase y && eq_ignore_ascii_case xs ys
eq_ignore_ascii_case _ _ = false

abbrev pub trim_start : Bytes → Bytes
trim_start s = trim_start_matches is_whitespace s

abbrev pub or_else_text : Bytes → Bytes → Bytes
or_else_text [] message = message
or_else_text (c ∷ s) message = c ∷ s

abbrev pub prefix : Bytes
prefix = codes "Smart contract panicked"

abbrev pub colon : ℕ
colon = 58

unfoldable pub panic_message : (message rest : Bytes) → Option Bytes
unfolding trim_start_matches
panic_message message [] = some message
panic_message message (c ∷ rest) =
    if c == colon then some (or_else_text (trim_start rest) message) else none

-- A text that is shorter than the prefix, or is split inside a character, does not equal it.
unfoldable pub extract_contract_panic_message : (message : Bytes) → Option Bytes
unfolding eq_ignore_ascii_case panic_message
extract_contract_panic_message message =
    if eq_ignore_ascii_case (take (length prefix) message) prefix
    then panic_message message (drop (length prefix) message)
    else none

-- `split_once` at a text, and what follows it.
abbrev pub or_rest : Option Bytes → Option Bytes → Option Bytes
or_rest (some s) rest = some s
or_rest none rest = rest

unfoldable pub after_first : (pattern : Bytes) → Bytes → Option Bytes
unfolding strip_prefix
after_first pattern [] = strip_prefix pattern []
after_first pattern (c ∷ s) =
    let rest = after_first pattern s in or_rest (strip_prefix pattern (c ∷ s)) rest

-- The text from the first double quote on.
unfoldable pub from_quote : Bytes → Option Bytes
from_quote [] = none
from_quote (c ∷ s) = let rest = from_quote s in if c == quote then some (c ∷ s) else rest

abbrev pub unwrap_or {ℓ} : {A : Type ℓ} → Option A → A → A
unwrap_or none a = a
unwrap_or (some x) a = x

abbrev pub unknown_name : Bytes
unknown_name = codes "unknown"

abbrev pub trimmed_or : Bytes → Option Bytes → Bytes
trimmed_or rest none = rest
trimmed_or rest (some s) = trim_start s

-- The message without the envelopes that it may be wrapped in.
unfoldable pub without_envelopes : Bytes → Bytes
unfolding trim_start_matches strip_prefix
without_envelopes rest =
    let inside = trimmed_or rest (strip_prefix (codes "Function call returned an error:") rest) in
    trimmed_or inside (strip_prefix (codes "wasm execution failed with error:") inside)

unfoldable pub unwrapped : (message : Bytes) → Bytes
unfolding trim without_envelopes
unwrapped message = without_envelopes (trim message)

-- `trim_end().trim_end_matches(')')`
unfoldable pub without_end : Bytes → Bytes
unfolding trim_end_matches
without_end rest = trim_end_matches (λ c. c == 41) (trim_end_matches is_whitespace rest)

module _ (J : Type 0) (is_account_id : Bytes → Bool) where
  -- `AccountId::from_str`: the text itself, where it is a valid account ID.
  abbrev pub parse_account_id : Bytes → Option Bytes
  parse_account_id s = if is_account_id s then some s else none

  unfoldable pub panicked : Context J → Option Bytes → Option (RpcError J)
  panicked block none = none
  panicked block (some message) = some (RpcError.contract_panic message block)

  -- The contract and the method that were called, and the block.
  module _ (contract_id : Bytes) (method_name : Option Bytes) (block : Context J) where
    abbrev pub no_method : RpcError J
    no_method = RpcError.method_not_found contract_id (unwrap_or method_name unknown_name) block

    unfoldable pub classify_function_call_error : FunctionCallError J → Option (RpcError J)
    unfolding extract_contract_panic_message panicked
    classify_function_call_error (compilation_error (code_does_not_exist account_id)) =
        some (RpcError.contract_not_deployed account_id block)
    classify_function_call_error (method_resolve_error method_not_found) = some no_method
    classify_function_call_error (host_error (guest_panic panic_msg)) =
        some (RpcError.contract_panic panic_msg block)
    classify_function_call_error (execution_error message) =
        panicked block (extract_contract_panic_message message)
    classify_function_call_error _ = none

    -- What follows `ExecutionError(`, `HostError(GuestPanic`, and
    -- `CompilationError(CodeDoesNotExist`.
    unfoldable pub of_execution_error : Bytes → Option (RpcError J)
    unfolding parse_debug_str without_end extract_contract_panic_message panicked
    of_execution_error rest =
        panicked block
          (extract_contract_panic_message (unwrap_or (parse_debug_str rest) (without_end rest)))

    unfoldable pub of_guest_panic : (error rest : Bytes) → Option (RpcError J)
    unfolding after_first parse_debug_str trim_start_matches
    of_guest_panic error rest = some (
        RpcError.contract_panic
          (unwrap_or (after_first (codes "panic_msg:") rest >>? λ r. parse_debug_str (trim_start r))
            error)
          block)

    unfoldable pub of_no_code : Bytes → Option (RpcError J)
    unfolding after_first from_quote parse_debug_str
    of_no_code rest = some (
        RpcError.contract_not_deployed
          (unwrap_or
            (after_first (codes "account_id:") rest
              >>? from_quote
              >>? parse_debug_str
              >>? parse_account_id)
            contract_id)
          block)

    -- The first branch that its test takes.
    unfoldable pub if_stripped :
        Option Bytes → (Bytes → Option (RpcError J)) → Option (RpcError J) → Option (RpcError J)
    if_stripped none go other = other
    if_stripped (some rest) go other = go rest

    unfoldable pub classify_unwrapped : (error : Bytes) → Option (RpcError J)
    unfolding strip_prefix of_execution_error of_guest_panic of_no_code
        extract_contract_panic_message
    classify_unwrapped error =
        if_stripped (strip_prefix (codes "ExecutionError(") error) of_execution_error (
          if_stripped (strip_prefix (codes "HostError(GuestPanic") error) (of_guest_panic error) (
            if_stripped (strip_prefix (codes "CompilationError(CodeDoesNotExist") error) of_no_code
              (if_stripped (strip_prefix (codes "MethodResolveError(MethodNotFound)") error)
                (λ _. some no_method) (panicked block (extract_contract_panic_message error)))))

    unfoldable pub classify_legacy_function_call_error : (message : Bytes) → Option (RpcError J)
    unfolding unwrapped classify_unwrapped
    classify_legacy_function_call_error message = classify_unwrapped (unwrapped message)

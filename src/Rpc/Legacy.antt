-- ===== src/Rpc/Legacy.antt =====
-- The two forms in which a node reports a failed function call: the structured error, and the
-- `Debug` form of it in one of two envelopes.
use near_kit_rs.Prelude.{
  ℕ, ◌≡◌, refl, sym, ap, ◌∙◌, Bool, true, Option, List, ◌∷◌, [], ◌++◌, Bytes, All, codes,
  strip_prefix,
}
use near_kit_rs.Amount.Padding.{
  is_whitespace, trim_start_matches, trim_end_matches, trim_end_append, trim, trim-cons, IsPrinted,
}
use near_kit_rs.Client.Errors.{Context}
use near_kit_rs.Rpc.Quoted.{Piece, IsPiece, meanings, quoted, parse_debug_str-quoted}
use near_kit_rs.Rpc.Panics.{
  FunctionCallError, compilation_error, code_does_not_exist, method_resolve_error, method_not_found,
  host_error, guest_panic, execution_error, classify_function_call_error, classify_unwrapped,
  classify_legacy_function_call_error, without_envelopes, unwrapped, of_execution_error,
  of_guest_panic, of_no_code, after_first, from_quote, if_stripped,
}

-- The failures that both forms tell apart, each with the pieces of its text.
pub data Report : Type 0 where
  execution guest no_code : List Piece → Report
  missing_method : Report

pub data Envelope : Type 0 where
  bare call wasm : Envelope

abbrev pub opening : Envelope → Bytes
opening bare = []
opening call = codes "Function call returned an error: "
opening wasm = codes "wasm execution failed with error: "

-- What Rust's `Debug` prints for the error.
abbrev pub debug_text : Report → Bytes
debug_text (execution ps) = codes "ExecutionError(" ++ quoted ps ++ codes ")"
debug_text (guest ps) = codes "HostError(GuestPanic { panic_msg: " ++ quoted ps ++ codes " })"
debug_text (no_code ps) =
    codes "CompilationError(CodeDoesNotExist { account_id: AccountId(" ++ quoted ps ++ codes ") })"
debug_text missing_method = codes "MethodResolveError(MethodNotFound)"

abbrev pub error_of : (J : Type 0) → Report → FunctionCallError J
error_of J (execution ps) = execution_error (meanings ps)
error_of J (guest ps) = host_error (guest_panic (meanings ps))
error_of J (no_code ps) = compilation_error (code_does_not_exist (meanings ps))
error_of J missing_method = method_resolve_error method_not_found

abbrev pub IsReport : (is_account_id : Bytes → Bool) → Report → Type 0
IsReport is_account_id (execution ps) = All IsPiece ps
IsReport is_account_id (guest ps) = All IsPiece ps
IsReport is_account_id (no_code ps) = All IsPiece ps × (is_account_id (meanings ps) ≡ true)
IsReport is_account_id missing_method = Unit

text_end : (r : Report) → trim_end_matches is_whitespace (debug_text r) ≡ debug_text r
unfolding trim_end_matches
text_end (execution ps) =
    trim_end_append (codes "ExecutionError(") _ _ (trim_end_append (quoted ps) 41 [] refl)
text_end (guest ps) =
    trim_end_append (codes "HostError(GuestPanic { panic_msg: ") _ _
      (trim_end_append (quoted ps) 32 (codes "})") refl)
text_end (no_code ps) =
    trim_end_append (codes "CompilationError(CodeDoesNotExist { account_id: AccountId(") _ _
      (trim_end_append (quoted ps) 41 (codes " })") refl)
text_end missing_method = refl

text_start : (r : Report) → (c : ℕ) × (s : Bytes) × (debug_text r ≡ c ∷ s) × IsPrinted c
text_start (execution ps) = (b'E', _, refl, refl)
text_start (guest ps) = (b'H', _, refl, refl)
text_start (no_code ps) = (b'C', _, refl, refl)
text_start missing_method = (b'M', _, refl, refl)

-- An end that is kept is kept after any text.
end_after :
    (t m : Bytes) (c : ℕ) (s : Bytes)
    → m ≡ c ∷ s
    → trim_end_matches is_whitespace m ≡ m
    → trim_end_matches is_whitespace (t ++ m) ≡ t ++ m
end_after t m c s start h =
    rw (start) (trim_end_append t c s (ap (trim_end_matches is_whitespace) (sym start) ∙ h ∙ start))

trim_message :
    (e : Envelope) (r : Report) → trim (opening e ++ debug_text r) ≡ opening e ++ debug_text r
trim_message bare r =
    let (c, s, start, h) = text_start r in
    rw (start)
      (trim-cons c s h (ap (trim_end_matches is_whitespace) (sym start) ∙ text_end r ∙ start))
trim_message call r =
    let (c, s, start, h) = text_start r in
    trim-cons _ _ refl (end_after (opening call) (debug_text r) c s start (text_end r))
trim_message wasm r =
    let (c, s, start, h) = text_start r in
    trim-cons _ _ refl (end_after (opening wasm) (debug_text r) c s start (text_end r))

envelope_lem :
    (e : Envelope) (r : Report) → without_envelopes (opening e ++ debug_text r) ≡ debug_text r
unfolding without_envelopes strip_prefix trim_start_matches
envelope_lem bare (execution ps) = refl
envelope_lem bare (guest ps) = refl
envelope_lem bare (no_code ps) = refl
envelope_lem bare missing_method = refl
envelope_lem call (execution ps) = refl
envelope_lem call (guest ps) = refl
envelope_lem call (no_code ps) = refl
envelope_lem call missing_method = refl
envelope_lem wasm (execution ps) = refl
envelope_lem wasm (guest ps) = refl
envelope_lem wasm (no_code ps) = refl
envelope_lem wasm missing_method = refl

module _ (J : Type 0) (is_account_id : Bytes → Bool) (contract_id : Bytes)
    (method_name : Option Bytes) (block : Context J) where
  classify_text :
      (r : Report)
      → IsReport is_account_id r
      → classify_unwrapped J is_account_id contract_id method_name block (debug_text r)
        ≡ classify_function_call_error J is_account_id contract_id method_name block (error_of J r)
  unfolding classify_unwrapped if_stripped strip_prefix classify_function_call_error
      of_execution_error of_guest_panic of_no_code after_first from_quote trim_start_matches
  classify_text (execution ps) h = rw (parse_debug_str-quoted ps (codes ")") h) refl
  classify_text (guest ps) h = rw (parse_debug_str-quoted ps (codes " })") h) refl
  classify_text (no_code ps) (h, k) = rw (parse_debug_str-quoted ps (codes ") })") h, k) refl
  classify_text missing_method h = refl

  -- For each failure that is told apart (a panic of the contract, an execution error, a missing
  -- method, and missing code of a valid account), the text that `Debug` prints for it, alone or in
  -- one of the two envelopes, is classified as the structured error is.
  pub classify_legacy-Report :
      (e : Envelope) (r : Report)
      → IsReport is_account_id r
      → classify_legacy_function_call_error J is_account_id contract_id method_name block
          (opening e ++ debug_text r)
        ≡ classify_function_call_error J is_account_id contract_id method_name block (error_of J r)
  unfolding classify_legacy_function_call_error unwrapped
  classify_legacy-Report e r h =
      ap
        (λ t.
          classify_unwrapped J is_account_id contract_id method_name block (without_envelopes t))
        (trim_message e r)
      ∙ ap (classify_unwrapped J is_account_id contract_id method_name block) (envelope_lem e r)
      ∙ classify_text r h

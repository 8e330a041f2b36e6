-- ===== src/Amount/Defs.antt =====
-- tokens/types.rs: `FtAmount`, its checked arithmetic, and its decimal text. The texts that errors
-- hold are left out.
use near_kit_rs.Prelude.{
  min, ℕ, ◌+◌, ◌-◌, ◌*◌, ◌/◌, ◌%◌, ◌^◌, Bool, not, ◌||◌, Option, none, some, List, [], ◌∷◌, ◌++◌,
  Bytes, length, Result, ok, err, ◌>>=◌, ok_or, ◌==◌, ltb, if◌then◌else◌, bytes_eq, to_string,
  parse_uint,
}
use near_kit_rs.Amount.Padding.{trim, split, pad_start, pad_end, trim_end_matches, is_zero_digit}

-- `ParseAmountError` of error.rs.
pub data ParseAmountError : Type 0 where
  ambiguous_amount invalid_format invalid_number overflow : ParseAmountError

abbrev pub u128_max_plus_one : ℕ
u128_max_plus_one = 2 ^ 128

-- `10u128.pow`, which wraps in a release build.
abbrev pub pow10 : ℕ → ℕ
pow10 decimals = 10 ^ decimals % 2 ^ 128

abbrev pub checked : ℕ → Option ℕ
checked n = if ltb n u128_max_plus_one then some n else none

abbrev pub point : ℕ
point = b'.'

-- `format_raw_with_decimals`; `none` is the panic of a division by zero.
unfoldable pub format_raw_with_decimals : (raw decimals : ℕ) → Option Bytes
format_raw_with_decimals raw decimals =
    if decimals == 0
    then some (to_string raw)
    else (let divisor = pow10 decimals in
        if divisor == 0
        then none
        else (let whole = raw / divisor in
            let frac = raw % divisor in
            if frac == 0
            then some (to_string whole)
            else some (
                to_string whole
                ++ point ∷ trim_end_matches is_zero_digit (pad_start decimals (to_string frac)))))

-- An empty whole part stands for 0.
unfoldable pub parse_whole : Bytes → Result ParseAmountError ℕ
parse_whole [] = ok 0
parse_whole (c ∷ s) = ok_or (parse_uint u128_max_plus_one (c ∷ s)) invalid_number

unfoldable pub parse_parts : (decimals : ℕ) → List Bytes → Result ParseAmountError ℕ
unfolding parse_whole
parse_parts decimals (part ∷ []) = do
  whole ← ok_or (parse_uint u128_max_plus_one part) invalid_number
  ok_or (checked (whole * pow10 decimals)) overflow
parse_parts decimals (part ∷ frac_str ∷ []) = do
  whole ← parse_whole part
  if ltb decimals (length frac_str) then err invalid_format else (do
    frac ← ok_or (parse_uint u128_max_plus_one (pad_end decimals frac_str)) invalid_number
    whole_shifted ← ok_or (checked (whole * pow10 decimals)) overflow
    ok_or (checked (whole_shifted + frac)) overflow)
parse_parts decimals _ = err invalid_format

unfoldable pub parse_trimmed : (decimals : ℕ) → Bytes → Result ParseAmountError ℕ
unfolding parse_parts
parse_trimmed decimals [] = err invalid_format
parse_trimmed decimals (c ∷ s) = parse_parts decimals (split point (c ∷ s))

unfoldable pub parse_decimal_to_raw : Bytes → (decimals : ℕ) → Result ParseAmountError ℕ
unfolding parse_trimmed
parse_decimal_to_raw s decimals = parse_trimmed decimals (trim s)

pub record FtAmount : Type 0 where
  pub raw : ℕ
  pub decimals : ℕ
  pub symbol : Bytes

unfoldable pub parse : Bytes → (decimals : ℕ) → Bytes → Result ParseAmountError FtAmount
unfolding parse_decimal_to_raw
parse s decimals symbol = do
  raw ← parse_decimal_to_raw s decimals
  ok (record { raw = raw; decimals = decimals; symbol = symbol })

unfoldable pub format_amount : FtAmount → Option Bytes
unfolding format_raw_with_decimals
format_amount a = format_raw_with_decimals a.raw a.decimals

abbrev pub with_raw : FtAmount → Option ℕ → Option FtAmount
with_raw a none = none
with_raw a (some raw) = some (record { raw = raw; decimals = a.decimals; symbol = a.symbol })

abbrev pub same_token : FtAmount → FtAmount → Bool
same_token a b = not (not (a.decimals == b.decimals) || not (bytes_eq a.symbol b.symbol))

unfoldable pub checked_add : FtAmount → FtAmount → Option FtAmount
checked_add a b = if not (same_token a b) then none else with_raw a (checked (a.raw + b.raw))

unfoldable pub checked_sub : FtAmount → FtAmount → Option FtAmount
checked_sub a b =
    if not (same_token a b)
    then none
    else with_raw a (if ltb a.raw b.raw then none else some (a.raw - b.raw))

unfoldable pub checked_mul : FtAmount → ℕ → Option FtAmount
checked_mul a multiplier = with_raw a (checked (a.raw * multiplier))

unfoldable pub checked_div : FtAmount → ℕ → Option FtAmount
checked_div a divisor = if divisor == 0 then none else with_raw a (some (a.raw / divisor))

unfoldable pub saturating_add : FtAmount → FtAmount → Option FtAmount
saturating_add a b =
    if not (same_token a b)
    then none
    else with_raw a (some (min (a.raw + b.raw) (u128_max_plus_one - 1)))

unfoldable pub saturating_sub : FtAmount → FtAmount → Option FtAmount
saturating_sub a b = if not (same_token a b) then none else with_raw a (some (a.raw - b.raw))

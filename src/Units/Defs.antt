-- ===== src/Units/Defs.antt =====
-- types/units.rs: parsing amounts of NEAR and of gas. The texts that errors hold are left out, and
-- whitespace is that of ASCII.
use near_kit_rs.Prelude.{
  ℕ, zero, suc, ◌+◌, ◌-◌, ◌*◌, ◌^◌, Bool, true, ◌&&◌, ◌||◌, Option, none, some, [], ◌∷◌, Bytes,
  length, Result, ok, err, ◌>>=◌, ok_or, ◌==◌, ltb, leb, if◌then◌else◌, codes, split_once,
  parse_uint, is_ascii_digit, strip_suffix,
}
use near_kit_rs.Amount.Padding.{trim}
use near_kit_rs.Amount.Defs.{ParseAmountError, u128_max_plus_one, checked, point, parse_whole}

-- `ParseGasError` of error.rs.
pub data ParseGasError : Type 0 where
  invalid_format invalid_number overflow : ParseGasError

abbrev pub yocto_per_near : ℕ
yocto_per_near = 1_000_000_000_000_000_000_000_000

abbrev pub yocto_per_millinear : ℕ
yocto_per_millinear = 1_000_000_000_000_000_000_000

abbrev pub gas_per_tgas : ℕ
gas_per_tgas = 1_000_000_000_000

abbrev pub gas_per_ggas : ℕ
gas_per_ggas = 1_000_000_000

abbrev pub is_continuation : ℕ → Bool
is_continuation c = leb 128 c && ltb c 192

-- `&s[..n]`; `none` is the panic at a place inside a character.
unfoldable pub slice_to : ℕ → Bytes → Option Bytes
slice_to zero [] = some []
slice_to zero (c ∷ s) = if is_continuation c then none else some []
slice_to (suc n) [] = none
slice_to (suc n) (c ∷ s) = elim (slice_to n s) [ none ↦ none | some front ↦ some (c ∷ front) ]

unfoldable pub decimal_str : Bytes → Option Bytes
decimal_str part = if ltb 24 (length part) then slice_to 24 part else some part

unfoldable pub with_decimals : Bytes → Bytes → Result ParseAmountError ℕ
unfolding parse_whole
with_decimals integer_part digits = do
  integer ← parse_whole integer_part
  decimal ← parse_whole digits
  yocto ← ok_or (checked (integer * yocto_per_near)) ParseAmountError.overflow
  ok_or (checked (yocto + decimal * 10 ^ (24 - length digits))) ParseAmountError.overflow

abbrev pub sliced : Bytes → Option Bytes → Option (Result ParseAmountError ℕ)
sliced integer_part none = none
sliced integer_part (some digits) = some (with_decimals integer_part digits)

-- The integer part is read before the decimals are sliced.
abbrev pub after_integer :
    Bytes → Bytes → Result ParseAmountError ℕ → Option (Result ParseAmountError ℕ)
after_integer integer_part decimal_part (err e) = some (err e)
after_integer integer_part decimal_part (ok _) = sliced integer_part (decimal_str decimal_part)

abbrev pub whole_amount : ℕ → Bytes → Result ParseAmountError ℕ
whole_amount factor s = do
  v ← ok_or (parse_uint u128_max_plus_one s) ParseAmountError.invalid_number
  ok_or (checked (v * factor)) ParseAmountError.overflow

abbrev pub near_parts : Bytes → Option (Bytes × Bytes) → Option (Result ParseAmountError ℕ)
near_parts s none = some (whole_amount yocto_per_near s)
near_parts s (some p) = after_integer p.0 p.1 (parse_whole p.0)

-- `parse_near_decimal`; `none` is a panic.
unfoldable pub parse_near_decimal : Bytes → Option (Result ParseAmountError ℕ)
unfolding decimal_str with_decimals parse_whole
parse_near_decimal text = near_parts (trim text) (split_once point (trim text))

-- `strip_suffix` with one suffix or another.
abbrev pub or_else : Option Bytes → Option Bytes → Option Bytes
or_else none other = other
or_else (some v) other = some v

-- `if let Some(value) = … { return … }`
abbrev pub if_some : {A : Type 0} → Option Bytes → (Bytes → A) → A → A
if_some none f rest = rest
if_some (some v) f rest = f v

abbrev pub all_digits_or_points : Bytes → Bool
all_digits_or_points [] = true
all_digits_or_points (c ∷ s) = (is_ascii_digit c || c == point) && all_digits_or_points s

unfoldable pub parse_trimmed_token : Bytes → Option (Result ParseAmountError ℕ)
unfolding parse_near_decimal strip_suffix
parse_trimmed_token s =
    if_some (or_else (strip_suffix (codes " NEAR") s) (strip_suffix (codes " near") s))
      (λ v. parse_near_decimal (trim v))
      (if_some (or_else (strip_suffix (codes " milliNEAR") s) (strip_suffix (codes " mNEAR") s))
        (λ v. some (whole_amount yocto_per_millinear (trim v)))
        (if_some (or_else (strip_suffix (codes " yoctoNEAR") s) (strip_suffix (codes " yocto") s))
          (λ v.
            some (ok_or (parse_uint u128_max_plus_one (trim v)) ParseAmountError.invalid_number))
          (if all_digits_or_points s
            then some (err ParseAmountError.ambiguous_amount)
            else some (err ParseAmountError.invalid_format))))

-- `parse_near_token`; `none` is a panic.
unfoldable pub parse_near_token : Bytes → Option (Result ParseAmountError ℕ)
unfolding parse_trimmed_token
parse_near_token text = parse_trimmed_token (trim text)

abbrev pub u64_max_plus_one : ℕ
u64_max_plus_one = 2 ^ 64

abbrev pub checked_gas : ℕ → Option ℕ
checked_gas n = if ltb n u64_max_plus_one then some n else none

abbrev pub gas_amount : ℕ → Bytes → Result ParseGasError ℕ
gas_amount factor s = do
  v ← ok_or (parse_uint u64_max_plus_one s) ParseGasError.invalid_number
  ok_or (checked_gas (v * factor)) ParseGasError.overflow

unfoldable pub parse_trimmed_gas : Bytes → Result ParseGasError ℕ
unfolding strip_suffix
parse_trimmed_gas s =
    if_some
      (or_else (strip_suffix (codes " Tgas") s)
        (or_else (strip_suffix (codes " tgas") s) (strip_suffix (codes " TGas") s)))
      (λ v. gas_amount gas_per_tgas (trim v))
      (if_some
        (or_else (strip_suffix (codes " Ggas") s)
          (or_else (strip_suffix (codes " ggas") s) (strip_suffix (codes " GGas") s)))
        (λ v. gas_amount gas_per_ggas (trim v))
        (if_some (strip_suffix (codes " gas") s)
          (λ v. ok_or (parse_uint u64_max_plus_one (trim v)) ParseGasError.invalid_number)
          (err ParseGasError.invalid_format)))

unfoldable pub parse_gas : Bytes → Result ParseGasError ℕ
unfolding parse_trimmed_gas
parse_gas text = parse_trimmed_gas (trim text)

-- The implementations of `IntoNearToken` and `IntoGas`: a typed value, or a text.
pub data IntoNearToken : Type 0 where
  token : ℕ → IntoNearToken
  text : Bytes → IntoNearToken

unfoldable pub into_near_token : IntoNearToken → Option (Result ParseAmountError ℕ)
unfolding parse_near_token
into_near_token (token n) = some (ok n)
into_near_token (text s) = parse_near_token s

pub data IntoGas : Type 0 where
  gas : ℕ → IntoGas
  text : Bytes → IntoGas

unfoldable pub into_gas : IntoGas → Result ParseGasError ℕ
unfolding parse_gas
into_gas (gas n) = ok n
into_gas (text s) = parse_gas s

-- ===== src/Units/Written.antt =====
-- The texts that types/units.rs documents are parsed as the amounts that they stand for.
use mathlib.Core.List.{cons-ne-nil}
use near_kit_rs.Prelude.{
  ℕ, ◌+◌, ◌-◌, ◌*◌, ◌^◌, ◌<◌, ◌≡◌, ◌≢◌, refl, ap, true, some, [], ◌∷◌, ◌++◌, Bytes, All, length,
  take, Result, ok_or, ◌>>=◌, ltb, IsDigit, value, parse_uint, parse_uint-value, split_once-append,
  arith,
}
use near_kit_rs.Amount.Padding.{IsPrinted, trim-eq}
use near_kit_rs.Amount.RoundTrip.{digits-IsPrinted, All-append}
use near_kit_rs.Amount.Defs.{ParseAmountError, u128_max_plus_one, checked, point}
use near_kit_rs.Units.Defs.{
  yocto_per_near, with_decimals, parse_near_decimal, whole_amount, parse_near_token,
}
use near_kit_rs.Units.Suffixes.{
  Denomination, near, near_lower, milli_near, m_near, yocto_near, yocto, suffix, factor, read_as,
  suffix_trimmed, by_suffix,
}
use near_kit_rs.Units.Decimals.{
  no_points, split_once-none, take-IsDigit, decimal_str-take, parse_whole_lem, decimals-lt,
}

-- A number as it is written: digits, or digits on both sides of a point.
pub data Number : Type 0 where
  whole : Bytes → Number
  decimal : (integer_part decimal_part : Bytes) → Number

abbrev pub text : Number → Bytes
text (whole ds) = ds
text (decimal ds fs) = ds ++ point ∷ fs

-- Decimals are written of whole NEAR only.
abbrev pub HasDecimals : Denomination → Type 0
HasDecimals near = Unit
HasDecimals near_lower = Unit
HasDecimals _ = ⊥

abbrev pub IsNumber : Denomination → Number → Type 0
IsNumber d (whole ds) = (ds ≢ []) × All IsDigit ds × (value 0 ds < 2 ^ 128)
IsNumber d (decimal ds fs) =
    HasDecimals d × All IsDigit ds × (value 0 ds < 2 ^ 128) × All IsDigit fs

-- The amount in yoctoNEAR, of which 24 decimals are read.
abbrev pub amount : Denomination → Number → ℕ
amount d (whole ds) = value 0 ds * factor d
amount d (decimal ds fs) =
    value 0 ds * factor d + value 0 (take 24 fs) * 10 ^ (24 - length (take 24 fs))

abbrev pub in_range : ℕ → Result ParseAmountError ℕ
in_range n = ok_or (checked n) ParseAmountError.overflow

whole_amount_lem :
    (f : ℕ) (ds : Bytes)
    → ds ≢ []
    → All IsDigit ds
    → value 0 ds < 2 ^ 128
    → whole_amount f ds ≡ in_range (value 0 ds * f)
whole_amount_lem f ds h k fits = rw (parse_uint-value u128_max_plus_one ds h k fits) refl

two_checks :
    (a b : ℕ)
    → (ok_or (checked a) ParseAmountError.overflow >>= λ y.
        ok_or (checked (y + b)) ParseAmountError.overflow)
      ≡ in_range (a + b)
two_checks a b = ground arith

read_decimal :
    (ds fs : Bytes)
    → All IsDigit ds
    → value 0 ds < 2 ^ 128
    → All IsDigit fs
    → parse_near_decimal (ds ++ point ∷ fs) ≡ some (in_range (amount near (decimal ds fs)))
unfolding parse_near_decimal with_decimals
read_decimal ds fs h fits k =
    let printed =
      All-append IsPrinted ds (point ∷ fs) (digits-IsPrinted ds h) (refl, digits-IsPrinted fs k) in
    rw
      (
        trim-eq (ds ++ point ∷ fs) printed,
        split_once-append point ds fs (no_points ds h),
        parse_whole_lem ds h fits,
        decimal_str-take fs k,
        parse_whole_lem ds h fits,
        parse_whole_lem (take 24 fs) (take-IsDigit 24 fs k) (decimals-lt fs k),
      )
      (ap some (two_checks (value 0 ds * yocto_per_near) _))

read_whole :
    (ds : Bytes)
    → ds ≢ []
    → All IsDigit ds
    → value 0 ds < 2 ^ 128
    → parse_near_decimal ds ≡ some (in_range (value 0 ds * yocto_per_near))
unfolding parse_near_decimal
read_whole ds h k fits =
    rw (trim-eq ds (digits-IsPrinted ds k), split_once-none ds k)
      (ap some (whole_amount_lem yocto_per_near ds h k fits))

read_yocto :
    (ds : Bytes)
    → ds ≢ []
    → All IsDigit ds
    → value 0 ds < 2 ^ 128
    → ok_or (parse_uint u128_max_plus_one ds) ParseAmountError.invalid_number
      ≡ in_range (value 0 ds * 1)
read_yocto ds h k fits =
    let same : value 0 ds * 1 ≡ value 0 ds = omega arith in
    let small : ltb (value 0 ds) (2 ^ 128) ≡ true = ground arith in
    rw (parse_uint-value u128_max_plus_one ds h k fits, same, small) refl

read_number :
    (d : Denomination) (n : Number)
    → IsNumber d n
    → read_as d (text n) ≡ some (in_range (amount d n))
read_number near (whole ds) (h, k, fits) = read_whole ds h k fits
read_number near_lower (whole ds) (h, k, fits) = read_whole ds h k fits
read_number milli_near (whole ds) (h, k, fits) = ap some (whole_amount_lem _ ds h k fits)
read_number m_near (whole ds) (h, k, fits) = ap some (whole_amount_lem _ ds h k fits)
read_number yocto_near (whole ds) (h, k, fits) = ap some (read_yocto ds h k fits)
read_number yocto (whole ds) (h, k, fits) = ap some (read_yocto ds h k fits)
read_number near (decimal ds fs) (_, h, fits, k) = read_decimal ds fs h fits k
read_number near_lower (decimal ds fs) (_, h, fits, k) = read_decimal ds fs h fits k
read_number milli_near (decimal ds fs) (h, _, _, _) = elim h [ ]
read_number m_near (decimal ds fs) (h, _, _, _) = elim h [ ]
read_number yocto_near (decimal ds fs) (h, _, _, _) = elim h [ ]
read_number yocto (decimal ds fs) (h, _, _, _) = elim h [ ]

not_nil : (ds fs : Bytes) → ds ++ point ∷ fs ≢ []
not_nil [] fs = cons-ne-nil _ _
not_nil (c ∷ ds) fs = cons-ne-nil _ _

text-IsPrinted :
    (d : Denomination) (n : Number) → IsNumber d n → (text n ≢ []) × All IsPrinted (text n)
text-IsPrinted d (whole ds) (h, k, _) = (h, digits-IsPrinted ds k)
text-IsPrinted d (decimal ds fs) (_, h, _, k) = (
  not_nil ds fs,
  All-append IsPrinted ds (point ∷ fs) (digits-IsPrinted ds h) (refl, digits-IsPrinted fs k),
)

-- A number below 2 ^ 128 in digits with one of the six endings, and for the endings ` NEAR` and `
-- near` also with decimals, is parsed without a panic as that amount of yoctoNEAR, of which 24
-- decimals are read, or as the error for an overflow where the amount is 2 ^ 128 or more.
pub parse_near_token-text :
    (d : Denomination) (n : Number)
    → IsNumber d n
    → parse_near_token (text n ++ suffix d) ≡ some (in_range (amount d n))
unfolding parse_near_token
parse_near_token-text d n h =
    let (some_text, printed) = text-IsPrinted d n h in
    rw (suffix_trimmed (text n) d some_text printed, by_suffix (text n) d printed)
      (read_number d n h)

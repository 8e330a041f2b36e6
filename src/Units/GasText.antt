-- ===== src/Units/GasText.antt =====
-- The texts of gas that types/units.rs documents are parsed as the gas that they stand for.
use mathlib.Core.List.{reverse}
use near_kit_rs.Prelude.{
  ℕ, ◌*◌, ◌^◌, ◌<◌, ◌≡◌, ◌≢◌, refl, ap, ◌∙◌, none, true, [], ◌++◌, Bytes, All, Result, ok_or, ltb,
  codes, IsDigit, value, parse_uint, parse_uint-value, strip_suffix, strip_suffix-append,
  strip_suffix_end, strip_prefix, reversed, arith,
}
use near_kit_rs.Amount.Padding.{trim, trim_end_matches, IsPrinted, trim-eq, trim-append}
use near_kit_rs.Amount.RoundTrip.{digits-IsPrinted}
use near_kit_rs.Units.Defs.{
  ParseGasError, gas_per_tgas, gas_per_ggas, u64_max_plus_one, checked_gas, gas_amount,
  parse_trimmed_gas, parse_gas,
}

pub data GasDenomination : Type 0 where
  tgas tgas_lower tgas_camel ggas ggas_lower ggas_camel gas : GasDenomination

abbrev pub suffix : GasDenomination → Bytes
suffix tgas = codes " Tgas"
suffix tgas_lower = codes " tgas"
suffix tgas_camel = codes " TGas"
suffix ggas = codes " Ggas"
suffix ggas_lower = codes " ggas"
suffix ggas_camel = codes " GGas"
suffix gas = codes " gas"

abbrev pub factor : GasDenomination → ℕ
factor tgas = gas_per_tgas
factor tgas_lower = gas_per_tgas
factor tgas_camel = gas_per_tgas
factor ggas = gas_per_ggas
factor ggas_lower = gas_per_ggas
factor ggas_camel = gas_per_ggas
factor gas = 1

no_suffix :
    (d other : GasDenomination) (s : Bytes)
    → strip_prefix (reverse (suffix other)) (reverse (suffix d) ++ reverse s) ≡ none
    → strip_suffix (suffix other) (s ++ suffix d) ≡ none
no_suffix d other s h = strip_suffix_end (suffix other) s (suffix d) ∙ ap reversed h

suffix_trimmed :
    (s : Bytes) (d : GasDenomination)
    → s ≢ []
    → All IsPrinted s
    → trim (s ++ suffix d) ≡ s ++ suffix d
unfolding trim_end_matches
suffix_trimmed s tgas h k = trim-append s _ _ h k refl
suffix_trimmed s tgas_lower h k = trim-append s _ _ h k refl
suffix_trimmed s tgas_camel h k = trim-append s _ _ h k refl
suffix_trimmed s ggas h k = trim-append s _ _ h k refl
suffix_trimmed s ggas_lower h k = trim-append s _ _ h k refl
suffix_trimmed s ggas_camel h k = trim-append s _ _ h k refl
suffix_trimmed s gas h k = trim-append s _ _ h k refl

abbrev pub in_range : ℕ → Result ParseGasError ℕ
in_range n = ok_or (checked_gas n) ParseGasError.overflow

-- What stands in front of an ending is read in that unit.
abbrev read_as : GasDenomination → Bytes → Result ParseGasError ℕ
read_as gas s = ok_or (parse_uint u64_max_plus_one s) ParseGasError.invalid_number
read_as d s = gas_amount (factor d) s

-- Each ending is found, and no other before it.
by_suffix :
    (s : Bytes) (d : GasDenomination)
    → All IsPrinted s
    → parse_trimmed_gas (s ++ suffix d) ≡ read_as d s
unfolding parse_trimmed_gas strip_prefix
by_suffix s tgas k = rw (strip_suffix-append s (suffix tgas), trim-eq s k) refl
by_suffix s tgas_lower k =
    rw (no_suffix tgas_lower tgas s refl, strip_suffix-append s (suffix tgas_lower), trim-eq s k)
      refl
by_suffix s tgas_camel k =
    rw
      (
        no_suffix tgas_camel tgas s refl,
        no_suffix tgas_camel tgas_lower s refl,
        strip_suffix-append s (suffix tgas_camel),
        trim-eq s k,
      )
      refl
by_suffix s ggas k =
    rw
      (
        no_suffix ggas tgas s refl,
        no_suffix ggas tgas_lower s refl,
        no_suffix ggas tgas_camel s refl,
        strip_suffix-append s (suffix ggas),
        trim-eq s k,
      )
      refl
by_suffix s ggas_lower k =
    rw
      (
        no_suffix ggas_lower tgas s refl,
        no_suffix ggas_lower tgas_lower s refl,
        no_suffix ggas_lower tgas_camel s refl,
        no_suffix ggas_lower ggas s refl,
        strip_suffix-append s (suffix ggas_lower),
        trim-eq s k,
      )
      refl
by_suffix s ggas_camel k =
    rw
      (
        no_suffix ggas_camel tgas s refl,
        no_suffix ggas_camel tgas_lower s refl,
        no_suffix ggas_camel tgas_camel s refl,
        no_suffix ggas_camel ggas s refl,
        no_suffix ggas_camel ggas_lower s refl,
        strip_suffix-append s (suffix ggas_camel),
        trim-eq s k,
      )
      refl
by_suffix s gas k =
    rw
      (
        no_suffix gas tgas s refl,
        no_suffix gas tgas_lower s refl,
        no_suffix gas tgas_camel s refl,
        no_suffix gas ggas s refl,
        no_suffix gas ggas_lower s refl,
        no_suffix gas ggas_camel s refl,
        strip_suffix-append s (suffix gas),
        trim-eq s k,
      )
      refl

read_gas :
    (d : GasDenomination) (ds : Bytes)
    → ds ≢ []
    → All IsDigit ds
    → value 0 ds < 2 ^ 64
    → read_as d ds ≡ in_range (value 0 ds * factor d)
read_gas tgas ds h k fits = rw (parse_uint-value u64_max_plus_one ds h k fits) refl
read_gas tgas_lower ds h k fits = rw (parse_uint-value u64_max_plus_one ds h k fits) refl
read_gas tgas_camel ds h k fits = rw (parse_uint-value u64_max_plus_one ds h k fits) refl
read_gas ggas ds h k fits = rw (parse_uint-value u64_max_plus_one ds h k fits) refl
read_gas ggas_lower ds h k fits = rw (parse_uint-value u64_max_plus_one ds h k fits) refl
read_gas ggas_camel ds h k fits = rw (parse_uint-value u64_max_plus_one ds h k fits) refl
read_gas gas ds h k fits =
    let same : value 0 ds * 1 ≡ value 0 ds = omega arith in
    let small : ltb (value 0 ds) (2 ^ 64) ≡ true = ground arith in
    rw (parse_uint-value u64_max_plus_one ds h k fits, same, small) refl

-- A number below 2 ^ 64 in digits with one of the seven endings is parsed as that amount of gas, or
-- as the error for an overflow where it is 2 ^ 64 or more.
pub parse_gas-text :
    (d : GasDenomination) (ds : Bytes)
    → ds ≢ []
    → All IsDigit ds
    → value 0 ds < 2 ^ 64
    → parse_gas (ds ++ suffix d) ≡ in_range (value 0 ds * factor d)
unfolding parse_gas
parse_gas-text d ds h k fits =
    let printed = digits-IsPrinted ds k in
    rw (suffix_trimmed ds d h printed, by_suffix ds d printed) (read_gas d ds h k fits)

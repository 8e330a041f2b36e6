-- ===== src/Units/Suffixes.antt =====
-- The endings that `parse_near_token` looks for, one after the other.
use mathlib.Core.List.{reverse}
use near_kit_rs.Prelude.{
  ℕ, ◌≡◌, ◌≢◌, refl, ap, ◌∙◌, Option, none, some, [], ◌++◌, Bytes, All, Result, ok_or, codes,
  parse_uint, strip_suffix, strip_suffix-append, strip_suffix_end, strip_prefix, reversed,
}
use near_kit_rs.Amount.Padding.{trim, trim_end_matches, IsPrinted, trim-eq, trim-append}
use near_kit_rs.Amount.Defs.{ParseAmountError, u128_max_plus_one}
use near_kit_rs.Units.Defs.{
  yocto_per_near, yocto_per_millinear, parse_near_decimal, whole_amount, parse_trimmed_token,
}

-- The endings of the documented forms.
pub data Denomination : Type 0 where
  near near_lower milli_near m_near yocto_near yocto : Denomination

abbrev pub suffix : Denomination → Bytes
suffix near = codes " NEAR"
suffix near_lower = codes " near"
suffix milli_near = codes " milliNEAR"
suffix m_near = codes " mNEAR"
suffix yocto_near = codes " yoctoNEAR"
suffix yocto = codes " yocto"

abbrev pub factor : Denomination → ℕ
factor near = yocto_per_near
factor near_lower = yocto_per_near
factor milli_near = yocto_per_millinear
factor m_near = yocto_per_millinear
factor yocto_near = 1
factor yocto = 1

-- The number in front of an ending, read in that unit.
abbrev pub read_as : Denomination → Bytes → Option (Result ParseAmountError ℕ)
read_as near s = parse_near_decimal s
read_as near_lower s = parse_near_decimal s
read_as milli_near s = some (whole_amount yocto_per_millinear s)
read_as m_near s = some (whole_amount yocto_per_millinear s)
read_as yocto_near s = some (ok_or (parse_uint u128_max_plus_one s) ParseAmountError.invalid_number)
read_as yocto s = some (ok_or (parse_uint u128_max_plus_one s) ParseAmountError.invalid_number)

pub suffix_trimmed :
    (s : Bytes) (d : Denomination) → s ≢ [] → All IsPrinted s → trim (s ++ suffix d) ≡ s ++ suffix d
unfolding trim_end_matches
suffix_trimmed s near h k = trim-append s _ _ h k refl
suffix_trimmed s near_lower h k = trim-append s _ _ h k refl
suffix_trimmed s milli_near h k = trim-append s _ _ h k refl
suffix_trimmed s m_near h k = trim-append s _ _ h k refl
suffix_trimmed s yocto_near h k = trim-append s _ _ h k refl
suffix_trimmed s yocto h k = trim-append s _ _ h k refl

no_suffix :
    (d other : Denomination) (s : Bytes)
    → strip_prefix (reverse (suffix other)) (reverse (suffix d) ++ reverse s) ≡ none
    → strip_suffix (suffix other) (s ++ suffix d) ≡ none
no_suffix d other s h = strip_suffix_end (suffix other) s (suffix d) ∙ ap reversed h

-- Each ending is found, and no other before it.
pub by_suffix :
    (s : Bytes) (d : Denomination)
    → All IsPrinted s
    → parse_trimmed_token (s ++ suffix d) ≡ read_as d s
unfolding parse_trimmed_token strip_prefix
by_suffix s near k = rw (strip_suffix-append s (suffix near), trim-eq s k, trim-eq s k) refl
by_suffix s near_lower k =
    rw
      (
        no_suffix near_lower near s refl,
        strip_suffix-append s (suffix near_lower),
        trim-eq s k,
        trim-eq s k,
      )
      refl
by_suffix s milli_near k =
    rw
      (
        no_suffix milli_near near s refl,
        no_suffix milli_near near_lower s refl,
        strip_suffix-append s (suffix milli_near),
        trim-eq s k,
      )
      refl
by_suffix s m_near k =
    rw
      (
        no_suffix m_near near s refl,
        no_suffix m_near near_lower s refl,
        no_suffix m_near milli_near s refl,
        strip_suffix-append s (suffix m_near),
        trim-eq s k,
      )
      refl
by_suffix s yocto_near k =
    rw
      (
        no_suffix yocto_near near s refl,
        no_suffix yocto_near near_lower s refl,
        no_suffix yocto_near milli_near s refl,
        no_suffix yocto_near m_near s refl,
        strip_suffix-append s (suffix yocto_near),
        trim-eq s k,
      )
      refl
by_suffix s yocto k =
    rw
      (
        no_suffix yocto near s refl,
        no_suffix yocto near_lower s refl,
        no_suffix yocto milli_near s refl,
        no_suffix yocto m_near s refl,
        no_suffix yocto yocto_near s refl,
        strip_suffix-append s (suffix yocto),
        trim-eq s k,
      )
      refl

-- ===== src/Tests/Units.antt =====
-- Amounts of NEAR and gas in text, at concrete values.
use mathlib.Core.List.{cons-ne-nil}
use near_kit_rs.Units.Suffixes.{Denomination, suffix}
use near_kit_rs.Units.Written.{Number, in_range, amount, parse_near_token-text}
use near_kit_rs.Units.GasText
use near_kit_rs.Units.GasText.{parse_gas-text}
use near_kit_rs.Prelude.{
  value, ◌*◌, arith, ◌≡◌, refl, none, some, ok, err, codes, ◌∷◌, ◌++◌, split_once, parse_uint,
}
use near_kit_rs.Amount.Padding.{trim}
use near_kit_rs.Amount.Defs.{ParseAmountError}
use near_kit_rs.Units.Defs.{slice_to, parse_near_token, parse_gas}

one_and_a_half : parse_near_token (codes " 1.5 NEAR") ≡ some (ok 1_500_000_000_000_000_000_000_000)
unfolding parse_near_token trim split_once parse_uint slice_to
one_and_a_half = refl

-- `é` across the place where the decimals are cut
cut_character :
    parse_near_token (codes "1.00000000000000000000000" ++ 195 ∷ 169 ∷ codes " NEAR") ≡ none
unfolding parse_near_token trim split_once parse_uint slice_to
cut_character = refl

-- What stands behind the 24th decimal is not read.
text_behind :
    parse_near_token (codes "1.000000000000000000000000zzz NEAR")
    ≡ some (ok 1_000_000_000_000_000_000_000_000)
unfolding parse_near_token trim split_once parse_uint slice_to
text_behind = refl

ambiguous : parse_near_token (codes "123") ≡ some (err ParseAmountError.ambiguous_amount)
unfolding parse_near_token trim split_once parse_uint slice_to
ambiguous = refl

thirty_tgas : parse_gas (codes "30 Tgas") ≡ ok 30_000_000_000_000
unfolding parse_gas trim parse_uint
thirty_tgas = refl

parse_near_token-text_example :
    parse_near_token (codes "1.25" ++ suffix Denomination.near)
    ≡ some (in_range (amount Denomination.near (Number.decimal (codes "1") (codes "25"))))
parse_near_token-text_example =
    parse_near_token-text Denomination.near (Number.decimal (codes "1") (codes "25"))
      (tt, (omega arith, tt), omega arith, omega arith)

parse_gas-text_example :
    parse_gas (codes "30" ++ GasText.suffix GasText.tgas)
    ≡ GasText.in_range (value 0 (codes "30") * GasText.factor GasText.tgas)
parse_gas-text_example =
    parse_gas-text GasText.tgas (codes "30") (cons-ne-nil _ _) (omega arith) (omega arith)

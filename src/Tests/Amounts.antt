-- ===== src/Tests/Amounts.antt =====
-- Concrete token amounts.
use near_kit_rs.Prelude.{◌≡◌, Bytes, some, ok, arith}
use near_kit_rs.Amount.{format_raw_with_decimals, parse_decimal_to_raw}
use near_kit_rs.Amount.RoundTrip.{parse_decimal_to_raw-format}

parse_decimal_to_raw-format_example :
    (text : Bytes) × (format_raw_with_decimals 1500000 6 ≡ some text)
    × (parse_decimal_to_raw text 6 ≡ ok 1500000)
parse_decimal_to_raw-format_example =
    parse_decimal_to_raw-format 1500000 6 (omega arith) (omega arith)

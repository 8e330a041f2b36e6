-- ===== src/Amount/RoundTrip.antt =====
-- A printed token amount is parsed back.
use mathlib.Core.List.{cons-ne-nil}
use native.Mathlib.Nat.{pow-le-pow_right, pow-succ', div-add-mod', mod-lt, div-le_self}
use near_kit_rs.Prelude.{
  ℕ, zero, suc, ◌+◌, ◌-◌, ◌*◌, ◌/◌, ◌%◌, ◌^◌, ◌≤◌, ◌<◌, ◌≡◌, ◌≢◌, refl, sym, ap, ◌∙◌, true, false,
  Bool-cases, inl, inr, some, [], ◌∷◌, ◌++◌, Bytes, All, length, ok, ◌==◌, ltb, to_string, digits,
  to_string_shape, parse_uint, parse_uint-value, parse_uint-to_string, IsDigit, value, arith,
}
use near_kit_rs.Amount.Padding.{
  split, zeros, pad_start, pad_end, trim_end_matches, is_zero_digit, pad_end-trim_end_matches,
  length-zeros, zeros-All, value-zeros, trim_end_matches-All, length-trim_end_matches, IsPrinted,
  trim-eq, split-none, split-append,
}
use near_kit_rs.Amount.Defs.{
  u128_max_plus_one, pow10, checked, point, format_raw_with_decimals, parse_whole, parse_parts,
  parse_trimmed, parse_decimal_to_raw,
}

-- A number below a power of ten has as many digits as the exponent at most.
length-digits :
    (d f n : ℕ) (out : Bytes) → n ≤ f → n < 10 ^ d → length (digits f n out) ≤ d + length out
unfolding digits
length-digits d zero n out h k = omega arith
length-digits zero (suc f) n out h k =
    let z : n ≡ 0 = omega arith in
    let yes : (n == 0) ≡ true = ground arith in rw (yes) (omega arith)
length-digits (suc d) (suc f) n out h k = elim (Bool-cases (n == 0)) [
  | inl y ↦ rw (y) (omega arith)
  | inr z ↦
      let tenfold : 10 ^ suc d ≡ 10 * 10 ^ d = pow-succ' 10 d in
      let smaller : n / 10 < 10 ^ d = omega arith in
      let positive : (n == 0) ≡ false = z in
      let below : n / 10 ≤ f = ground arith in
      let shorter = length-digits d f (n / 10) ((b'0' + n % 10) ∷ out) below smaller in
      rw (z) (omega arith)
]

length-to_string : (d n : ℕ) → (n == 0) ≡ false → n < 10 ^ d → length (to_string n) ≤ d
unfolding to_string
length-to_string d n z h =
    let short = length-digits d n n [] (omega arith) h in rw (z) (omega arith)

pow10_small : (d : ℕ) → d ≤ 38 → (pow10 d ≡ 10 ^ d) × (0 < 10 ^ d) × (10 ^ d < 2 ^ 128)
pow10_small d h =
    let high : 10 ^ d ≤ 10 ^ 38 = pow-le-pow_right (omega arith) {i = d} {j = 38} h in
    let low : 10 ^ 0 ≤ 10 ^ d = pow-le-pow_right (omega arith) {i = 0} {j = d} (omega arith) in
    (omega arith, omega arith, omega arith)

pub digits-IsPrinted : (s : Bytes) → All IsDigit s → All IsPrinted s
digits-IsPrinted [] h = tt
digits-IsPrinted (c ∷ s) (h, hs) = (ground arith, digits-IsPrinted s hs)

digits_no_point : (s : Bytes) → All IsDigit s → All (λ c. (c == point) ≡ false) s
digits_no_point [] h = tt
digits_no_point (c ∷ s) (h, hs) = (ground arith, digits_no_point s hs)

pub All-append : (P : ℕ → Type 0) (s t : Bytes) → All P s → All P t → All P (s ++ t)
All-append P [] t h k = k
All-append P (c ∷ s) t (h, hs) k = (h, All-append P s t hs k)

-- The digits behind the point: as many as the token has decimals, and they spell the fraction.
padded_shape :
    (d frac : ℕ)
    → (frac == 0) ≡ false
    → frac < 10 ^ d
    → (length (pad_start d (to_string frac)) ≡ d)
      × All IsDigit (pad_start d (to_string frac))
      × (value 0 (pad_start d (to_string frac)) ≡ frac)
padded_shape d frac z h =
    let (_, all_digits, exact) = to_string_shape frac in
    let short = length-to_string d frac z h in
    (
      length_append (zeros (d - length (to_string frac))) (to_string frac)
          ∙ ap (λ n. n + length (to_string frac)) (length-zeros (d - length (to_string frac)))
          ∙ omega arith,
      zeros-All (d - length (to_string frac)) (to_string frac) all_digits,
      value-zeros (d - length (to_string frac)) (to_string frac) ∙ exact,
    )
  where
    length_append : (s t : Bytes) → length (s ++ t) ≡ length s + length t
    length_append [] t = omega arith
    length_append (c ∷ s) t = ap suc (length_append s t) ∙ omega arith

checked_small : (n : ℕ) → n < 2 ^ 128 → checked n ≡ some n
checked_small n h = ground arith

parse_whole-to_string : (n : ℕ) → n < 2 ^ 128 → parse_whole (to_string n) ≡ ok n
unfolding parse_whole
parse_whole-to_string n h =
    go (to_string n) (to_string_shape n).0 (parse_uint-to_string u128_max_plus_one n h)
  where
    go : (s : Bytes) → s ≢ [] → parse_uint u128_max_plus_one s ≡ some n → parse_whole s ≡ ok n
    go [] h e = absurd (h refl)
    go (c ∷ s) h e = rw e

-- A print with a point is parsed part by part.
parse_parts-padded :
    (d whole frac : ℕ)
    → 1 ≤ d
    → d ≤ 38
    → (frac == 0) ≡ false
    → frac < 10 ^ d
    → whole < 2 ^ 128
    → whole * 10 ^ d + frac < 2 ^ 128
    → parse_parts d
        (to_string whole ∷ trim_end_matches is_zero_digit (pad_start d (to_string frac)) ∷ [])
      ≡ ok (whole * 10 ^ d + frac)
unfolding parse_parts
parse_parts-padded d whole frac low high z below small fits =
    let P : Bytes = pad_start d (to_string frac) in
    let (len, all_digits, exact) = padded_shape d frac z below in
    let (pow, positive, _) = pow10_small d high in
    let short = length-trim_end_matches is_zero_digit P in
    let in_width : ltb d (length (trim_end_matches is_zero_digit P)) ≡ false = ground arith in
    let back : pad_end d (trim_end_matches is_zero_digit P) ≡ P =
      ap (λ n. pad_end n (trim_end_matches is_zero_digit P)) (sym len)
      ∙ pad_end-trim_end_matches P in
    let nonempty : P ≢ [] = λ e. absurd (omega (arith, sym len ∙ ap length e)) in
    let frac_read : parse_uint u128_max_plus_one P ≡ some frac =
      parse_uint-value u128_max_plus_one P nonempty all_digits (omega arith) ∙ ap some exact in
    let shifted : checked (whole * 10 ^ d) ≡ some (whole * 10 ^ d) =
      checked_small (whole * 10 ^ d) (omega arith) in
    let sum = checked_small (whole * 10 ^ d + frac) fits in
    rw (parse_whole-to_string whole small, in_width, back, frac_read, pow, shifted, sum)

parse_printed :
    (s : Bytes) (d : ℕ)
    → s ≢ []
    → All IsPrinted s
    → parse_decimal_to_raw s d ≡ parse_parts d (split point s)
unfolding parse_decimal_to_raw parse_trimmed
parse_printed [] d h k = absurd (h refl)
parse_printed (c ∷ s) d h k = rw (trim-eq (c ∷ s) k) refl

parse_whole_text :
    (d whole : ℕ)
    → d ≤ 38
    → whole < 2 ^ 128
    → whole * 10 ^ d < 2 ^ 128
    → parse_decimal_to_raw (to_string whole) d ≡ ok (whole * 10 ^ d)
unfolding parse_parts
parse_whole_text d whole high small fits =
    let (nonempty, all_digits, _) = to_string_shape whole in
    let (pow, _, _) = pow10_small d high in
    rw (
      parse_printed (to_string whole) d nonempty (digits-IsPrinted _ all_digits),
      split-none point (to_string whole) (digits_no_point _ all_digits),
      parse_uint-to_string u128_max_plus_one whole small,
      pow,
      checked_small (whole * 10 ^ d) fits,
    )

parse_point_text :
    (d whole frac : ℕ)
    → 1 ≤ d
    → d ≤ 38
    → (frac == 0) ≡ false
    → frac < 10 ^ d
    → whole < 2 ^ 128
    → whole * 10 ^ d + frac < 2 ^ 128
    → parse_decimal_to_raw
        (to_string whole ++ point ∷ trim_end_matches is_zero_digit (pad_start d (to_string frac)))
        d
      ≡ ok (whole * 10 ^ d + frac)
parse_point_text d whole frac low high z below small fits =
    let (nonempty, all_digits, _) = to_string_shape whole in
    let T : Bytes = trim_end_matches is_zero_digit (pad_start d (to_string frac)) in
    let (_, padded_digits, _) = padded_shape d frac z below in
    let frac_digits =
      trim_end_matches-All is_zero_digit (pad_start d (to_string frac)) padded_digits in
    let printed : All IsPrinted (to_string whole ++ point ∷ T) =
      All-append IsPrinted (to_string whole) (point ∷ T) (digits-IsPrinted _ all_digits)
        (refl, digits-IsPrinted T frac_digits) in
    rw
      (
        parse_printed (to_string whole ++ point ∷ T) d (append_ne_nil (to_string whole) point T)
            printed,
        split-append point (to_string whole) T (digits_no_point _ all_digits) refl,
        split-none point T (digits_no_point T frac_digits),
      )
      (parse_parts-padded d whole frac low high z below small fits)
  where
    append_ne_nil : (s : Bytes) (c : ℕ) (t : Bytes) → s ++ c ∷ t ≢ []
    append_ne_nil [] c t = cons-ne-nil _ _
    append_ne_nil (x ∷ s) c t = cons-ne-nil _ _

-- An amount below 2 ^ 128 of at most 38 decimals is printed without a panic, and its print is
-- parsed back as the same amount.
pub parse_decimal_to_raw-format :
    (raw d : ℕ)
    → raw < 2 ^ 128
    → d ≤ 38
    → (text : Bytes) × (format_raw_with_decimals raw d ≡ some text)
      × (parse_decimal_to_raw text d ≡ ok raw)
unfolding format_raw_with_decimals
parse_decimal_to_raw-format raw d small high = elim (Bool-cases (d == 0)) [
  | inl y ↦
      let d_zero : d ≡ 0 = ground arith in
      let one : 10 ^ d ≡ 1 = ap (λ x. 10 ^ x) d_zero in
      let same : raw * 10 ^ d ≡ raw = ap (λ x. raw * x) one ∙ omega arith in
      (to_string raw, rw (y) refl, parse_whole_text d raw high small (omega arith) ∙ ap ok same)
  | inr n ↦
      let (pow, positive, _) = pow10_small d high in
      let whole = raw / 10 ^ d in
      let frac = raw % 10 ^ d in
      let whole_and_frac : whole * 10 ^ d + frac ≡ raw = div-add-mod' raw (10 ^ d) in
      let nonzero : (10 ^ d == 0) ≡ false = ground arith in
      let below : frac < 10 ^ d = mod-lt raw positive in
      let small_whole : whole < 2 ^ 128 = omega (arith, div-le_self raw (10 ^ d)) in
      elim (Bool-cases (frac == 0)) [
        | inl f ↦
            let frac_zero : frac ≡ 0 = ground arith in
            let same : whole * 10 ^ d ≡ raw = omega arith in
            (
              to_string whole,
              rw (n, pow, nonzero, f) refl,
              parse_whole_text d whole high small_whole (omega arith) ∙ ap ok same,
            )
        | inr f ↦
            let some_decimals : 1 ≤ d = ground arith in
            (
              _,
              rw (n, pow, nonzero, f) refl,
              parse_point_text d whole frac some_decimals high f below small_whole (omega arith)
                  ∙ ap ok whole_and_frac,
            )
      ]
]

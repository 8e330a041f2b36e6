-- ===== src/Prelude/Decimal.antt =====
-- The standard library's printing and parsing of unsigned integers in decimal.
use Prim.Native.Nat.{ℕ, zero, suc, ◌+◌, ◌-◌, ◌*◌, ◌/◌, ◌%◌, ◌≤◌, ◌<◌}
use mathlib.Core.Path.{◌≡◌, refl}
use mathlib.Core.Bool.{Bool, ◌&&◌}
use mathlib.Core.Logic.{◌≢◌, inl, inr}
use mathlib.Core.Option.{Option, none, some}
use mathlib.Core.List.{[], ◌∷◌, cons-ne-nil}
use native.Mathlib.Omega.{arith}
use near_kit_rs.Prelude.Tests.{◌==◌, ltb, leb, if◌then◌else◌, Bool-cases}
use near_kit_rs.Prelude.Lists.{Bytes, All}

abbrev pub is_ascii_digit : ℕ → Bool
is_ascii_digit c = leb b'0' c && leb c b'9'

abbrev pub IsDigit : ℕ → Type 0
IsDigit c = (b'0' ≤ c) × (c ≤ b'9')

-- The digits of `n` before `out`; the first argument bounds the rounds, and `n` of them are enough.
unfoldable pub digits : ℕ → ℕ → Bytes → Bytes
digits zero n out = out
digits (suc f) n out =
    let rest = digits f (n / 10) ((b'0' + n % 10) ∷ out) in if n == 0 then out else rest

-- `to_string` of an unsigned integer.
unfoldable pub to_string : ℕ → Bytes
unfolding digits
to_string n = if n == 0 then b'0' ∷ [] else digits n n []

scan : ℕ → Bytes → ℕ → Option ℕ
scan limit [] n = some n
scan limit (c ∷ s) n =
    let m = n * 10 + (c - b'0') in
    let rest = scan limit s m in
    if is_ascii_digit c then (if ltb m limit then rest else none) else none

-- behind a sign there must be a digit
after_sign : ℕ → Bytes → Option ℕ
after_sign limit [] = none
after_sign limit (c ∷ s) = scan limit (c ∷ s) 0

-- `str::parse` at an unsigned integer type with the given number of values: one or more digits,
-- and a plus sign may stand before them.
unfoldable pub parse_uint : ℕ → Bytes → Option ℕ
unfolding scan after_sign
parse_uint limit [] = none
parse_uint limit (c ∷ s) = if c == b'+' then after_sign limit s else scan limit (c ∷ s) 0

-- The number that digits spell behind `n`.
abbrev pub value : ℕ → Bytes → ℕ
value n [] = n
value n (c ∷ s) = value (n * 10 + (c - b'0')) s

le-value : (n : ℕ) (s : Bytes) → n ≤ value n s
le-value n [] = omega arith
le-value n (c ∷ s) = omega (arith, le-value (n * 10 + (c - b'0')) s)

scan-value :
    (limit : ℕ) (s : Bytes) (n : ℕ)
    → All IsDigit s
    → value n s < limit
    → scan limit s n ≡ some (value n s)
unfolding scan
scan-value limit [] n h fits = refl
scan-value limit (c ∷ s) n (hc, hs) fits =
    let m = n * 10 + (c - b'0') in ground (arith, scan-value limit s m hs fits, le-value m s)

pub parse_uint-value :
    (limit : ℕ) (s : Bytes)
    → s ≢ []
    → All IsDigit s
    → value 0 s < limit
    → parse_uint limit s ≡ some (value 0 s)
unfolding parse_uint
parse_uint-value limit [] h _ _ = absurd (h refl)
parse_uint-value limit (c ∷ s) h (hc, hs) fits =
    ground (arith, scan-value limit (c ∷ s) 0 (hc, hs) fits)

pub digits-All : (f n : ℕ) (out : Bytes) → All IsDigit out → All IsDigit (digits f n out)
unfolding digits
digits-All zero n out h = h
digits-All (suc f) n out h =
    ground (arith, digits-All f (n / 10) ((b'0' + n % 10) ∷ out) (omega arith, h))

pub value-digits : (f n : ℕ) (out : Bytes) → n ≤ f → value 0 (digits f n out) ≡ value n out
unfolding digits
value-digits zero n out h = ground arith
value-digits (suc f) n out h = ground (arith, value-digits f (n / 10) ((b'0' + n % 10) ∷ out))

digits-ne-nil : (f n : ℕ) (out : Bytes) → out ≢ [] → digits f n out ≢ []
unfolding digits
digits-ne-nil zero n out h = h
digits-ne-nil (suc f) n out h =
    ground (arith, digits-ne-nil f (n / 10) ((b'0' + n % 10) ∷ out) (cons-ne-nil _ _))

digits_pos : (f n : ℕ) (out : Bytes) → 0 < n → n ≤ f → digits f n out ≢ []
unfolding digits
digits_pos zero n out h k = absurd (omega arith)
digits_pos (suc f) n out h k =
    ground (arith, digits-ne-nil f (n / 10) ((b'0' + n % 10) ∷ out) (cons-ne-nil _ _))

-- A print is one or more digits, and spells its number.
pub to_string_shape :
    (n : ℕ) → (to_string n ≢ []) × All IsDigit (to_string n) × (value 0 (to_string n) ≡ n)
unfolding to_string
to_string_shape n = elim (Bool-cases (n == 0)) [
  | inl z ↦ rw z (cons-ne-nil _ _, omega arith, ground arith)
  | inr nz ↦ rw nz (
    digits_pos n n [] (ground arith) (omega arith),
    digits-All n n [] tt,
    value-digits n n [] (omega arith),
  )
]

pub parse_uint-to_string : (limit n : ℕ) → n < limit → parse_uint limit (to_string n) ≡ some n
parse_uint-to_string limit n h =
    let (some_digit, all_digits, exact) = to_string_shape n in
    rw exact at (parse_uint-value limit (to_string n) some_digit all_digits (rw exact h))

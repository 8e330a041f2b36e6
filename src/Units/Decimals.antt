-- ===== src/Units/Decimals.antt =====
-- Digits on both sides of a point, as `parse_near_decimal` reads them.
use mathlib.Core.List.{cons-ne-nil}
use native.Mathlib.Nat.{pow-le-pow_right, pow-succ', mul-le-mul_right, mul_assoc}
use near_kit_rs.Prelude.{
  ℕ, zero, suc, ◌+◌, ◌-◌, ◌*◌, ◌^◌, ◌≤◌, ◌<◌, ◌≡◌, ◌≢◌, refl, sym, ap, false, Bool-cases, inl, inr,
  none, some, [], ◌∷◌, Bytes, All, length, take, ok, ltb, IsDigit, value, parse_uint-value,
  split_once, arith,
}
use near_kit_rs.Amount.Defs.{u128_max_plus_one, point, parse_whole}
use near_kit_rs.Units.Defs.{slice_to, decimal_str, is_continuation}

pub no_points : (s : Bytes) → All IsDigit s → All (λ c. c ≢ point) s
no_points [] h = tt
no_points (c ∷ s) ((lo, hi), hs) = (λ e. omega arith, no_points s hs)

pub split_once-none : (s : Bytes) → All IsDigit s → split_once point s ≡ none
unfolding split_once
split_once-none [] h = refl
split_once-none (c ∷ s) (h, hs) = ground (arith, split_once-none s hs)

not_continuation : (c : ℕ) → IsDigit c → is_continuation c ≡ false
not_continuation c h = ground arith

slice_to-take : (n : ℕ) (s : Bytes) → All IsDigit s → n ≤ length s → slice_to n s ≡ some (take n s)
unfolding slice_to
slice_to-take zero [] h k = refl
slice_to-take zero (c ∷ s) (h, hs) k = rw (not_continuation c h) refl
slice_to-take (suc n) [] h k = absurd (omega arith)
slice_to-take (suc n) (c ∷ s) (h, hs) k = rw (slice_to-take n s hs (omega arith)) refl

take-all : (n : ℕ) (s : Bytes) → length s ≤ n → take n s ≡ s
take-all zero [] h = refl
take-all zero (c ∷ s) h = absurd (omega arith)
take-all (suc n) [] h = refl
take-all (suc n) (c ∷ s) h = ap (c ∷◌) (take-all n s (omega arith))

length-take : (n : ℕ) (s : Bytes) → length (take n s) ≤ n
length-take zero s = omega arith
length-take (suc n) [] = omega arith
length-take (suc n) (c ∷ s) = omega (arith, length-take n s)

pub take-IsDigit : (n : ℕ) (s : Bytes) → All IsDigit s → All IsDigit (take n s)
take-IsDigit zero s h = tt
take-IsDigit (suc n) [] h = tt
take-IsDigit (suc n) (c ∷ s) (h, hs) = (h, take-IsDigit n s hs)

pub decimal_str-take : (s : Bytes) → All IsDigit s → decimal_str s ≡ some (take 24 s)
unfolding decimal_str
decimal_str-take s h = elim (Bool-cases (ltb 24 (length s))) [
  | inl long ↦ rw (long) (slice_to-take 24 s h (ground arith))
  | inr short ↦ rw (short) (ap some (sym (take-all 24 s (ground arith))))
]

value-lt : (n : ℕ) (s : Bytes) → All IsDigit s → value n s < (n + 1) * 10 ^ length s
value-lt n [] h = omega arith
value-lt n (c ∷ s) ((lo, hi), hs) =
    let tenfold : 10 ^ suc (length s) ≡ 10 * 10 ^ length s = pow-succ' 10 (length s) in
    let next = value-lt (n * 10 + (c - b'0')) s hs in
    let step : n * 10 + (c - b'0') + 1 ≤ (n + 1) * 10 = omega arith in
    let more = mul-le-mul_right (10 ^ length s) step in
    rw (tenfold, ← mul_assoc (n + 1) 10 (10 ^ length s)) (omega arith)

pub parse_whole_lem :
    (ds : Bytes) → All IsDigit ds → value 0 ds < 2 ^ 128 → parse_whole ds ≡ ok (value 0 ds)
unfolding parse_whole
parse_whole_lem [] h fits = refl
parse_whole_lem (c ∷ s) h fits =
    rw (parse_uint-value u128_max_plus_one (c ∷ s) (cons-ne-nil _ _) h fits) refl

pub decimals-lt : (fs : Bytes) → All IsDigit fs → value 0 (take 24 fs) < 2 ^ 128
decimals-lt fs h =
    let small = value-lt 0 (take 24 fs) (take-IsDigit 24 fs h) in
    let high : 10 ^ length (take 24 fs) ≤ 10 ^ 24 =
      pow-le-pow_right (omega arith) {i = length (take 24 fs)} {j = 24} (length-take 24 fs) in
    omega arith

-- ===== src/Amount/Arithmetic.antt =====
-- The checked and saturating arithmetic of tokens/types.rs.
use mathlib.Core.Bool.{false≢true}
use near_kit_rs.Prelude.{
  ℕ, ◌+◌, ◌-◌, ◌^◌, ◌<◌, ◌≡◌, ◌↔◌, refl, ap, sym, ◌∙◌, Bool, true, false, not, Option, none, some,
  bytes_eq, eq_of_bytes_eq, bytes_eq_refl, ltb, if◌then◌else◌, arith, Bool-cases, inl, inr,
}
use near_kit_rs.Amount.Defs.{FtAmount, checked, with_raw, same_token, checked_add, checked_sub}

same_token_iff :
    (a b : FtAmount) → (same_token a b ≡ true) ↔ ((a.decimals ≡ b.decimals) × (a.symbol ≡ b.symbol))
same_token_iff a b = elim (Bool-cases (bytes_eq a.symbol b.symbol)) [
  | inl y ↦
      let symbols = eq_of_bytes_eq a.symbol b.symbol y in
      (λ h. (ground arith, symbols), λ (h, _). ground arith)
  | inr n ↦ (
    λ h. ground arith,
    λ (h, k). absurd (false≢true (sym n ∙ ap (bytes_eq a.symbol) (sym k) ∙ bytes_eq_refl a.symbol)),
  )
]

given :
    (t : Bool) (a c : FtAmount) (o : Option ℕ)
    → (if not t then none else with_raw a o) ≡ some c
    → (t ≡ true) × (o ≡ some c.raw) × (c.decimals ≡ a.decimals) × (c.symbol ≡ a.symbol)
given true a c (some raw) h =
    let e : record { raw = raw; decimals = a.decimals; symbol = a.symbol } ≡ c = cc in
    (refl, ap (λ x. some x.raw) e, ap (λ x. x.decimals) (sym e), ap (λ x. x.symbol) (sym e))
given true a c none h = cc
given false a c o h = cc

checked_inv : (n r : ℕ) → checked n ≡ some r → (r ≡ n) × (n < 2 ^ 128)
checked_inv n r h = ground arith

-- For two amounts below 2 ^ 128, a checked sum that is given is their sum, in range and of the same
-- token, and subtracting the second amount gives back the first.
pub checked_sub-checked_add :
    (a b c : FtAmount)
    → a.raw < 2 ^ 128
    → b.raw < 2 ^ 128
    → checked_add a b ≡ some c
    → (c.raw ≡ a.raw + b.raw)
      × (c.raw < 2 ^ 128)
      × (c.decimals ≡ b.decimals)
      × (c.symbol ≡ b.symbol)
      × (checked_sub c b ≡ some a)
unfolding checked_add checked_sub
checked_sub-checked_add a b c low high e =
    let (same, sum, decimals, symbol) = given (same_token a b) a c (checked (a.raw + b.raw)) e in
    let (same_decimals, same_symbol) = (same_token_iff a b).0 same in
    let (raw, fits) = checked_inv (a.raw + b.raw) c.raw sum in
    let again = (same_token_iff c b).1 (decimals ∙ same_decimals, symbol ∙ same_symbol) in
    let enough : ltb c.raw b.raw ≡ false = ground arith in
    let left : c.raw - b.raw ≡ a.raw = omega arith in
    (
      raw,
      omega arith,
      decimals ∙ same_decimals,
      symbol ∙ same_symbol,
      rw (again, enough, left, decimals, symbol) refl,
    )

-- ===== src/Prelude/Outcome.antt =====
-- Rust's `Result`, with its error first, and `Option`'s and `Result`'s small methods.
use mathlib.Core.Path.{◌≡◌, refl}
use mathlib.Core.Logic.{◌⊎◌, inl, inr}
use mathlib.Core.Option.{Option, none, some}

pub data Result {ℓ} (E : Type 0) (A : Type ℓ) : Type ℓ where
  err : (failure : E) → Result E A
  ok : (value : A) → Result E A

module _ {ℓ κ} {E : Type 0} {A : Type ℓ} {B : Type κ} where
  infixl 5 ◌>>=◌
  -- `?`: the rest of the function runs on the value, and an error is returned as it is.
  abbrev pub ◌>>=◌ : Result E A → (A → Result E B) → Result E B
  err failure >>= rest = err failure
  ok value >>= rest = rest value

  -- Inversion of a chain that succeeds.
  pub >>=-eq-ok :
      (first : Result E A) (rest : A → Result E B) {result : B}
      → (first >>= rest) ≡ ok result
      → (value : A) × (first ≡ ok value) × (rest value ≡ ok result)
  >>=-eq-ok (err failure) rest succeeds = cc
  >>=-eq-ok (ok value) rest succeeds = (value, refl, succeeds)

  -- A property of every successful result of a chain, from the same of what follows each first
  -- value.
  pub >>=-ensures {ι} :
      (P : B → Type ι) (first : Result E A) (rest : A → Result E B)
      → ((value : A) → first ≡ ok value → (result : B) → rest value ≡ ok result → P result)
      → (result : B) → (first >>= rest) ≡ ok result
      → P result
  >>=-ensures P (err failure) rest each result succeeds = cc
  >>=-ensures P (ok value) rest each result succeeds = each value refl result succeeds

module _ {ℓ} {E : Type 0} {A : Type ℓ} where
  abbrev pub map_err : {F : Type 0} → (E → F) → Result E A → Result F A
  map_err f (err failure) = err (f failure)
  map_err f (ok value) = ok value

  abbrev pub ok_or : Option A → E → Result E A
  ok_or none failure = err failure
  ok_or (some value) failure = ok value

  pub Result-cases : (r : Result E A) → ((a : A) × (r ≡ ok a)) ⊎ ((e : E) × (r ≡ err e))
  Result-cases (err failure) = inr (failure, refl)
  Result-cases (ok value) = inl (value, refl)

-- `and_then` of `Option`, and `?` on one.
infixl 5 ◌>>?◌
abbrev pub ◌>>?◌ {ℓ κ} : {X : Type ℓ} {Y : Type κ} → Option X → (X → Option Y) → Option Y
none >>? f = none
some x >>? f = f x

-- ===== src/Borsh/Laws.antt =====
-- Round trips are closed under fields, conversions and fixed arrays.
use mathlib.Core.Path.{subst}
use near_kit_rs.Prelude.{
  >>=-eq-ok, Result, ◌>>=◌, err, ok, ℕ, zero, suc, ◌/◌, ◌≡◌, refl, [], ◌∷◌, ◌++◌, append_assoc,
  append-nil, Bytes, length, arith, Bool, true, false, if◌then◌else◌, ap,
}
use near_kit_rs.Borsh.Defs.{
  Reader, IoError, Codec, RoundTrips, ◌⊗◌, convert, from_slice, read_exact, to_le_bytes,
}

module _ {ℓ κ} {A : Type ℓ} {B : Type κ} where
  pub ⊗-RoundTrips :
      (c : Codec A) (d : Codec B) {a : A} {b : B}
      → RoundTrips c a
      → RoundTrips d b
      → RoundTrips (c ⊗ d) (a, b)
  ⊗-RoundTrips c d {a} {b} h k rest = rw (append_assoc, h (d.put b ++ rest), k rest)

  pub convert-RoundTrips :
      (to : A → B) (from : B → A) (c : Codec A) (b : B)
      → to (from b) ≡ b
      → RoundTrips c (from b)
      → RoundTrips (convert to from c) b
  convert-RoundTrips to from c b e h rest = rw (h rest, e)

pub from_slice-put {ℓ} :
    {A : Type ℓ} (c : Codec A) (a : A) → RoundTrips c a → from_slice c (c.put a) ≡ ok a
unfolding from_slice
from_slice-put c a h = rw (← append-nil (c.put a)) (rw (h []))

-- Reading a fixed array takes exactly the bytes that were written.
pub read_exact-append :
    (xs rest : Bytes) (n : ℕ) → length xs ≡ n → read_exact n (xs ++ rest) ≡ ok (xs, rest)
unfolding read_exact
read_exact-append [] rest zero h = refl
read_exact-append [] rest (suc n) h = absurd (omega arith)
read_exact-append (x ∷ xs) rest zero h = absurd (omega arith)
read_exact-append (x ∷ xs) rest (suc n) h = rw (read_exact-append xs rest n (omega arith))

pub length-to_le_bytes : (w n : ℕ) → length (to_le_bytes w n) ≡ w
unfolding to_le_bytes
length-to_le_bytes zero n = refl
length-to_le_bytes (suc w) n = ap suc (length-to_le_bytes w (n / 256))

-- Whatever a reader returns has the property.
abbrev pub Reads {ℓ κ} : {A : Type ℓ} → (A → Type κ) → Reader A → Type (ℓ ⊔ κ)
Reads {A} P g = (r : Bytes) (a : A) (rest : Bytes) → g r ≡ ok (a, rest) → P a

module _ {ℓ κ} {A : Type ℓ} {B : Type κ} where
  -- A reader that goes on with what was read.
  pub bind-Reads {ι} :
      (P : B → Type ι) (m : Result IoError (A × Bytes)) (f : A → Reader B)
      → ((a : A) (r : Bytes) (b : B) (rest : Bytes) → m ≡ ok (a, r) → f a r ≡ ok (b, rest) → P b)
      → (b : B) (rest : Bytes) → (m >>= λ p. f p.0 p.1) ≡ ok (b, rest)
      → P b
  bind-Reads P m f h b rest e =
      let ((a, r), first, then_) = >>=-eq-ok m (λ p. f p.0 p.1) e in h a r b rest first then_

  pub ⊗-Reads {ι μ} :
      (P : A → Type ι) (Q : B → Type μ) (g : Reader A) (h : Reader B)
      → Reads P g
      → Reads Q h
      → Reads {A = A × B}
          (λ p. P p.0 × Q p.1)
          (λ r. (do (a, r') ← g r; (b, r'') ← h r'; ok ((a, b), r'')))
  ⊗-Reads P Q g h gP hQ r (a, b) rest e =
      let ((a', r'), first, e') = >>=-eq-ok (g r) _ e in
      let ((b', r''), second, e'') = >>=-eq-ok (h r') _ e' in
      let same_a : a' ≡ a = cc in
      let same_b : b' ≡ b = cc in
      (subst P same_a (gP r a' r' first), subst Q same_b (hQ r' b' r'' second))

  pub convert-Reads {ι} :
      (P : B → Type ι) (to : A → B) (g : Reader A)
      → Reads (λ a. P (to a)) g
      → Reads P (λ r. (do (a, r') ← g r; ok (to a, r')))
  convert-Reads P to g h r b rest e =
      let ((a, r'), first, e') = >>=-eq-ok (g r) _ e in
      let same : to a ≡ b = cc in subst P same (h r a r' first)

-- The same of one result: every value it can hold has the property.
abbrev pub Returns {ℓ κ} : {A : Type ℓ} → (A → Type κ) → Result IoError (A × Bytes) → Type (ℓ ⊔ κ)
Returns {A} P m = (a : A) (rest : Bytes) → m ≡ ok (a, rest) → P a

module _ {ℓ κ} {A : Type ℓ} (P : A → Type κ) where
  pub if-Returns :
      (t : Bool) (m n : Result IoError (A × Bytes))
      → (t ≡ true → Returns P m)
      → (t ≡ false → Returns P n)
      → Returns P (if t then m else n)
  if-Returns true m n h k = h refl
  if-Returns false m n h k = k refl

  pub ok-Returns : (a : A) (r : Bytes) → P a → Returns P (ok (a, r))
  ok-Returns a r h a' rest e = let same : a ≡ a' = cc in subst P same h

  pub err-Returns : (x : IoError) → Returns P (err x)
  err-Returns x a rest e = cc

  -- A value made from one that was read.
  pub map-Returns {ι μ} :
      {B : Type ι} (Q : B → Type μ) (m : Result IoError (B × Bytes)) (f : B → A)
      → Returns Q m
      → ((x : B) → Q x → P (f x))
      → Returns P (m >>= λ p. ok (f p.0, p.1))
  map-Returns Q (ok (x, r)) f h k = ok-Returns (f x) r (k x (h x r refl))
  map-Returns Q (err x) f h k = err-Returns x

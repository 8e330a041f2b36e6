-- ===== src/Amount/Padding.antt =====
-- The methods of text that tokens/types.rs uses to print and parse decimals: padding with zeros,
-- trimming and splitting. Whitespace is that of ASCII.
use near_kit_rs.Prelude.{
  ℕ, zero, suc, ◌-◌, ◌≤◌, ◌≡◌, refl, sym, ap, ◌∙◌, Bool, true, false, ◌&&◌, ◌||◌, Bool-cases, inl,
  inr, ◌≢◌, List, [], ◌∷◌, ◌++◌, Bytes, All, length, ◌==◌, leb, if◌then◌else◌, IsDigit, value,
  arith,
}

abbrev pub is_whitespace : ℕ → Bool
is_whitespace c = c == 32 || (leb 9 c && leb c 13)

unfoldable pub trim_start_matches : (ℕ → Bool) → Bytes → Bytes
trim_start_matches p [] = []
trim_start_matches p (c ∷ s) = let rest = trim_start_matches p s in if p c then rest else c ∷ s

is_empty : Bytes → Bool
is_empty [] = true
is_empty (_ ∷ _) = false

unfoldable pub trim_end_matches : (ℕ → Bool) → Bytes → Bytes
unfolding is_empty
trim_end_matches p [] = []
trim_end_matches p (c ∷ s) =
    let rest = trim_end_matches p s in if is_empty rest && p c then [] else c ∷ rest

unfoldable pub trim : Bytes → Bytes
unfolding trim_start_matches trim_end_matches
trim s = trim_end_matches is_whitespace (trim_start_matches is_whitespace s)

onto_first : ℕ → List Bytes → List Bytes
onto_first c [] = (c ∷ []) ∷ []
onto_first c (part ∷ parts) = (c ∷ part) ∷ parts

-- `split` at one ASCII byte.
unfoldable pub split : ℕ → Bytes → List Bytes
unfolding onto_first
split sep [] = [] ∷ []
split sep (c ∷ s) = let rest = split sep s in if c == sep then [] ∷ rest else onto_first c rest

abbrev pub zeros : ℕ → Bytes
zeros zero = []
zeros (suc n) = b'0' ∷ zeros n

-- `{:0>width$}` and `{:0<width$}`
abbrev pub pad_start : (width : ℕ) → Bytes → Bytes
pad_start width s = zeros (width - length s) ++ s

abbrev pub pad_end : (width : ℕ) → Bytes → Bytes
pad_end width s = s ++ zeros (width - length s)

abbrev pub is_zero_digit : ℕ → Bool
is_zero_digit c = c == b'0'

suc_sub : (n m : ℕ) → suc n - suc m ≡ n - m
suc_sub n m = omega arith

sub_zero : (n : ℕ) → n - 0 ≡ n
sub_zero n = omega arith

suc_sub_one : (n : ℕ) → suc n - 1 ≡ n - 0
suc_sub_one n = omega arith

cong_cons : {c d : ℕ} {s t : Bytes} → c ≡ d → s ≡ t → c ∷ s ≡ d ∷ t
cong_cons h k = cc

-- Padding puts back the zeros that were trimmed.
pub pad_end-trim_end_matches :
    (s : Bytes) → pad_end (length s) (trim_end_matches is_zero_digit s) ≡ s
unfolding trim_end_matches
pad_end-trim_end_matches [] = refl
pad_end-trim_end_matches (c ∷ s) =
    go c s (trim_end_matches is_zero_digit s) (pad_end-trim_end_matches s)
  where
    go :
        (c : ℕ) (s rest : Bytes)
        → pad_end (length s) rest ≡ s
        → pad_end (suc (length s)) (if is_empty rest && is_zero_digit c then [] else c ∷ rest)
          ≡ c ∷ s
    go c s [] h = elim (Bool-cases (c == b'0')) [
      | inl y ↦
          let zero_digit : c ≡ b'0' = ground arith in
          rw (y, sub_zero (suc (length s)))
            (cong_cons (sym zero_digit) (ap zeros (sym (sub_zero (length s))) ∙ h))
      | inr n ↦ rw (n, suc_sub_one (length s)) (ap (c ∷◌) h)
    ]
    go c s (x ∷ rest) h = rw (suc_sub (length s) (suc (length rest))) (ap (c ∷◌) h)

pub length-zeros : (n : ℕ) → length (zeros n) ≡ n
length-zeros zero = refl
length-zeros (suc n) = ap suc (length-zeros n)

pub zeros-All : (n : ℕ) (s : Bytes) → All IsDigit s → All IsDigit (zeros n ++ s)
zeros-All zero s h = h
zeros-All (suc n) s h = ((omega arith, omega arith), zeros-All n s h)

pub value-zeros : (n : ℕ) (s : Bytes) → value 0 (zeros n ++ s) ≡ value 0 s
value-zeros zero s = refl
value-zeros (suc n) s = value-zeros n s

pub trim_end_matches-All :
    (p : ℕ → Bool) (s : Bytes) → All IsDigit s → All IsDigit (trim_end_matches p s)
unfolding trim_end_matches
trim_end_matches-All p [] h = tt
trim_end_matches-All p (c ∷ s) (h, hs) =
    elim (Bool-cases (is_empty (trim_end_matches p s) && p c)) [
      | inl y ↦ rw (y) tt
      | inr n ↦ rw (n) (h, trim_end_matches-All p s hs)
    ]

pub length-trim_end_matches : (p : ℕ → Bool) (s : Bytes) → length (trim_end_matches p s) ≤ length s
unfolding trim_end_matches
length-trim_end_matches p [] = omega arith
length-trim_end_matches p (c ∷ s) =
    let shorter = length-trim_end_matches p s in
    elim (Bool-cases (is_empty (trim_end_matches p s) && p c)) [
      | inl y ↦ rw (y) (omega arith)
      | inr n ↦ rw (n) (omega arith)
    ]

-- No whitespace to trim, and no separator to split at.
abbrev pub IsPrinted : ℕ → Type 0
IsPrinted c = is_whitespace c ≡ false

pub trim-eq : (s : Bytes) → All IsPrinted s → trim s ≡ s
unfolding trim
trim-eq s h = rw (start s h) (end s h)
  where
    start : (s : Bytes) → All IsPrinted s → trim_start_matches is_whitespace s ≡ s
    start [] h = refl
    start (c ∷ s) (h, hs) = rw (h) refl

    end : (s : Bytes) → All IsPrinted s → trim_end_matches is_whitespace s ≡ s
    end [] h = refl
    end (c ∷ s) (h, hs) = rw (end s hs, h) (both (is_empty s) c s)
      where
        both : (t : Bool) (c : ℕ) (s : Bytes) → (if t && false then [] else c ∷ s) ≡ c ∷ s
        both true c s = refl
        both false c s = refl

not_empty :
    (c : ℕ) (s : Bytes) (e : ℕ) (t : Bytes)
    → (if is_empty (s ++ e ∷ t) && is_whitespace c then [] else c ∷ (s ++ e ∷ t)) ≡ c ∷ (s ++ e ∷ t)
unfolding is_empty
not_empty c [] e t = refl
not_empty c (x ∷ s) e t = refl

pub trim_end_append :
    (s : Bytes) (e : ℕ) (t : Bytes)
    → trim_end_matches is_whitespace (e ∷ t) ≡ e ∷ t
    → trim_end_matches is_whitespace (s ++ e ∷ t) ≡ s ++ e ∷ t
unfolding trim_end_matches
trim_end_append [] e t h = h
trim_end_append (c ∷ s) e t h = rw (trim_end_append s e t h) (not_empty c s e t)

-- Between a first character and an end that are kept, nothing is trimmed.
pub trim-cons :
    (c : ℕ) (s : Bytes)
    → IsPrinted c
    → trim_end_matches is_whitespace (c ∷ s) ≡ c ∷ s
    → trim (c ∷ s) ≡ c ∷ s
unfolding trim trim_start_matches
trim-cons c s h k = rw (h) k

pub trim-append :
    (s : Bytes) (e : ℕ) (t : Bytes)
    → s ≢ []
    → All IsPrinted s
    → trim_end_matches is_whitespace (e ∷ t) ≡ e ∷ t
    → trim (s ++ e ∷ t) ≡ s ++ e ∷ t
trim-append [] e t some_start h k = absurd (some_start refl)
trim-append (c ∷ s) e t some_start (h, _) k =
    trim-cons c (s ++ e ∷ t) h (trim_end_append (c ∷ s) e t k)

pub split-none : (sep : ℕ) (s : Bytes) → All (λ c. (c == sep) ≡ false) s → split sep s ≡ s ∷ []
unfolding split
split-none sep [] h = refl
split-none sep (c ∷ s) (h, hs) = rw (h, split-none sep s hs) refl

pub split-append :
    (sep : ℕ) (s t : Bytes)
    → All (λ c. (c == sep) ≡ false) s
    → (sep == sep) ≡ true
    → split sep (s ++ sep ∷ t) ≡ s ∷ split sep t
unfolding split
split-append sep [] t h e = rw (e) refl
split-append sep (c ∷ s) t (h, hs) e = rw (h, split-append sep s t hs e) refl

-- ===== src/Key/PathLaws.antt =====
-- Paths of key derivation as they are written, and as they are parsed.
use near_kit_rs.Prelude.{
  ℕ, ◌+◌, ◌^◌, ◌<◌, ◌≡◌, ◌≢◌, refl, sym, ap, ◌∙◌, Bool, true, false, none, List, [], ◌∷◌, ◌++◌, map,
  Bytes, All, codes, ◌==◌, ok, strip_prefix, strip_suffix, strip_suffix-append, strip_suffix_end,
  IsDigit, value, parse_uint-value, append_assoc, append-nil, leb, arith,
}
use near_kit_rs.Amount.Padding.{split, split-append, split-none}
use near_kit_rs.Amount.RoundTrip.{All-append}
use near_kit_rs.Key.Path.{
  hardened_bit, init_last, number_of, all_digits, is_number, numbered, segment, collect, or_whole,
  of_body, without_prefix, parse_hd_path,
}

pub data Marker : Type 0 where
  apostrophe letter : Marker

-- A component: the digits of its number, and its marker.
pub data Component : Type 0 where
  component : (digits : Bytes) → Marker → Component

abbrev pub mark : Marker → ℕ
mark apostrophe = 39
mark letter = b'H'

abbrev pub text : Component → Bytes
text (component digits m) = digits ++ mark m ∷ []

abbrev pub index : Component → ℕ
index (component digits m) = value 0 digits + 2 ^ 31

abbrev pub IsComponent : Component → Type 0
IsComponent (component digits m) = (digits ≢ []) × All IsDigit digits × (value 0 digits < 2 ^ 31)

-- The components with slashes between them.
abbrev pub joined : Component → List Component → Bytes
joined p [] = text p
joined p (q ∷ rest) = text p ++ b'/' ∷ joined q rest

-- What may stand before the first component, and after the last one.
pub data Opening : Type 0 where
  relative absolute master : Opening

abbrev pub opening : Opening → Bytes
opening relative = []
opening absolute = codes "/"
opening master = codes "m/"

abbrev pub closing : (slash : Bool) → Bytes
closing true = codes "/"
closing false = []

init_last-append : (c : ℕ) (s : Bytes) (m : ℕ) → init_last c (s ++ m ∷ []) ≡ (c ∷ s, m)
unfolding init_last
init_last-append c [] m = refl
init_last-append c (d ∷ s) m = rw (init_last-append d s m) refl

all_digits-true : (ds : Bytes) → All IsDigit ds → all_digits ds ≡ true
unfolding all_digits
all_digits-true [] h = refl
all_digits-true (c ∷ ds) ((low, high), hs) = ground (arith, all_digits-true ds hs)

marked : (m : Marker) (seg front : Bytes) → number_of seg front (mark m) ≡ (front, true)
unfolding number_of
marked apostrophe seg front = refl
marked letter seg front = refl

numbered-digits :
    (seg ds : Bytes)
    → ds ≢ []
    → All IsDigit ds
    → value 0 ds < 2 ^ 31
    → numbered seg ds true ≡ ok (value 0 ds + 2 ^ 31)
unfolding numbered is_number
numbered-digits seg [] some_digit digits small = absurd (some_digit refl)
numbered-digits seg (c ∷ ds) some_digit digits small =
    let below : leb hardened_bit (value 0 (c ∷ ds)) ≡ false = ground arith in
    rw
      (
        all_digits-true (c ∷ ds) digits,
        parse_uint-value (2 ^ 32) (c ∷ ds) some_digit digits (omega arith),
        below,
      )
      refl

segment-text : (p : Component) → IsComponent p → segment (text p) ≡ ok (index p)
unfolding segment
segment-text (component [] m) (some_digit, _, _) = absurd (some_digit refl)
segment-text (component (c ∷ ds) m) (some_digit, digits, small) =
    rw (init_last-append c ds (mark m), marked m (c ∷ ds ++ mark m ∷ []) (c ∷ ds))
      (numbered-digits (c ∷ ds ++ mark m ∷ []) (c ∷ ds) some_digit digits small)

not_slash : (ds : Bytes) → All IsDigit ds → All (λ c. (c == b'/') ≡ false) ds
not_slash [] h = tt
not_slash (c ∷ ds) ((low, high), hs) = (ground arith, not_slash ds hs)

text-not_slash : (p : Component) → IsComponent p → All (λ c. (c == b'/') ≡ false) (text p)
text-not_slash (component ds apostrophe) (_, digits, _) =
    All-append (λ c. (c == b'/') ≡ false) ds (39 ∷ []) (not_slash ds digits) (refl, tt)
text-not_slash (component ds letter) (_, digits, _) =
    All-append (λ c. (c == b'/') ≡ false) ds (b'H' ∷ []) (not_slash ds digits) (refl, tt)

collect-joined :
    (p : Component) (ps : List Component)
    → IsComponent p
    → All IsComponent ps
    → collect (split b'/' (joined p ps)) ≡ ok (map index (p ∷ ps))
unfolding collect
collect-joined p [] h hs = rw (split-none b'/' (text p) (text-not_slash p h), segment-text p h) refl
collect-joined p (q ∷ ps) h (k, ks) =
    rw
      (
        split-append b'/' (text p) (joined q ps) (text-not_slash p h) refl,
        segment-text p h,
        collect-joined q ps k ks,
      )
      refl

-- The joined components start with a digit, and end with a marker.
joined-start :
    (p : Component) (ps : List Component)
    → IsComponent p
    → (c : ℕ) × (s : Bytes) × (joined p ps ≡ c ∷ s) × IsDigit c
joined-start (component [] m) ps (some_digit, _, _) = absurd (some_digit refl)
joined-start (component (c ∷ ds) m) [] (_, (digit, _), _) = (c, ds ++ mark m ∷ [], refl, digit)
joined-start (component (c ∷ ds) m) (q ∷ ps) (_, (digit, _), _) =
    (c, (ds ++ mark m ∷ []) ++ b'/' ∷ joined q ps, refl, digit)

joined-end :
    (p : Component) (ps : List Component)
    → (front : Bytes) × (m : Marker) × (joined p ps ≡ front ++ mark m ∷ [])
joined-end (component ds m) [] = (ds, m, refl)
joined-end p (q ∷ ps) =
    let (front, m, e) = joined-end q ps in
    (
      text p ++ b'/' ∷ front,
      m,
      ap (λ s. text p ++ b'/' ∷ s) e ∙ sym (append_assoc (text p) (b'/' ∷ front) (mark m ∷ [])),
    )

prefix_kept :
    (prefix c : ℕ) (s : Bytes)
    → (prefix == c) ≡ false
    → without_prefix (prefix ∷ []) (c ∷ s) ≡ c ∷ s
unfolding strip_prefix
prefix_kept prefix c s h = rw (h) refl

without_opening :
    (o : Opening) (t : Bytes) (c : ℕ) (s : Bytes)
    → t ≡ c ∷ s
    → IsDigit c
    → without_prefix (codes "/") (without_prefix (codes "m") (opening o ++ t)) ≡ t
unfolding strip_prefix
without_opening relative t c s e (low, high) =
    let no_m : (b'm' == c) ≡ false = ground arith in
    let no_slash : (b'/' == c) ≡ false = ground arith in
    ap (λ u. without_prefix (codes "/") (without_prefix (codes "m") u)) e
    ∙ ap (without_prefix (codes "/")) (prefix_kept b'm' c s no_m)
    ∙ prefix_kept b'/' c s no_slash
    ∙ sym e
without_opening absolute t c s e digit = refl
without_opening master t c s e digit = refl

no_closing : (front : Bytes) (m : Marker) → strip_suffix (codes "/") (front ++ mark m ∷ []) ≡ none
unfolding strip_prefix
no_closing front apostrophe = strip_suffix_end (codes "/") front (39 ∷ [])
no_closing front letter = strip_suffix_end (codes "/") front (b'H' ∷ [])

without_closing :
    (slash : Bool) (p : Component) (ps : List Component)
    → or_whole
        (joined p ps ++ closing slash)
        (strip_suffix (codes "/") (joined p ps ++ closing slash))
      ≡ joined p ps
without_closing true p ps = rw (strip_suffix-append (joined p ps) (codes "/")) refl
without_closing false p ps =
    let (front, m, e) = joined-end p ps in rw (append-nil (joined p ps), e, no_closing front m) refl

of_body-joined : (t : Bytes) (c : ℕ) (s : Bytes) → t ≡ c ∷ s → of_body t ≡ collect (split b'/' t)
unfolding of_body
of_body-joined t c s e = rw (e) refl

-- A path of one or more components, each of digits for a number below 2 ^ 31 and a marker `'` or
-- `H`, with slashes between them, after `m/`, `/` or nothing and with or without a slash at the
-- end, is parsed as the numbers with the hardened bit added.
pub parse_hd_path-joined :
    (o : Opening) (slash : Bool) (p : Component) (ps : List Component)
    → IsComponent p
    → All IsComponent ps
    → parse_hd_path (opening o ++ (joined p ps ++ closing slash)) ≡ ok (map index (p ∷ ps))
unfolding parse_hd_path
parse_hd_path-joined o slash p ps h hs =
    let (c, s, e, digit) = joined-start p ps h in
    let start = ap (λ t. t ++ closing slash) e in
    ap (λ body. of_body (or_whole body (strip_suffix (codes "/") body)))
      (without_opening o (joined p ps ++ closing slash) c (s ++ closing slash) start digit)
    ∙ ap of_body (without_closing slash p ps)
    ∙ of_body-joined (joined p ps) c s e
    ∙ collect-joined p ps h hs

-- ===== src/Key/Path.antt =====
-- types/hd.rs: `parse_hd_path`, the paths of key derivation.
use near_kit_rs.Prelude.{
  ℕ, ◌+◌, ◌^◌, Bool, true, false, ◌&&◌, Option, none, some, List, [], ◌∷◌, Bytes, codes, leb, ◌==◌,
  ◌||◌, not, if◌then◌else◌, Result, ok, err, ◌>>=◌, ok_or, strip_prefix, strip_suffix,
  is_ascii_digit, parse_uint,
}
use near_kit_rs.Amount.Padding.{split}

-- `HARDENED`
abbrev pub hardened_bit : ℕ
hardened_bit = 2 ^ 31

pub data HdPathError : Type 0 where
  empty_segment : HdPathError
  invalid_index index_out_of_range not_hardened : Bytes → HdPathError

-- A text of at least one byte without its last byte, and that byte.
unfoldable pub init_last : (first : ℕ) → Bytes → Bytes × ℕ
init_last c [] = ([], c)
init_last c (d ∷ s) = let (front, last) = init_last d s in (c ∷ front, last)

abbrev pub is_marker : ℕ → Bool
is_marker c = c == 39 || c == b'H'

-- The number and whether a marker follows it.
unfoldable pub number_of : (seg : Bytes) (front : Bytes) (last : ℕ) → Bytes × Bool
number_of seg front last = if is_marker last then (front, true) else (seg, false)

unfoldable pub all_digits : Bytes → Bool
all_digits [] = true
all_digits (c ∷ s) = is_ascii_digit c && all_digits s

unfoldable pub is_number : Bytes → Bool
unfolding all_digits
is_number [] = false
is_number (c ∷ s) = all_digits (c ∷ s)

-- `idx | HARDENED`, where `idx` is below the bit.
abbrev pub checked_index : (seg : Bytes) (hardened : Bool) (index : ℕ) → Result HdPathError ℕ
checked_index seg hardened index =
    if leb hardened_bit index
    then err (index_out_of_range seg)
    else if not hardened
    then err (not_hardened seg)
    else ok (index + hardened_bit)

unfoldable pub numbered : (seg num_str : Bytes) (hardened : Bool) → Result HdPathError ℕ
unfolding is_number parse_uint
numbered seg num_str hardened =
    if not (is_number num_str)
    then err (invalid_index seg)
    else ok_or (parse_uint (2 ^ 32) num_str) (index_out_of_range seg) >>= checked_index seg hardened

unfoldable pub segment : Bytes → Result HdPathError ℕ
unfolding init_last number_of numbered
segment [] = err empty_segment
segment (c ∷ s) =
    let (front, last) = init_last c s in
    let (num_str, hardened) = number_of (c ∷ s) front last in numbered (c ∷ s) num_str hardened

-- `map` and `collect`: the first error, or all values.
unfoldable pub collect : List Bytes → Result HdPathError (List ℕ)
unfolding segment
collect [] = ok []
collect (seg ∷ segs) = segment seg >>= λ index. collect segs >>= λ indexes. ok (index ∷ indexes)

abbrev pub or_whole : Bytes → Option Bytes → Bytes
or_whole s none = s
or_whole s (some rest) = rest

unfoldable pub of_body : Bytes → Result HdPathError (List ℕ)
unfolding split collect
of_body [] = ok []
of_body (c ∷ s) = collect (split b'/' (c ∷ s))

abbrev pub without_prefix : Bytes → Bytes → Bytes
without_prefix prefix s = or_whole s (strip_prefix prefix s)

unfoldable pub parse_hd_path : Bytes → Result HdPathError (List ℕ)
unfolding strip_prefix strip_suffix of_body
parse_hd_path path =
    let body = without_prefix (codes "/") (without_prefix (codes "m") path) in
    of_body (or_whole body (strip_suffix (codes "/") body))

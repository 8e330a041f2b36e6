-- ===== src/Rpc/Quoted.antt =====
-- Rust's `Debug` form of a text, piece by piece, and what `parse_debug_str` reads in it.
use near_kit_rs.Prelude.{
  ℕ, ◌≡◌, refl, ap, sym, ◌∙◌, ◌≢◌, some, List, [], ◌∷◌, ◌++◌, Bytes, All, append_assoc, append-nil,
  strip_prefix, ◌==◌, arith, false,
}
use near_kit_rs.Rpc.DebugStr.{
  from_str_radix, from_u32, utf8, unicode, escaped, step, then_go, pushed, parse_from,
  parse_debug_str, hex, character, quote, backslash, closing,
}

-- A piece of a literal: a character as it is, an escape, or a character by its number.
pub data Piece : Type 0 where
  plain : ℕ → Piece
  newline carriage_return tab nul : Piece
  other_escape : ℕ → Piece
  numbered : (digits : Bytes) (n : ℕ) → Piece

abbrev pub text : Piece → Bytes
text (plain c) = c ∷ []
text newline = backslash ∷ b'n' ∷ []
text carriage_return = backslash ∷ b'r' ∷ []
text tab = backslash ∷ b't' ∷ []
text nul = backslash ∷ b'0' ∷ []
text (other_escape c) = backslash ∷ c ∷ []
text (numbered digits n) = backslash ∷ b'u' ∷ b'{' ∷ digits ++ closing ∷ []

abbrev pub meant : Piece → Bytes
meant (plain c) = c ∷ []
meant newline = 10 ∷ []
meant carriage_return = 13 ∷ []
meant tab = 9 ∷ []
meant nul = 0 ∷ []
meant (other_escape c) = c ∷ []
meant (numbered digits n) = utf8 n

abbrev pub IsPiece : Piece → Type 0
IsPiece (plain c) = (c ≢ quote) × (c ≢ backslash)
IsPiece (other_escape c) = (c ≢ b'n') × (c ≢ b'r') × (c ≢ b't') × (c ≢ b'0') × (c ≢ b'u')
IsPiece (numbered digits n) =
    All (λ c. c ≢ closing) digits × (from_str_radix digits ≡ some n) × (from_u32 n ≡ some n)
IsPiece _ = Unit

-- All the pieces of a literal.
abbrev pub texts : List Piece → Bytes
texts [] = []
texts (p ∷ ps) = text p ++ texts ps

abbrev pub meanings : List Piece → Bytes
meanings [] = []
meanings (p ∷ ps) = meant p ++ meanings ps

abbrev pub quoted : List Piece → Bytes
quoted ps = quote ∷ texts ps ++ quote ∷ []

in_braces :
    (digits out before s : Bytes)
    → All (λ c. c ≢ closing) digits
    → parse_from (hex before) out (digits ++ closing ∷ s)
      ≡ then_go (pushed out (unicode (before ++ digits))) (λ m o. parse_from m o s)
unfolding parse_from step
in_braces [] out before s h =
    ap (λ ds. then_go (pushed out (unicode ds)) (λ m o. parse_from m o s)) (sym (append-nil before))
in_braces (c ∷ digits) out before s (h, hs) =
    let other : (c == closing) ≡ false = ground arith in
    rw (other) (
      in_braces digits out (before ++ c ∷ []) s hs
      ∙ ap (λ ds. then_go (pushed out (unicode ds)) (λ m o. parse_from m o s))
          (append_assoc before (c ∷ []) digits))

unicode-digits :
    (digits : Bytes) (n : ℕ)
    → from_str_radix digits ≡ some n
    → from_u32 n ≡ some n
    → unicode digits ≡ some (utf8 n)
unfolding unicode
unicode-digits digits n k l = rw (k, l) refl

piece_lem :
    (p : Piece) (out s : Bytes)
    → IsPiece p
    → parse_from character out (text p ++ s) ≡ parse_from character (out ++ meant p) s
unfolding parse_from step escaped
piece_lem (plain c) out s (h, k) = ground arith
piece_lem newline out s h = refl
piece_lem carriage_return out s h = refl
piece_lem tab out s h = refl
piece_lem nul out s h = refl
piece_lem (other_escape c) out s (n, r, t, z, u) = ground arith
piece_lem (numbered digits n) out s (h, k, l) =
    ap (λ t. parse_from (hex []) out t) (append_assoc digits (closing ∷ []) s)
    ∙ in_braces digits out [] s h
    ∙ ap (λ c. then_go (pushed out c) (λ m o. parse_from m o s)) (unicode-digits digits n k l)

pieces_lem :
    (ps : List Piece) (out rest : Bytes)
    → All IsPiece ps
    → parse_from character out (texts ps ++ quote ∷ rest) ≡ some (out ++ meanings ps)
unfolding parse_from step
pieces_lem [] out rest h = ap some (sym (append-nil out))
pieces_lem (p ∷ ps) out rest (h, hs) =
    ap (λ t. parse_from character out t) (append_assoc (text p) (texts ps) (quote ∷ rest))
    ∙ piece_lem p out (texts ps ++ quote ∷ rest) h
    ∙ pieces_lem ps (out ++ meant p) rest hs
    ∙ ap some (append_assoc out (meant p) (meanings ps))

-- A text literal in Rust's `Debug` form, made of characters other than quotes and backslashes, of
-- escapes, and of valid characters by their hexadecimal numbers, is read back as the text that it
-- stands for, whatever follows the literal.
pub parse_debug_str-quoted :
    (ps : List Piece) (rest : Bytes)
    → All IsPiece ps
    → parse_debug_str (quoted ps ++ rest) ≡ some (meanings ps)
unfolding parse_debug_str strip_prefix
parse_debug_str-quoted ps rest h =
    ap (λ t. parse_from character [] t) (append_assoc (texts ps) (quote ∷ []) rest)
    ∙ pieces_lem ps [] rest h

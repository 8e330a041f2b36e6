-- ===== src/Rpc/DebugStr.antt =====
-- client/rpc.rs: `parse_debug_str`, which reads a string literal in Rust's `Debug` form. Text is its
-- UTF-8 bytes: the characters that the loop looks for are single bytes, and the bytes of others pass
-- through one by one.
use near_kit_rs.Prelude.{
  ℕ, ◌+◌, ◌-◌, ◌*◌, ◌/◌, ◌%◌, ◌^◌, ◌&&◌, ◌||◌, Option, none, some, [], ◌∷◌, ◌++◌, Bytes, ltb, leb,
  ◌==◌, if◌then◌else◌, strip_prefix, ◌>>?◌,
}

-- `char::to_digit(16)`
unfoldable pub hex_digit : ℕ → Option ℕ
hex_digit c =
    if leb b'0' c && leb c b'9'
    then some (c - b'0')
    else if leb b'a' c && leb c b'f'
    then some (c - b'a' + 10)
    else if leb b'A' c && leb c b'F'
    then some (c - b'A' + 10)
    else none

abbrev pub checked_u32 : ℕ → Option ℕ
checked_u32 n = if ltb n (2 ^ 32) then some n else none

unfoldable pub hex_digits : (n : ℕ) → Bytes → Option ℕ
unfolding hex_digit
hex_digits n [] = some n
hex_digits n (c ∷ s) = (hex_digit c >>? λ d. checked_u32 (n * 16 + d)) >>? λ m. hex_digits m s

hex_number : Bytes → Option ℕ
unfolding hex_digits
hex_number [] = none
hex_number (c ∷ s) = hex_digits 0 (c ∷ s)

-- `u32::from_str_radix(…, 16)`, which takes a sign `+`.
unfoldable pub from_str_radix : Bytes → Option ℕ
unfolding hex_number
from_str_radix [] = none
from_str_radix (c ∷ s) = if c == b'+' then hex_number s else hex_number (c ∷ s)

-- `char::from_u32`: no surrogates, and at most `10FFFF`.
abbrev pub from_u32 : ℕ → Option ℕ
from_u32 n = if ltb n 0xD800 || (leb 0xE000 n && ltb n 0x110000) then some n else none

abbrev pub continuation : ℕ → ℕ
continuation n = 128 + n % 64

-- The UTF-8 form of a character.
unfoldable pub utf8 : ℕ → Bytes
utf8 n =
    if ltb n 128
    then n ∷ []
    else if ltb n 2048
    then (192 + n / 64) ∷ continuation n ∷ []
    else if ltb n 65536
    then (224 + n / 4096) ∷ continuation (n / 64) ∷ continuation n ∷ []
    else (240 + n / 262144) ∷ continuation (n / 4096) ∷ continuation (n / 64) ∷ continuation n ∷ []

-- Where the loop stands: before a character, after a backslash, after `\u`, and inside `\u{`.
pub data Mode : Type 0 where
  character escape brace : Mode
  hex : (digits : Bytes) → Mode

pub data Step : Type 0 where
  complete : Bytes → Step
  failed : Step
  continue : Mode → (out : Bytes) → Step

abbrev pub pushed : Bytes → Option Bytes → Step
pushed out none = failed
pushed out (some c) = continue character (out ++ c)

-- The character that the digits of `\u{…}` are for.
unfoldable pub unicode : Bytes → Option Bytes
unfolding from_str_radix utf8
unicode digits = (from_str_radix digits >>? from_u32) >>? λ n. some (utf8 n)

unfoldable pub escaped : ℕ → Bytes → Step
escaped c out =
    if c == b'n'
    then continue character (out ++ 10 ∷ [])
    else if c == b'r'
    then continue character (out ++ 13 ∷ [])
    else if c == b't'
    then continue character (out ++ 9 ∷ [])
    else if c == b'0'
    then continue character (out ++ 0 ∷ [])
    else if c == b'u'
    then continue brace out
    else continue character (out ++ c ∷ [])

abbrev pub quote : ℕ
quote = 34

abbrev pub backslash : ℕ
backslash = 92

abbrev pub closing : ℕ
closing = 125

unfoldable pub step : Mode → (out : Bytes) → (c : ℕ) → Step
unfolding escaped unicode
step character out c =
    if c == quote
    then complete out
    else if c == backslash
    then continue escape out
    else continue character (out ++ c ∷ [])
step escape out c = escaped c out
step brace out c = if c == 123 then continue (hex []) out else failed
step (hex digits) out c =
    if c == closing then pushed out (unicode digits) else continue (hex (digits ++ c ∷ [])) out

abbrev pub then_go : Step → (Mode → Bytes → Option Bytes) → Option Bytes
then_go (complete out) go = some out
then_go failed go = none
then_go (continue mode out) go = go mode out

-- The loop; `take_while` inside it is the mode `hex`.
unfoldable pub parse_from : Mode → (out : Bytes) → Bytes → Option Bytes
unfolding step
parse_from mode out [] = none
parse_from mode out (c ∷ s) =
    then_go (step mode out c) (λ next_mode next_out. parse_from next_mode next_out s)

unfoldable pub parse_debug_str : Bytes → Option Bytes
unfolding parse_from strip_prefix
parse_debug_str input = strip_prefix (quote ∷ []) input >>? λ s. parse_from character [] s

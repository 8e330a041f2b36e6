-- ===== src/Borsh/Format.antt =====
-- A borsh implementation by the published format, which shows that the laws can be met. Account
-- IDs are checked by their length, and texts are ASCII.
use native.Mathlib.Nat.{pow-suc}
use near_kit_rs.Prelude.{
  ok, err, ◌>>=◌, >>=-eq-ok, ℕ, zero, suc, ◌+◌, ◌*◌, ◌/◌, ◌^◌, ◌≤◌, ◌<◌, ◌≡◌, refl, Bool, true,
  ◌&&◌, Option, none, some, List, [], ◌∷◌, ◌++◌, append_assoc, Bytes, length, All, arith, leb, ltb,
  if◌then◌else◌,
}
use near_kit_rs.Borsh.Defs.{
  Reader, Codec, RoundTrips, OptionAll, Borsh, IsBorsh, read_exact, to_le_bytes, unexpected_eof,
  invalid_data, vec, option,
}
use near_kit_rs.Borsh.Laws.{read_exact-append}

unfoldable pub read_le : ℕ → Reader ℕ
read_le zero r = ok (0, r)
read_le (suc w) [] = err unexpected_eof
read_le (suc w) (x ∷ r) = do (n, r') ← read_le w r; ok (x + 256 * n, r')

read_le-to_le_bytes :
    (w n : ℕ) (rest : Bytes) → n < 256 ^ w → read_le w (to_le_bytes w n ++ rest) ≡ ok (n, rest)
unfolding read_le to_le_bytes
read_le-to_le_bytes zero n rest h = ground arith
read_le-to_le_bytes (suc w) n rest h =
    rw (read_le-to_le_bytes w (n / 256) rest (omega (arith, pow-suc 256 w))) (ground arith)

unfoldable pub read_many : {A : Type 0} → Reader A → ℕ → Reader (List A)
read_many g zero r = ok ([], r)
read_many g (suc n) r = do (x, r') ← g r; (xs, r'') ← read_many g n r'; ok (x ∷ xs, r'')

unfoldable pub write_many : {A : Type 0} → (A → Bytes) → List A → Bytes
write_many f [] = []
write_many f (x ∷ xs) = f x ++ write_many f xs

read_many-write_many :
    {A : Type 0} (c : Codec A) (xs : List A) (rest : Bytes)
    → All (RoundTrips c) xs
    → read_many c.get (length xs) (write_many c.put xs ++ rest) ≡ ok (xs, rest)
unfolding read_many write_many
read_many-write_many c [] rest h = refl
read_many-write_many c (x ∷ xs) rest (h, hs) =
    rw (append_assoc, h _, read_many-write_many c xs rest hs)

read_many-All :
    {A : Type 0} (P : A → Type 0) (g : Reader A)
    → ((r : Bytes) (a : A) (rest : Bytes) → g r ≡ ok (a, rest) → P a)
    → (n : ℕ) (r : Bytes) (xs : List A) (rest : Bytes) → read_many g n r ≡ ok (xs, rest)
    → All P xs
unfolding read_many
read_many-All {A} P g h zero r xs rest e = let nothing : xs ≡ [] = cc in rw nothing tt
read_many-All {A} P g h (suc n) r xs rest e =
    let ((x, r'), first, e') = >>=-eq-ok (g r) _ e in
    let ((ys, r''), more, last) = >>=-eq-ok (read_many g n r') _ e' in
    let shape : xs ≡ x ∷ ys = cc in rw shape (h r x r' first, read_many-All P g h n r' ys r'' more)

unfoldable pub write_string : Bytes → Bytes
write_string s = to_le_bytes 4 (length s) ++ s

unfoldable pub read_string : (Bytes → Bool) → Reader Bytes
read_string p r = do
  (n, r') ← read_le 4 r
  (s, r'') ← read_exact n r'
  if p s then ok (s, r'') else err invalid_data

string_round :
    (p : Bytes → Bool) (s : Bytes)
    → p s ≡ true
    → length s < 2 ^ 32
    → RoundTrips (record { put = write_string; get = read_string p }) s
unfolding write_string read_string
string_round p s h k rest = rw (
  append_assoc,
  read_le-to_le_bytes 4 (length s) (s ++ rest) k,
  read_exact-append s rest _ refl,
  h,
)

unfoldable pub write_option : {A : Type 0} → (A → Bytes) → Option A → Bytes
write_option f none = 0 ∷ []
write_option f (some a) = 1 ∷ f a

-- the reader behind the tag
some_or_none : {A : Type 0} → Reader A → ℕ → Reader (Option A)
some_or_none g zero r = ok (none, r)
some_or_none g (suc zero) r = do (a, r') ← g r; ok (some a, r')
some_or_none g (suc (suc n)) r = err invalid_data

unfoldable pub read_option : {A : Type 0} → Reader A → Reader (Option A)
unfolding some_or_none
read_option g [] = err unexpected_eof
read_option g (t ∷ r) = some_or_none g t r

unfoldable pub read_byte : Reader ℕ
read_byte [] = err unexpected_eof
read_byte (x ∷ r) = ok (x, r)

abbrev le_codec : ℕ → Codec ℕ
le_codec w = record { put = to_le_bytes w; get = read_le w }

abbrev string_codec : (Bytes → Bool) → Codec Bytes
string_codec p = record { put = write_string; get = read_string p }

abbrev any_bytes : Bytes → Bool
any_bytes s = true

abbrev is_ascii : Bytes → Bool
is_ascii [] = true
is_ascii (c ∷ s) = ltb c 128 && is_ascii s

abbrev has_account_length : Bytes → Bool
has_account_length s = leb 2 (length s) && leb (length s) 64

abbrev hash_codec : Codec Bytes
hash_codec = record { put = λ s. s; get = read_exact 32 }

abbrev pub format : Borsh
format = record {
  u8 = record { put = λ n. n ∷ []; get = read_byte };
  u16 = le_codec 2;
  u64 = le_codec 8;
  u128 = le_codec 16;
  string = string_codec is_ascii;
  byte_vec = string_codec any_bytes;
  near_token = le_codec 16;
  gas = le_codec 8;
  account_id = string_codec has_account_length;
  is_account_id = has_account_length;
  is_utf8 = is_ascii;
  vec_put = λ f xs. to_le_bytes 4 (length xs) ++ write_many f xs;
  vec_get = λ g r. (do (n, r') ← read_le 4 r; read_many g n r');
  option_put = write_option;
  option_get = read_option;
  GlobalContractId = Bytes;
  IsGlobalContractId = λ s. length s ≡ 32;
  by_code_hash = λ hash. hash;
  by_account_id = λ account_id. account_id;
  global_contract_id = hash_codec;
  StateInit = Bytes;
  IsStateInit = λ s. length s ≡ 32;
  state_init = hash_codec;
}

option_round :
    {A : Type 0} (c : Codec A) (o : Option A)
    → OptionAll (RoundTrips c) o
    → RoundTrips (option format c) o
unfolding write_option read_option
option_round c none h rest = refl
option_round c (some a) h rest = rw (h rest)

vec_round :
    {A : Type 0} (c : Codec A) (xs : List A)
    → All (RoundTrips c) xs
    → length xs < 2 ^ 32
    → RoundTrips (vec format c) xs
vec_round c xs h k rest =
    rw (append_assoc, read_le-to_le_bytes 4 (length xs) _ k) (read_many-write_many c xs rest h)

vec_reads :
    {A : Type 0} (P : A → Type 0) (g : Reader A)
    → ((r : Bytes) (a : A) (rest : Bytes) → g r ≡ ok (a, rest) → P a)
    → (r : Bytes) (xs : List A) (rest : Bytes) → format.vec_get g r ≡ ok (xs, rest)
    → All P xs
vec_reads P g h r xs rest e =
    let ((n, r'), first, e') = >>=-eq-ok (read_le 4 r) _ e in read_many-All P g h n r' xs rest e'

account_length : (a : Bytes) → has_account_length a ≡ true → (2 ≤ length a) × (length a ≤ 64)
account_length a h = ground arith

pub format-IsBorsh : IsBorsh format
unfolding write_string read_byte
format-IsBorsh = record {
  u8_put = λ n h. refl;
  u8_get = λ n rest. refl;
  u16_round = λ n h rest. read_le-to_le_bytes 2 n rest h;
  u64_round = λ n h rest. read_le-to_le_bytes 8 n rest h;
  u128_round = λ n h rest. read_le-to_le_bytes 16 n rest h;
  string_round = string_round is_ascii;
  byte_vec_round = λ s h. string_round any_bytes s refl h;
  near_token_round = λ n h rest. read_le-to_le_bytes 16 n rest h;
  gas_round = λ n h rest. read_le-to_le_bytes 8 n rest h;
  account_id_put = λ a h. refl;
  account_id_length = account_length;
  account_id_round = λ a h. string_round has_account_length a h (omega (arith, account_length a h));
  vec_round = vec_round;
  vec_reads = vec_reads;
  option_round = option_round;
  global_contract_id_round = λ g h rest. read_exact-append g rest 32 h;
  state_init_round = λ s h rest. read_exact-append s rest 32 h;
}

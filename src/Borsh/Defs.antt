-- ===== src/Borsh/Defs.antt =====
-- `std::io`, codecs and their products, and the interface of the `borsh` crate.
use near_kit_rs.Prelude.{
  ℕ, zero, suc, ◌/◌, ◌%◌, ◌^◌, ◌≤◌, ◌<◌, ◌≡◌, Bool, true, Option, none, some, List, [], ◌∷◌, ◌++◌,
  Bytes, All, length, IsU16, IsU64, IsU128, Result, ok, err, ◌>>=◌,
}

-- `std::io::ErrorKind`, as far as it is used. `too_deep` is no Rust value: the model's bound on
-- nested calls ran out.
pub data IoError : Type 0 where
  unexpected_eof invalid_data invalid_input too_deep : IoError

abbrev pub Io {ℓ} : Type ℓ → Type ℓ
Io A = Result IoError A

-- A reader is the bytes that are still to come.
abbrev pub Reader {ℓ} : Type ℓ → Type ℓ
Reader A = Bytes → Io (A × Bytes)

-- `Read::read_exact` into a buffer of the given length.
unfoldable pub read_exact : ℕ → Reader Bytes
read_exact zero r = ok ([], r)
read_exact (suc n) [] = err unexpected_eof
read_exact (suc n) (x ∷ r) = do (xs, r') ← read_exact n r; ok (x ∷ xs, r')

-- `to_le_bytes` of an unsigned integer of the given number of bytes.
unfoldable pub to_le_bytes : ℕ → ℕ → Bytes
to_le_bytes zero n = []
to_le_bytes (suc w) n = (n % 256) ∷ to_le_bytes w (n / 256)

-- `BorshSerialize::serialize` and `BorshDeserialize::deserialize_reader` of one type.
pub record Codec {ℓ} (A : Type ℓ) : Type ℓ where
  pub put : A → Bytes
  pub get : Reader A

-- What is written is read back, whatever bytes follow it.
abbrev pub RoundTrips {ℓ} : {A : Type ℓ} → Codec A → A → Type ℓ
RoundTrips c a = (rest : Bytes) → c.get (c.put a ++ rest) ≡ ok (a, rest)

-- Fields of a derived codec stand one behind the other, in the order of their declaration.
infixr 40 ◌⊗◌
abbrev pub ◌⊗◌ {ℓ κ} : {A : Type ℓ} {B : Type κ} → Codec A → Codec B → Codec (A × B)
c ⊗ d = record {
  put = λ p. c.put p.0 ++ d.put p.1;
  get = λ r. (do (a, r') ← c.get r; (b, r'') ← d.get r'; ok ((a, b), r''));
}

-- A codec of another type with the same parts.
abbrev pub convert {ℓ κ} : {A : Type ℓ} {B : Type κ} → (A → B) → (B → A) → Codec A → Codec B
convert to from c = record {
  put = λ b. c.put (from b);
  get = λ r. (do (a, r') ← c.get r; ok (to a, r'));
}

all_read {ℓ} : {A : Type ℓ} → A → Bytes → Io A
all_read a [] = ok a
all_read a (x ∷ rest) = err invalid_data

-- `borsh::from_slice`: a value, and nothing behind it.
unfoldable pub from_slice {ℓ} : {A : Type ℓ} → Codec A → Bytes → Io A
unfolding all_read
from_slice c bytes = do (a, rest) ← c.get bytes; all_read a rest

-- The crates `borsh`, `near-account-id`, `near-token`, `near-gas` and `near-global-contracts`.
-- Account IDs and strings are their bytes, amounts and gas their numbers.
pub record Borsh : Type 1 where
  pub u8 : Codec ℕ
  pub u16 : Codec ℕ
  pub u64 : Codec ℕ
  pub u128 : Codec ℕ
  pub string : Codec Bytes
  pub byte_vec : Codec Bytes
  pub near_token : Codec ℕ
  pub gas : Codec ℕ
  pub account_id : Codec Bytes
  pub is_account_id : Bytes → Bool
  pub is_utf8 : Bytes → Bool
  pub vec_put : {A : Type 0} → (A → Bytes) → List A → Bytes
  pub vec_get : {A : Type 0} → Reader A → Reader (List A)
  pub option_put : {A : Type 0} → (A → Bytes) → Option A → Bytes
  pub option_get : {A : Type 0} → Reader A → Reader (Option A)
  pub GlobalContractId : Type 0
  pub IsGlobalContractId : GlobalContractId → Type 0
  pub global_contract_id : Codec GlobalContractId
  -- Its variants: a contract by the hash of its code, or by its publisher.
  pub by_code_hash : Bytes → GlobalContractId
  pub by_account_id : Bytes → GlobalContractId
  pub StateInit : Type 0
  pub IsStateInit : StateInit → Type 0
  pub state_init : Codec StateInit

abbrev pub vec : (b : Borsh) {A : Type 0} → Codec A → Codec (List A)
vec b c = record { put = b.vec_put c.put; get = b.vec_get c.get }

abbrev pub option : (b : Borsh) {A : Type 0} → Codec A → Codec (Option A)
option b c = record { put = b.option_put c.put; get = b.option_get c.get }

abbrev pub OptionAll {ℓ κ} : {A : Type ℓ} → (A → Type κ) → Option A → Type κ
OptionAll P none = Unit
OptionAll P (some a) = P a

-- The documented behaviour of those crates: a `u8` is its byte, a length prefix is a little-endian
-- `u32`, an account ID is a string of 2 to 64 bytes, and every value is read back as written.
pub record IsBorsh (b : Borsh) : Type 1 where
  pub u8_put : (n : ℕ) → n < 256 → b.u8.put n ≡ n ∷ []
  pub u8_get : (n : ℕ) (rest : Bytes) → b.u8.get (n ∷ rest) ≡ ok (n, rest)
  pub u16_round : (n : ℕ) → IsU16 n → RoundTrips b.u16 n
  pub u64_round : (n : ℕ) → IsU64 n → RoundTrips b.u64 n
  pub u128_round : (n : ℕ) → IsU128 n → RoundTrips b.u128 n
  pub string_round : (s : Bytes) → b.is_utf8 s ≡ true → length s < 2 ^ 32 → RoundTrips b.string s
  pub byte_vec_round : (s : Bytes) → length s < 2 ^ 32 → RoundTrips b.byte_vec s
  pub near_token_round : (n : ℕ) → IsU128 n → RoundTrips b.near_token n
  pub gas_round : (n : ℕ) → IsU64 n → RoundTrips b.gas n
  pub account_id_put :
      (a : Bytes) → b.is_account_id a ≡ true → b.account_id.put a ≡ to_le_bytes 4 (length a) ++ a
  pub account_id_length : (a : Bytes) → b.is_account_id a ≡ true → (2 ≤ length a) × (length a ≤ 64)
  pub account_id_round : (a : Bytes) → b.is_account_id a ≡ true → RoundTrips b.account_id a
  pub vec_round :
      {A : Type 0} (c : Codec A) (xs : List A)
      → All (RoundTrips c) xs
      → length xs < 2 ^ 32
      → RoundTrips (vec b c) xs
  pub vec_reads :
      {A : Type 0} (P : A → Type 0) (g : Reader A)
      → ((r : Bytes) (a : A) (rest : Bytes) → g r ≡ ok (a, rest) → P a)
      → (r : Bytes) (xs : List A) (rest : Bytes) → b.vec_get g r ≡ ok (xs, rest)
      → All P xs
  pub option_round :
      {A : Type 0} (c : Codec A) (o : Option A)
      → OptionAll (RoundTrips c) o
      → RoundTrips (option b c) o
  pub global_contract_id_round :
      (g : b.GlobalContractId) → b.IsGlobalContractId g → RoundTrips b.global_contract_id g
  pub state_init_round : (s : b.StateInit) → b.IsStateInit s → RoundTrips b.state_init s

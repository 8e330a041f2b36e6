-- ===== src/Nep413/Defs.antt =====
-- The types of types/nep413.rs, the bytes that are signed, and the verification of a message. The
-- clock and the answer of the node are arguments.
use near_kit_rs.Prelude.{
  ℕ, ◌+◌, ◌-◌, ◌*◌, ◌/◌, ◌^◌, Bool, true, false, not, ◌&&◌, ◌||◌, Option, List, [], ◌∷◌, ◌++◌,
  Bytes, take, Result, ok, err, ltb, ◌==◌, if◌then◌else◌,
}
use near_kit_rs.Borsh.{Borsh, Codec, ◌⊗◌, option, read_exact, to_le_bytes}
use near_kit_rs.Key.{Crypto, PublicKey, Signature}
use near_kit_rs.Key.Verify.{verify}

abbrev pub nep413_tag : ℕ
nep413_tag = 2 ^ 31 + 413

-- `std::time::Duration`
pub record Duration : Type 0 where
  pub secs : ℕ
  pub nanos : ℕ

abbrev pub as_millis : Duration → ℕ
as_millis d = d.secs * 1000 + d.nanos / 1000000

abbrev pub duration_max : Duration
duration_max = record { secs = 2 ^ 64 - 1; nanos = 999999999 }

abbrev pub default_max_age : Duration
default_max_age = record { secs = 5 * 60; nanos = 0 }

pub record SignMessageParams : Type 0 where
  pub message : Bytes
  pub recipient : Bytes
  pub nonce : Bytes
  pub callback_url : Option Bytes
  pub state : Option Bytes

pub record SignedMessage : Type 0 where
  pub account_id : Bytes
  pub public_key : PublicKey
  pub signature : Signature
  pub state : Option Bytes

pub record AuthPayload : Type 0 where
  pub signed_message : SignedMessage
  pub nonce : Bytes
  pub message : Bytes
  pub recipient : Bytes
  pub callback_url : Option Bytes

unfoldable pub to_params : AuthPayload → SignMessageParams
to_params a = record {
  message = a.message;
  recipient = a.recipient;
  nonce = a.nonce;
  callback_url = a.callback_url;
  state = a.signed_message.state;
}

unfoldable pub from_signed : SignedMessage → SignMessageParams → AuthPayload
from_signed signed_message params = record {
  signed_message = signed_message;
  nonce = params.nonce;
  message = params.message;
  recipient = params.recipient;
  callback_url = params.callback_url;
}

pub data NonceValidation : Type 0 where
  timestamp : (max_age : Duration) → NonceValidation
  no_validation : NonceValidation

-- `NonceValidation::from(Duration)`
unfoldable pub from_duration : Duration → NonceValidation
from_duration max_age =
    if (max_age.secs == duration_max.secs) && (max_age.nanos == duration_max.nanos)
    then no_validation
    else timestamp max_age

pub record VerifyOptions : Type 0 where
  pub nonce_validation : NonceValidation
  pub require_full_access : Bool

abbrev pub default_options : VerifyOptions
default_options = record {
  nonce_validation = timestamp default_max_age;
  require_full_access = true;
}

from_be_bytes : ℕ → Bytes → ℕ
from_be_bytes acc [] = acc
from_be_bytes acc (x ∷ xs) = from_be_bytes (acc * 256 + x) xs

-- `u64::from_be_bytes` of the first 8 bytes of the nonce.
unfoldable pub extract_timestamp_from_nonce : Bytes → ℕ
unfolding from_be_bytes
extract_timestamp_from_nonce nonce = from_be_bytes 0 (take 8 nonce)

module _ (b : Borsh) (c : Crypto) where
  -- `Nep413Payload`. The source only writes it; the reader serves to show that no two are alike.
  unfoldable pub payload : Codec (Bytes × (Bytes × (Bytes × Option Bytes)))
  payload = b.string ⊗ record { put = λ xs. xs; get = read_exact 32 } ⊗ b.string ⊗ option b b.string

  -- The bytes that `serialize_message` hashes.
  unfoldable pub message_bytes : SignMessageParams → Bytes
  unfolding payload
  message_bytes params =
      to_le_bytes 4 nep413_tag
      ++ payload.put (params.message, (params.nonce, (params.recipient, params.callback_url)))

  unfoldable pub serialize_message : SignMessageParams → Bytes
  unfolding message_bytes
  serialize_message params = c.sha256 (message_bytes params)

  -- The check of the timestamp at the start of `verify_signature`. `saturating_sub` is `-`.
  unfoldable pub is_expired : NonceValidation → (now_ms : ℕ) → SignMessageParams → Bool
  is_expired (timestamp max_age) now_ms params =
      let timestamp_ms = extract_timestamp_from_nonce params.nonce in
      let age_ms = now_ms - timestamp_ms in
      ltb (as_millis max_age) age_ms || ltb now_ms timestamp_ms
  is_expired no_validation now_ms params = false

  unfoldable pub verify_signature :
      (now_ms : ℕ) → SignedMessage → SignMessageParams → NonceValidation → Bool
  unfolding is_expired serialize_message
  verify_signature now_ms signed params nonce_validation =
      if is_expired nonce_validation now_ms params
      then false
      else verify c signed.signature (serialize_message params) signed.public_key

-- `AccessKeyPermissionView` of types/rpc.rs.
pub data AccessKeyPermissionView : Type 0 where
  full_access : AccessKeyPermissionView
  function_call :
      (allowance : Option ℕ) (receiver_id : Bytes) (method_names : List Bytes)
      → AccessKeyPermissionView
  gas_key_function_call :
      (balance num_nonces : ℕ) (allowance : Option ℕ) (receiver_id : Bytes)
      (method_names : List Bytes)
      → AccessKeyPermissionView
  gas_key_full_access : (balance num_nonces : ℕ) → AccessKeyPermissionView

unfoldable pub is_full_access : AccessKeyPermissionView → Bool
is_full_access full_access = true
is_full_access _ = false

module _ {E : Type 0} where
  unfoldable pub holds_full_access : Result E AccessKeyPermissionView → Result E Bool
  unfolding is_full_access
  holds_full_access (ok permission) = if not (is_full_access permission) then ok false else ok true
  holds_full_access (err _) = ok false

module _ (b : Borsh) (c : Crypto) {E : Type 0} where
  -- The async `verify`, with what `view_access_key` returns for an account and a key.
  unfoldable pub verify_message :
      (now_ms : ℕ) (view_access_key : Bytes → PublicKey → Result E AccessKeyPermissionView)
      → SignedMessage
      → SignMessageParams
      → VerifyOptions
      → Result E Bool
  unfolding verify_signature holds_full_access
  verify_message now_ms view_access_key signed params options =
      if not (verify_signature b c now_ms signed params options.nonce_validation)
      then ok false
      else if options.require_full_access
      then holds_full_access (view_access_key signed.account_id signed.public_key)
      else ok true

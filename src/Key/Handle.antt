-- ===== src/Key/Handle.antt =====
-- `PublicKeyHandle`: how the chain refers to an access key.
use near_kit_rs.Prelude.{
  ◌≡◌, Bool, true, false, Option, none, some, ◌∷◌, ◌++◌, Bytes, codes, Result, ok, err, ◌>>=◌,
  map_err, if◌then◌else◌, ◌==◌, arith, length, bytes_eq, bytes_eq_refl, split_once,
  split_once-append, eq_of_bytes_eq, ap, ◌↔◌, ◌⊎◌, inl, inr,
}
use near_kit_rs.Key.Defs.{
  ParseKeyError, invalid_base58, invalid_length, KeyType, PublicKey, Crypto, IsCrypto, key_type,
  IsPublicKey, ml_dsa_65_hash_length,
}
use near_kit_rs.Key.Text.{
  colon, ml_dsa_65_hash_prefix, public_key_from_str, public_key_display,
  public_key_from_str-display, split_display,
}

pub data PublicKeyHandle : Type 0 where
  full : PublicKey → PublicKeyHandle
  ml_dsa65_hash : Bytes → PublicKeyHandle

abbrev pub IsHandle : Crypto → PublicKeyHandle → Type 0
IsHandle c (full k) = IsPublicKey c k
IsHandle c (ml_dsa65_hash bytes) = length bytes ≡ ml_dsa_65_hash_length

unfoldable pub full_pubkey : PublicKeyHandle → Option PublicKey
full_pubkey (full k) = some k
full_pubkey (ml_dsa65_hash _) = none

unfoldable pub handle_key_type : PublicKeyHandle → KeyType
unfolding key_type
handle_key_type (full k) = key_type k
handle_key_type (ml_dsa65_hash _) = KeyType.ml_dsa65

unfoldable pub is_ml_dsa65_hash : PublicKeyHandle → Bool
is_ml_dsa65_hash (full _) = false
is_ml_dsa65_hash (ml_dsa65_hash _) = true

abbrev pubkey_hash_domain : Bytes
pubkey_hash_domain = codes "near:ml-dsa-65-pubkey-hash:v1"

-- the derived `==` of `PublicKey`
unfoldable pub public_key_eq : PublicKey → PublicKey → Bool
unfolding bytes_eq
public_key_eq (PublicKey.ed25519 a) (PublicKey.ed25519 b) = bytes_eq a b
public_key_eq (PublicKey.secp256k1 a) (PublicKey.secp256k1 b) = bytes_eq a b
public_key_eq (PublicKey.ml_dsa65 a) (PublicKey.ml_dsa65 b) = bytes_eq a b
public_key_eq _ _ = false

-- the derived `==` of `PublicKeyHandle`
handle_eq : PublicKeyHandle → PublicKeyHandle → Bool
unfolding public_key_eq
handle_eq (full a) (full b) = public_key_eq a b
handle_eq (ml_dsa65_hash a) (ml_dsa65_hash b) = bytes_eq a b
handle_eq _ _ = false

same_handle : Option PublicKeyHandle → PublicKeyHandle → Bool
unfolding handle_eq
same_handle none h = false
same_handle (some g) h = handle_eq g h

module _ (c : Crypto) where
  unfoldable pub to_ml_dsa65_hash : PublicKey → Option PublicKeyHandle
  to_ml_dsa65_hash (PublicKey.ml_dsa65 bytes) =
      some (ml_dsa65_hash (c.sha3_256 (pubkey_hash_domain ++ bytes)))
  to_ml_dsa65_hash _ = none

  unfoldable pub refers_to : PublicKeyHandle → PublicKey → Bool
  unfolding public_key_eq to_ml_dsa65_hash same_handle
  refers_to (full k) key = public_key_eq k key
  refers_to (ml_dsa65_hash bytes) key = same_handle (to_ml_dsa65_hash key) (ml_dsa65_hash bytes)

  -- the arm of the `match` that reads a digest
  hash_from_str : Bytes → Result ParseKeyError PublicKeyHandle
  hash_from_str data_str = do
    decoded ← map_err invalid_base58 (c.bs58_decode data_str)
    if length decoded == ml_dsa_65_hash_length
        then ok (ml_dsa65_hash decoded)
        else err (invalid_length ml_dsa_65_hash_length (length decoded))

  -- the other arm: `s.parse().map(Self::Full)`
  full_from_str : Bytes → Result ParseKeyError PublicKeyHandle
  full_from_str s = do k ← public_key_from_str c s; ok (full k)

  split_from_str : Option (Bytes × Bytes) → Bytes → Result ParseKeyError PublicKeyHandle
  unfolding hash_from_str full_from_str bytes_eq
  split_from_str none s = full_from_str s
  split_from_str (some p) s =
      if bytes_eq p.0 ml_dsa_65_hash_prefix then hash_from_str p.1 else full_from_str s

  unfoldable pub handle_from_str : Bytes → Result ParseKeyError PublicKeyHandle
  unfolding split_from_str
  handle_from_str s = split_from_str (split_once colon s) s

  unfoldable pub handle_display : PublicKeyHandle → Bytes
  unfolding public_key_display
  handle_display (full k) = public_key_display c k
  handle_display (ml_dsa65_hash bytes) = ml_dsa_65_hash_prefix ++ colon ∷ c.bs58_encode bytes

split_hash :
    (s : Bytes)
    → split_once colon (ml_dsa_65_hash_prefix ++ colon ∷ s) ≡ some (ml_dsa_65_hash_prefix, s)
split_hash s = split_once-append colon ml_dsa_65_hash_prefix s (omega arith)

-- Given the laws of the key crates, every well-formed key handle, a full key or a hash, is parsed
-- back from its print.
pub handle_from_str-display :
    (c : Crypto)
    → IsCrypto c
    → (h : PublicKeyHandle) → IsHandle c h
    → handle_from_str c (handle_display c h) ≡ ok h
unfolding handle_from_str handle_display
handle_from_str-display c w (ml_dsa65_hash bytes) k =
    rw (split_hash (c.bs58_encode bytes), w.bs58_round bytes, k)
handle_from_str-display c w (full (PublicKey.ed25519 bytes)) k = rw (
  split_display KeyType.ed25519 (c.bs58_encode bytes),
  public_key_from_str-display c w (PublicKey.ed25519 bytes) k,
)
handle_from_str-display c w (full (PublicKey.secp256k1 bytes)) k = rw (
  split_display KeyType.secp256k1 (c.bs58_encode bytes),
  public_key_from_str-display c w (PublicKey.secp256k1 bytes) k,
)
handle_from_str-display c w (full (PublicKey.ml_dsa65 bytes)) k = rw (
  split_display KeyType.ml_dsa65 (c.bs58_encode bytes),
  public_key_from_str-display c w (PublicKey.ml_dsa65 bytes) k,
)

-- Parsing the print of a hash handle as a public key gives the error for hash handles.
pub public_key_from_str_hash :
    (c : Crypto) (bytes : Bytes)
    → public_key_from_str c (handle_display c (ml_dsa65_hash bytes))
      ≡ err ParseKeyError.ml_dsa65_hash_handle
unfolding public_key_from_str handle_display
public_key_from_str_hash c bytes = rw (split_hash (c.bs58_encode bytes))

pub public_key_eq_refl : (k : PublicKey) → public_key_eq k k ≡ true
unfolding public_key_eq
public_key_eq_refl (PublicKey.ed25519 bytes) = bytes_eq_refl bytes
public_key_eq_refl (PublicKey.secp256k1 bytes) = bytes_eq_refl bytes
public_key_eq_refl (PublicKey.ml_dsa65 bytes) = bytes_eq_refl bytes

pub eq_of_public_key_eq : (k j : PublicKey) → public_key_eq k j ≡ true → k ≡ j
unfolding public_key_eq
eq_of_public_key_eq (PublicKey.ed25519 a) (PublicKey.ed25519 b) h =
    ap PublicKey.ed25519 (eq_of_bytes_eq a b h)
eq_of_public_key_eq (PublicKey.secp256k1 a) (PublicKey.secp256k1 b) h =
    ap PublicKey.secp256k1 (eq_of_bytes_eq a b h)
eq_of_public_key_eq (PublicKey.ml_dsa65 a) (PublicKey.ml_dsa65 b) h =
    ap PublicKey.ml_dsa65 (eq_of_bytes_eq a b h)
eq_of_public_key_eq _ _ h = cc

handle_eq-eq : (g h : PublicKeyHandle) → handle_eq g h ≡ true → g ≡ h
unfolding handle_eq
handle_eq-eq (full a) (full b) e = ap full (eq_of_public_key_eq a b e)
handle_eq-eq (ml_dsa65_hash a) (ml_dsa65_hash b) e = ap ml_dsa65_hash (eq_of_bytes_eq a b e)
handle_eq-eq _ _ e = cc

handle_eq_refl : (h : PublicKeyHandle) → handle_eq h h ≡ true
unfolding handle_eq
handle_eq_refl (full a) = public_key_eq_refl a
handle_eq_refl (ml_dsa65_hash a) = bytes_eq_refl a

same_handle_iff :
    (o : Option PublicKeyHandle) (h : PublicKeyHandle) → (same_handle o h ≡ true) ↔ (o ≡ some h)
unfolding same_handle
same_handle_iff none h = (λ e. cc, λ e. cc)
same_handle_iff (some g) h =
    (λ e. ap some (handle_eq-eq g h e), λ e. let same : g ≡ h = cc in rw same (handle_eq_refl h))

hash_is_no_full : (c : Crypto) (k j : PublicKey) → to_ml_dsa65_hash c k ≡ some (full j) → ⊥
unfolding to_ml_dsa65_hash
hash_is_no_full c (PublicKey.ed25519 bytes) j e = cc
hash_is_no_full c (PublicKey.secp256k1 bytes) j e = cc
hash_is_no_full c (PublicKey.ml_dsa65 bytes) j e = cc

-- A handle refers to a key exactly when it is that key or the key's own hash handle.
pub refers_to_iff :
    (c : Crypto) (h : PublicKeyHandle) (k : PublicKey)
    → (refers_to c h k ≡ true) ↔ ((h ≡ full k) ⊎ (to_ml_dsa65_hash c k ≡ some h))
unfolding refers_to
refers_to_iff c (full j) k = (
  λ e. inl (ap full (eq_of_public_key_eq j k e)),
  λ where_from. elim where_from [
    | inl e ↦ let same : j ≡ k = cc in rw same (public_key_eq_refl k)
    | inr e ↦ absurd (hash_is_no_full c k j e)
  ],
)
refers_to_iff c (ml_dsa65_hash bytes) k =
    let same = same_handle_iff (to_ml_dsa65_hash c k) (ml_dsa65_hash bytes) in
    (λ e. inr (same.0 e), λ where_from. elim where_from [ inl e ↦ cc | inr e ↦ same.1 e ])

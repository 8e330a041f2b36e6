-- ===== src/Client/Nonces.antt =====
-- client/nonce_manager.rs: the cached nonces and `next`. The mutex makes each call one step, so
-- that the calls of all threads are one sequence.
use near_kit_rs.Prelude.{
  ℕ, ◌+◌, ◌%◌, ◌^◌, max, ◌≡◌, refl, Bool, true, false, ◌&&◌, Option, none, some, List, [], ◌∷◌,
  Bytes, bytes_eq, bytes_eq_refl, eq_of_bytes_eq, if◌then◌else◌, ap, Bool-cases, inl, inr, sym, ◌∙◌,
}
use near_kit_rs.Key.{PublicKey}
use near_kit_rs.Key.Handle.{public_key_eq, public_key_eq_refl, eq_of_public_key_eq}

-- The key of the map: the network, the account and the public key.
pub record NonceKey : Type 0 where
  pub network : Bytes
  pub account_id : Bytes
  pub public_key : PublicKey

-- The key's `==`.
unfoldable pub same_key : NonceKey → NonceKey → Bool
unfolding public_key_eq
same_key j k =
    bytes_eq j.network k.network
    && bytes_eq j.account_id k.account_id
    && public_key_eq j.public_key k.public_key

-- The map, each key at most once.
abbrev pub Nonces : Type 0
Nonces = List (NonceKey × ℕ)

unfoldable pub lookup : NonceKey → Nonces → Option ℕ
lookup k [] = none
lookup k ((j, n) ∷ m) = if same_key k j then some n else lookup k m

unfoldable pub insert : NonceKey → ℕ → Nonces → Nonces
insert k n [] = (k, n) ∷ []
insert k n ((j, x) ∷ m) = if same_key k j then (j, n) ∷ m else (j, x) ∷ insert k n m

-- `and_modify` of the entry that is there, or `or_insert`.
abbrev pub resolve : Option ℕ → ℕ → ℕ
resolve none blockchain_nonce = blockchain_nonce
resolve (some n) blockchain_nonce = max n blockchain_nonce

-- `NonceManager::next`. The `u64` wraps, as it does in a release build.
unfoldable pub next : Nonces → NonceKey → ℕ → Nonces × ℕ
unfolding lookup insert
next m k blockchain_nonce =
    let nonce = (resolve (lookup k m) blockchain_nonce + 1) % 2 ^ 64 in (insert k nonce m, nonce)

pub same_key_refl : (k : NonceKey) → same_key k k ≡ true
unfolding same_key
same_key_refl k =
    rw (bytes_eq_refl k.network, bytes_eq_refl k.account_id, public_key_eq_refl k.public_key)

and_parts : (x y z : Bool) → (x && y && z) ≡ true → (x ≡ true) × (y ≡ true) × (z ≡ true)
and_parts true true true h = (refl, refl, refl)
and_parts true true false h = cc
and_parts true false z h = cc
and_parts false y z h = cc

pub eq_of_same_key : (j k : NonceKey) → same_key j k ≡ true → j ≡ k
unfolding same_key
eq_of_same_key j k h =
    let (e, f, g) = and_parts _ _ _ h in
    let en = eq_of_bytes_eq j.network k.network e in
    let ea = eq_of_bytes_eq j.account_id k.account_id f in
    let ep = eq_of_public_key_eq j.public_key k.public_key g in cc

-- The key just inserted, and every other one.
pub lookup-insert : (k : NonceKey) (n : ℕ) (m : Nonces) → lookup k (insert k n m) ≡ some n
unfolding lookup insert
lookup-insert k n [] = rw (same_key_refl k)
lookup-insert k n ((j, x) ∷ m) = elim (Bool-cases (same_key k j)) [
  | inl y ↦ rw (y) (rw (y))
  | inr o ↦ rw (o) (rw (o, lookup-insert k n m))
]

pub lookup-insert_other :
    (j k : NonceKey) (n : ℕ) (m : Nonces)
    → same_key j k ≡ false
    → lookup j (insert k n m) ≡ lookup j m
unfolding lookup insert
lookup-insert_other j k n [] h = rw h
lookup-insert_other j k n ((i, x) ∷ m) h = elim (Bool-cases (same_key k i)) [
  | inl y ↦
      let other : same_key j i ≡ false = ap (same_key j) (sym (eq_of_same_key k i y)) ∙ h in
      rw (y, other)
  | inr o ↦ rw (o, lookup-insert_other j k n m h)
]

-- ===== src/Client/NonceOrder.antt =====
-- The nonces that the manager hands out for one key increase, whatever calls there are and in
-- whatever order the threads make them.
use mathlib.Core.Path.{subst}
use near_kit_rs.Prelude.{
  ℕ, ◌+◌, ◌^◌, ◌≤◌, ◌<◌, max, ◌≡◌, sym, ap, ◌∙◌, false, Bool-cases, inl, inr, Option, none, some,
  List, [], ◌∷◌, All, length, if◌then◌else◌, arith,
}
use near_kit_rs.Client.Nonces.{
  NonceKey, Nonces, same_key, eq_of_same_key, lookup, resolve, next, lookup-insert,
  lookup-insert_other,
}

-- One call of `next`, with the nonce that the chain reported for it.
pub record Call : Type 0 where
  pub key : NonceKey
  pub blockchain_nonce : ℕ

-- The nonces returned for one key, in the order of the calls.
unfoldable pub handed : NonceKey → Nonces → List Call → List ℕ
unfolding next
handed k m [] = []
handed k m (call ∷ calls) =
    let (m', nonce) = next m call.key call.blockchain_nonce in
    let rest = handed k m' calls in if same_key k call.key then nonce ∷ rest else rest

-- Each number is greater than the one before it, and the first than `lo`.
abbrev pub Ascends : ℕ → List ℕ → Type 0
Ascends lo [] = Unit
Ascends lo (x ∷ xs) = (lo < x) × Ascends x xs

abbrev pub cached : NonceKey → Nonces → ℕ
cached k m = resolve (lookup k m) 0

-- No cached nonce is above the bound.
abbrev pub Bounded : ℕ → Nonces → Type 0
Bounded bound m = (k : NonceKey) → cached k m ≤ bound

resolve_bounds :
    (o : Option ℕ) (n bound : ℕ)
    → resolve o 0 ≤ bound
    → n ≤ bound
    → (n ≤ resolve o n) × (resolve o 0 ≤ resolve o n) × (resolve o n ≤ bound)
resolve_bounds none n bound h k = (omega arith, omega arith, omega arith)
resolve_bounds (some x) n bound h k = (omega arith, omega arith, omega arith)

-- With cached and reported nonces at most a bound below 2 ^ 64 - 1, `next` returns more than the
-- nonce of the chain and the cached one, at most one above the bound, caches what it returned and
-- leaves every other key.
pub next_lem :
    (m : Nonces) (k : NonceKey) (blockchain_nonce bound : ℕ)
    → Bounded bound m
    → blockchain_nonce ≤ bound
    → bound + 1 < 2 ^ 64
    → (blockchain_nonce < (next m k blockchain_nonce).1)
      × (cached k m < (next m k blockchain_nonce).1)
      × ((next m k blockchain_nonce).1 ≤ bound + 1)
      × (lookup k (next m k blockchain_nonce).0 ≡ some (next m k blockchain_nonce).1)
      × ((j : NonceKey)
          → same_key j k ≡ false
          → lookup j (next m k blockchain_nonce).0 ≡ lookup j m)
unfolding next
next_lem m k n bound h low top =
    let (a, b, c) = resolve_bounds (lookup k m) n bound (h k) low in
    (
      omega arith,
      omega arith,
      omega arith,
      lookup-insert k _ m,
      λ j o. lookup-insert_other j k _ m o,
    )

pub next-Bounded :
    (m : Nonces) (k : NonceKey) (n bound : ℕ)
    → Bounded bound m
    → n ≤ bound
    → bound + 1 < 2 ^ 64
    → Bounded (bound + 1) (next m k n).0
next-Bounded m k n bound h low top j =
    let (_, _, small, here, others) = next_lem m k n bound h low top in
    elim (Bool-cases (same_key j k)) [
      | inl y ↦
          let e : lookup j (next m k n).0 ≡ some (next m k n).1 =
            ap (λ i. lookup i (next m k n).0) (eq_of_same_key j k y) ∙ here in
          rw (e) (small_max (next m k n).1 (bound + 1) small)
      | inr o ↦ let below = h j in rw (others j o) (omega arith)
    ]
  where
    small_max : (n b : ℕ) → n ≤ b → max n 0 ≤ b
    small_max n b h = omega arith

-- One call of `next` in front of nonces that ascend.
pub Ascends-next :
    (k call_key : NonceKey) (m : Nonces) (blockchain_nonce bound : ℕ) (later : List ℕ)
    → Bounded bound m
    → blockchain_nonce ≤ bound
    → bound + 1 < 2 ^ 64
    → Ascends (cached k (next m call_key blockchain_nonce).0) later
    → Ascends
        (cached k m)
        (if same_key k call_key then (next m call_key blockchain_nonce).1 ∷ later else later)
Ascends-next k call_key m p bound later h low top ascends =
    let m' : Nonces = (next m call_key p).0 in
    let n : ℕ = (next m call_key p).1 in
    let (_, above, _, here, others) = next_lem m call_key p bound h low top in
    elim (Bool-cases (same_key k call_key)) [
      | inl y ↦
          let e = eq_of_same_key k call_key y in
          let first = subst (λ i. cached i m < n) (sym e) above in
          let now : cached k m' ≡ n =
            ap (λ i. cached i m') e ∙ ap (λ o. resolve o 0) here ∙ max_zero n in
          rw (y) (first, subst (λ lo. Ascends lo later) now ascends)
      | inr o ↦ rw (o) (subst (λ l. Ascends (resolve l 0) later) (others k o) ascends)
    ]
  where
    max_zero : (n : ℕ) → max n 0 ≡ n
    max_zero n = omega arith

-- Whatever sequence of calls of `next` is made, with cached and reported nonces below a bound that
-- leaves room in a `u64` for the calls, the nonces handed out for one key ascend and start above
-- the cached one.
pub handed-Ascends :
    (k : NonceKey) (m : Nonces) (calls : List Call) (bound : ℕ)
    → Bounded bound m
    → All (λ c. c.blockchain_nonce ≤ bound) calls
    → bound + length calls < 2 ^ 64
    → Ascends (cached k m) (handed k m calls)
unfolding handed next
handed-Ascends k m [] bound h low top = tt
handed-Ascends k m (call ∷ calls) bound h (low, lows) top =
    Ascends-next k call.key m call.blockchain_nonce bound _ h low (omega arith) (
      handed-Ascends k (next m call.key call.blockchain_nonce).0 calls (bound + 1)
        (next-Bounded m call.key call.blockchain_nonce bound h low (omega arith))
        (weaken calls lows) (omega arith))
  where
    weaken :
        (calls : List Call)
        → All (λ c. c.blockchain_nonce ≤ bound) calls
        → All (λ c. c.blockchain_nonce ≤ bound + 1) calls
    weaken [] h = tt
    weaken (c ∷ cs) (h, hs) = (omega arith, weaken cs hs)

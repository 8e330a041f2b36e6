-- ===== src/Client/Signers.antt =====
-- client/signer.rs: the signer interface, the signer with one key and the rotating signer. A secret
-- key is an argument's value: the type `SecretKey`, its public key and what it signs.
use mathlib.Core.Path.{subst}
use native.Mathlib.Nat.{mod-add-mod, mod-eq_of_lt}
use near_kit_rs.Prelude.{
  ℕ, zero, suc, ◌+◌, ◌%◌, ◌^◌, ◌<◌, ◌≡◌, refl, sym, ap, ◌∙◌, Bool, true, false, Option, none, some,
  List, [], ◌∷◌, Bytes, All, map, length, Result, ok, err, bytes_eq, eq_of_bytes_eq, if◌then◌else◌,
  drop, ◌&&◌, arith,
}
use near_kit_rs.Key.{PublicKey, Signature}

-- A `SigningKey`: its public key, and what its backend answers for a message.
pub record SigningKey (E : Type 0) : Type 0 where
  pub public_key : PublicKey
  pub sign : Bytes → Result E Signature

-- The trait `Signer`: `key` and `public_key` over the state that the signer keeps.
pub record Signer (E S : Type 0) : Type 0 where
  pub account_id : Bytes
  pub key : S → SigningKey E × S
  pub public_key : S → PublicKey

-- Configuration errors of the constructors.
pub data ConfigError : Type 0 where
  no_keys different_accounts : ConfigError
  invalid_account_id : ConfigError

and_both : (x y : Bool) → (x && y) ≡ true → (x ≡ true) × (y ≡ true)
and_both true y h = (refl, h)
and_both false y h = cc

module _ (E : Type 0) where
  pub record InMemorySigner : Type 0 where
    pub account_id : Bytes
    pub secret_key : SigningKey E

  abbrev pub in_memory_signer : InMemorySigner → Signer E Unit
  in_memory_signer s = record {
    account_id = s.account_id;
    key = λ u. (s.secret_key, u);
    public_key = λ _. s.secret_key.public_key;
  }

  -- `RotatingSigner`: its first key, of which there always is one, and the others. Its counter is the
  -- state.
  pub record RotatingSigner : Type 0 where
    pub account_id : Bytes
    pub first : SigningKey E
    pub others : List (SigningKey E)

  abbrev pub keys : RotatingSigner → List (SigningKey E)
  keys s = s.first ∷ s.others

  -- Indexing of the keys; an index out of range, which Rust would panic on, reads the given one.
  abbrev pub get_or : SigningKey E → List (SigningKey E) → ℕ → SigningKey E
  get_or k [] i = k
  get_or k (x ∷ xs) zero = x
  get_or k (x ∷ xs) (suc i) = get_or k xs i

  unfoldable pub key_at : RotatingSigner → (counter : ℕ) → SigningKey E
  key_at s counter = get_or s.first (keys s) (counter % length (keys s))

  -- `key` claims the next key in rotation; `public_key` looks at it without claiming it.
  unfoldable pub rotating_signer : RotatingSigner → Signer E ℕ
  unfolding key_at
  rotating_signer s = record {
    account_id = s.account_id;
    key = λ counter. (key_at s counter, (counter + 1) % 2 ^ 64);
    public_key = λ counter. (key_at s counter).public_key;
  }

  -- `RotatingSigner::new`, the account ID already parsed.
  unfoldable pub new_rotating :
      Option Bytes → List (SigningKey E) → Result ConfigError RotatingSigner
  new_rotating account_id [] = err no_keys
  new_rotating none (key ∷ others) = err invalid_account_id
  new_rotating (some account_id) (key ∷ others) =
      ok (record { account_id = account_id; first = key; others = others })

  abbrev all_accounts_are : Bytes → List InMemorySigner → Bool
  all_accounts_are account_id [] = true
  all_accounts_are account_id (s ∷ signers) =
      bytes_eq s.account_id account_id && all_accounts_are account_id signers

  -- `RotatingSigner::from_signers`
  unfoldable pub from_signers : List InMemorySigner → Result ConfigError RotatingSigner
  from_signers [] = err no_keys
  from_signers (s ∷ signers) =
      if all_accounts_are s.account_id signers
      then ok (record {
        account_id = s.account_id;
        first = s.secret_key;
        others = map (λ x. x.secret_key) signers;
      })
      else err different_accounts

  -- `into_per_key_signers`
  unfoldable pub into_per_key_signers : RotatingSigner → List InMemorySigner
  into_per_key_signers s = map (λ k. record { account_id = s.account_id; secret_key = k }) (keys s)

  -- The keys that a number of calls of `key` return, one after the other.
  unfoldable pub claimed : RotatingSigner → (counter n : ℕ) → List (SigningKey E)
  unfolding rotating_signer
  claimed s counter zero = []
  claimed s counter (suc n) =
      let (k, counter') = (rotating_signer s).key counter in k ∷ claimed s counter' n

  drop_get :
      (k : SigningKey E) (xs : List (SigningKey E)) (i : ℕ)
      → i < length xs
      → drop i xs ≡ get_or k xs i ∷ drop (suc i) xs
  drop_get k [] i h = absurd (omega arith)
  drop_get k (x ∷ xs) zero h = refl
  drop_get k (x ∷ xs) (suc i) h = drop_get k xs i (omega arith)

  drop_all : (xs : List (SigningKey E)) (i : ℕ) → i ≡ length xs → drop i xs ≡ []
  drop_all [] zero h = refl
  drop_all [] (suc i) h = refl
  drop_all (x ∷ xs) zero h = absurd (omega arith)
  drop_all (x ∷ xs) (suc i) h = drop_all xs i (omega arith)

  zero_add : (i : ℕ) → 0 + i ≡ i
  zero_add i = omega arith

  mod_start : (start i m : ℕ) → start % m ≡ 0 → i < m → (start + i) % m ≡ i
  mod_start start i m a h =
      sym (mod-add-mod start m i)
      ∙ ap (λ x. (x + i) % m) a
      ∙ ap (λ x. x % m) (zero_add i)
      ∙ mod-eq_of_lt h

  -- From a counter that is at the start of a round, the keys are claimed one after the other.
  round_from :
      (s : RotatingSigner) (start i n : ℕ)
      → start % length (keys s) ≡ 0
      → i + n ≡ length (keys s)
      → start + i + n < 2 ^ 64
      → claimed s (start + i) n ≡ drop i (keys s)
  unfolding claimed rotating_signer key_at
  round_from s start i zero a h top = sym (drop_all (keys s) i (omega arith))
  round_from s start i (suc n) a h top =
      let here : (start + i) % length (keys s) ≡ i =
        mod_start start i (length (keys s)) a (omega arith) in
      let next : (start + i + 1) % 2 ^ 64 ≡ start + suc i = omega arith in
      rw (here, next, round_from s start (suc i) n a (omega arith) (omega arith))
        (sym (drop_get s.first (keys s) i (omega arith)))

  -- From a counter at the start of a round, below the wrap of a `usize`, as many calls of `key` as
  -- the rotating signer has keys return each key once, in order.
  pub claimed_round :
      (s : RotatingSigner) (start : ℕ)
      → start % length (keys s) ≡ 0
      → start + length (keys s) < 2 ^ 64
      → claimed s start (length (keys s)) ≡ keys s
  claimed_round s start a top =
      let zero_more : start + 0 ≡ start = omega arith in
      subst (λ c. claimed s c (length (keys s)) ≡ keys s) zero_more
        (round_from s start 0 (length (keys s)) a (omega arith) (omega arith))

  All-accounts :
      (a : Bytes) (signers : List InMemorySigner)
      → all_accounts_are a signers ≡ true
      → All (λ x. x.account_id ≡ a) signers
  All-accounts a [] h = tt
  All-accounts a (x ∷ signers) h =
      let (same, others) = and_both _ _ h in
      (eq_of_bytes_eq x.account_id a same, All-accounts a signers others)

  chosen :
      (x : InMemorySigner) (signers : List InMemorySigner) (s : RotatingSigner) (t : Bool)
      → all_accounts_are x.account_id signers ≡ t
      → (if t
          then ok (record {
            account_id = x.account_id;
            first = x.secret_key;
            others = map (λ y. y.secret_key) signers;
          })
          else err different_accounts)
        ≡ ok s
      → (x.secret_key ∷ map (λ y. y.secret_key) signers ≡ keys s)
        × All (λ y. y.account_id ≡ s.account_id) (x ∷ signers)
  chosen x signers s false h e = cc
  chosen x signers s true h e =
      let account : x.account_id ≡ s.account_id = cc in
      let first : x.secret_key ≡ s.first = cc in
      let others : map (λ y. y.secret_key) signers ≡ s.others = cc in
      (
        cc,
        (
          account,
          subst (λ a. All (λ y. y.account_id ≡ a) signers) account
              (All-accounts x.account_id signers h),
        ),
      )

  -- The signers that `from_signers` accepts share the account of the result, which has their keys
  -- in their order.
  pub from_signers_lem :
      (signers : List InMemorySigner) (s : RotatingSigner)
      → from_signers signers ≡ ok s
      → (map (λ x. x.secret_key) signers ≡ keys s) × All (λ x. x.account_id ≡ s.account_id) signers
  unfolding from_signers
  from_signers_lem [] s e = cc
  from_signers_lem (x ∷ signers) s e =
      chosen x signers s (all_accounts_are x.account_id signers) refl e

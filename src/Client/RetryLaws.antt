-- ===== src/Client/RetryLaws.antt =====
-- Where the retry loop of client/rpc.rs stops, and how long it sleeps.
use mathlib.Core.Path.{subst}
use mathlib.Core.Bool.{false≢true}
use near_kit_rs.Prelude.{
  ℕ, zero, suc, ◌+◌, ◌-◌, ◌%◌, ◌^◌, ◌≤◌, ◌<◌, ◌≡◌, refl, sym, ap, ◌∙◌, Bool, true, false, ◌&&◌,
  List, [], ◌∷◌, length, Result, ok, err, Result-cases, ltb, arith, Bool-cases, inl, inr, ◌⊎◌,
}
use near_kit_rs.Client.Errors.{RpcError, is_retryable}
use near_kit_rs.Client.Retry.{RetryConfig, backoff, returned, Call, after, attempts, call}

-- The delays after a number of attempts from one on.
abbrev pub backoffs : RetryConfig → (attempt n : ℕ) → List ℕ
backoffs config attempt zero = []
backoffs config attempt (suc n) = backoff config attempt ∷ backoffs config (attempt + 1) n

split_le : (a j : ℕ) → a ≤ j → (a ≡ j) ⊎ (a + 1 ≤ j)
split_le a j h = ground arith

and_left : (x y : Bool) → (x && y) ≡ true → x ≡ true
and_left true y h = refl
and_left false y h = cc

module _ (J R : Type 0) (answer : ℕ → Result (RpcError J) R) (config : RetryConfig) where
  -- An attempt whose answer is an error worth a retry.
  abbrev pub Retryable : ℕ → Type 0
  Retryable j = (e : RpcError J) × (answer j ≡ err e) × (is_retryable J e ≡ true)

  answer_cases : (j : ℕ) → Retryable j ⊎ (¬ Retryable j)
  answer_cases j = elim (Result-cases (answer j)) [
    | inl (r, a) ↦ inr (λ (x, a', y). cc)
    | inr (x, a) ↦ elim (Bool-cases (is_retryable J x)) [
      | inl y ↦ inl (x, a, y)
      | inr n ↦ inr (λ (x', a', y).
          let same : x ≡ x' = cc in false≢true (sym n ∙ ap (is_retryable J) same ∙ y))
    ]
  ]

  -- The loop stops at the attempt `last`, after `n` retries: every attempt before was retried for
  -- its error, the last one is either the last that is allowed or its answer is no error worth a
  -- retry, and its answer is what the call returns.
  abbrev pub Stops : (total attempt last n : ℕ) → Call J R → Type 0
  Stops total attempt last n result =
      (attempt + n ≡ last)
      × (last < total)
      × ((j : ℕ) → attempt ≤ j → j < last → Retryable j)
      × ((last + 1 ≡ total) ⊎ (¬ Retryable last))
      × (result.outcome ≡ returned (answer last))
      × (result.delays ≡ backoffs config attempt n)
      × (length result.request_ids ≡ suc n)

  stop_here :
      (total attempt id : ℕ) (r : Result (RpcError J) R) (later : Call J R)
      → answer attempt ≡ r
      → attempt < total
      → ((attempt + 1 ≡ total) ⊎ (¬ Retryable attempt))
      → Stops total attempt attempt 0 (after J R config total attempt id r later)
  unfolding after
  stop_here total attempt id (ok x) later a in_range last =
      (omega arith, in_range, λ j h k. absurd (omega arith), last, ap returned (sym a), refl, refl)
  stop_here total attempt id (err x) later a in_range last =
      elim (Bool-cases (is_retryable J x && ltb attempt (total - 1))) [
        | inl y ↦ absurd (again_not x a last y)
        | inr n ↦ rw (n) (
          omega arith,
          in_range,
          λ j h k. absurd (omega arith),
          last,
          ap returned (sym a),
          refl,
          refl,
        )
      ]
    where
      again_not :
          (x : RpcError J)
          → answer attempt ≡ err x
          → ((attempt + 1 ≡ total) ⊎ (¬ Retryable attempt))
          → ¬ ((is_retryable J x && ltb attempt (total - 1)) ≡ true)
      again_not x a (inl e) y = ground arith
      again_not x a (inr stop) y = stop (x, a, and_left _ _ y)

  go_on :
      (total attempt id last n : ℕ) (x : RpcError J) (later : Call J R)
      → answer attempt ≡ err x
      → is_retryable J x ≡ true
      → attempt + 1 < total
      → Stops total (attempt + 1) last n later
      → Stops total attempt last (suc n) (after J R config total attempt id (err x) later)
  unfolding after
  go_on total attempt id last n x later a y more (at, in_range, before, final, same, delays, ids) =
      let again : (is_retryable J x && ltb attempt (total - 1)) ≡ true = ground arith in
      rw (again) (
        omega arith,
        in_range,
        before',
        final,
        same,
        ap (backoff config attempt ∷◌) delays,
        ap suc ids,
      )
    where
      before' : (j : ℕ) → attempt ≤ j → j < last → Retryable j
      before' j h k = elim (split_le attempt j h) [
        | inl e ↦ subst Retryable e (x, a, y)
        | inr l ↦ before j l k
      ]

  attempts-Stops :
      (total remaining attempt request_id : ℕ)
      → attempt + suc remaining ≡ total
      → (last : ℕ) × (n : ℕ) × Stops total attempt last n
          (attempts J R answer config total (suc remaining) attempt request_id)
  unfolding attempts
  attempts-Stops total zero attempt request_id e = (
    attempt,
    0,
    stop_here total attempt request_id (answer attempt) _ refl (omega arith) (inl (omega arith)),
  )
  attempts-Stops total (suc remaining) attempt request_id e = elim (answer_cases attempt) [
    | inr stop ↦ (
      attempt,
      0,
      stop_here total attempt request_id (answer attempt) _ refl (omega arith) (inr stop),
    )
    | inl (x, a, y) ↦
        let later_call : Call J R =
          attempts J R answer config total (suc remaining) (attempt + 1)
            ((request_id + 1) % 2 ^ 64) in
        let (last, n, later) =
          attempts-Stops total remaining (attempt + 1) ((request_id + 1) % 2 ^ 64) (omega arith) in
        (
          last,
          suc n,
          subst
              (λ r.
                Stops total attempt last (suc n)
                  (after J R config total attempt request_id r later_call))
              (sym a) (go_on total attempt request_id last n x later_call a y (omega arith) later),
        )
  ]

  -- For fewer than 2 ^ 32 - 1 retries, `call` returns without reaching `unreachable!`: every
  -- attempt before the last was retried for a retryable error, the last is the last allowed or has
  -- another answer, its answer is returned, and the delays are the backoffs in order.
  pub call-Stops :
      (request_id : ℕ)
      → config.max_retries + 1 < 2 ^ 32
      → (last : ℕ) × (n : ℕ) × Stops
          (config.max_retries + 1)
          0
          last
          n
          (call J R answer config request_id)
  unfolding call
  call-Stops request_id h =
      let small : (config.max_retries + 1) % 2 ^ 32 ≡ suc config.max_retries = omega arith in
      let total : config.max_retries + 1 ≡ suc config.max_retries = omega arith in
      rw (small, total)
        (attempts-Stops (suc config.max_retries) config.max_retries 0 request_id (omega arith))

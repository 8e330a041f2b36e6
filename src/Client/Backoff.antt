-- ===== src/Client/Backoff.antt =====
-- The delays of the retry loop of client/rpc.rs.
use native.Mathlib.Nat.{pow-le-pow_right, two-pow-succ}
use near_kit_rs.Prelude.{ℕ, suc, ◌+◌, ◌*◌, ◌%◌, ◌^◌, ◌≤◌, ◌<◌, min, ◌≡◌, ap, ◌∙◌, arith}
use near_kit_rs.Client.Retry.{RetryConfig, backoff}

two_pow_small : (a : ℕ) → a < 64 → 2 ^ a < 2 ^ 64
two_pow_small a h =
    let below : 2 ^ a ≤ 2 ^ 63 = pow-le-pow_right (omega arith) {i = a} {j = 63} (omega arith) in
    omega arith

backoff_exact :
    (config : RetryConfig) (a : ℕ)
    → a < 64
    → config.initial_delay_ms * 2 ^ a < 2 ^ 64
    → backoff config a ≡ min (config.initial_delay_ms * 2 ^ a) config.max_delay_ms
unfolding backoff
backoff_exact config a h k =
    let small = two_pow_small a h in
    let same : 2 ^ a % 2 ^ 64 ≡ 2 ^ a = omega arith in rw (same) (omega arith)

-- For the first 63 attempts, while the next product fits a `u64`, the delay after an attempt is the
-- initial delay doubled once per attempt before and cut at the maximum, and the next delay is no
-- shorter and within the maximum.
pub backoff_lem :
    (config : RetryConfig) (a : ℕ)
    → a < 63
    → config.initial_delay_ms * 2 ^ suc a < 2 ^ 64
    → (backoff config a ≡ min (config.initial_delay_ms * 2 ^ a) config.max_delay_ms)
      × (backoff config a ≤ backoff config (suc a))
      × (backoff config (suc a) ≤ config.max_delay_ms)
backoff_lem config a h k =
    let double : config.initial_delay_ms * 2 ^ suc a
        ≡ config.initial_delay_ms * 2 ^ a + config.initial_delay_ms * 2 ^ a =
      ap (λ x. config.initial_delay_ms * x) (two-pow-succ a) ∙ grind arith in
    let here = backoff_exact config a (omega arith) (omega arith) in
    let next = backoff_exact config (suc a) (omega arith) k in (here, omega arith, omega arith)

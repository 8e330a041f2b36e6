-- ===== src/Client/Retry.antt =====
-- client/rpc.rs: the retry loop of `RpcClient::call` and its backoff. What `try_call` answers at
-- each attempt is an argument.
use near_kit_rs.Prelude.{
  ℕ, zero, suc, ◌+◌, ◌-◌, ◌*◌, ◌%◌, ◌^◌, min, ◌&&◌, List, [], ◌∷◌, Result, ok, err, ltb,
  if◌then◌else◌,
}
use near_kit_rs.Client.Errors.{RpcError, is_retryable}

pub record RetryConfig : Type 0 where
  pub max_retries : ℕ
  pub initial_delay_ms : ℕ
  pub max_delay_ms : ℕ

abbrev pub default_config : RetryConfig
default_config = record { max_retries = 3; initial_delay_ms = 500; max_delay_ms = 5000 }

-- `RetryConfig::none`
abbrev pub no_retries : RetryConfig
no_retries = record {
  max_retries = 0;
  initial_delay_ms = default_config.initial_delay_ms;
  max_delay_ms = default_config.max_delay_ms;
}

-- The delay after an attempt. `2u64.pow` and the product wrap, as in a release build.
unfoldable pub backoff : RetryConfig → (attempt : ℕ) → ℕ
backoff config attempt =
    min ((config.initial_delay_ms * (2 ^ attempt % 2 ^ 64)) % 2 ^ 64) config.max_delay_ms

-- What a call comes to: a value, or `unreachable!`, which panics.
pub data Outcome (A : Type 0) : Type 0 where
  returned : A → Outcome A
  panicked : Outcome A

module _ (J R : Type 0) where
  -- The attempts made, with the request ID of each, and the delays slept.
  pub record Call : Type 0 where
    pub outcome : Outcome (Result (RpcError J) R)
    pub request_ids : List ℕ
    pub delays : List ℕ
    -- The counter `request_id` of the client afterwards.
    pub next_request_id : ℕ

  -- The `match` on the answer of one attempt; `later` is the rest of the loop.
  unfoldable pub after :
      RetryConfig → (total_attempts attempt request_id : ℕ) → Result (RpcError J) R → Call → Call
  unfolding backoff
  after config total_attempts attempt request_id (ok result) later = record {
    outcome = returned (ok result);
    request_ids = request_id ∷ [];
    delays = [];
    next_request_id = (request_id + 1) % 2 ^ 64;
  }
  after config total_attempts attempt request_id (err e) later =
      if is_retryable J e && ltb attempt (total_attempts - 1)
      then record {
        outcome = later.outcome;
        request_ids = request_id ∷ later.request_ids;
        delays = backoff config attempt ∷ later.delays;
        next_request_id = later.next_request_id;
      }
      else record {
        outcome = returned (err e);
        request_ids = request_id ∷ [];
        delays = [];
        next_request_id = (request_id + 1) % 2 ^ 64;
      }

  -- `for attempt in 0..total_attempts`, with the number of attempts that remain.
  unfoldable pub attempts :
      (answer : ℕ → Result (RpcError J) R)
      → RetryConfig
      → (total_attempts remaining attempt request_id : ℕ) → Call
  unfolding after
  attempts answer config total_attempts zero attempt request_id = record {
    outcome = panicked;
    request_ids = [];
    delays = [];
    next_request_id = request_id;
  }
  attempts answer config total_attempts (suc remaining) attempt request_id =
      after config total_attempts attempt request_id (answer attempt)
        (attempts answer config total_attempts remaining (attempt + 1) ((request_id + 1) % 2 ^ 64))

  -- `RpcClient::call`; `max_retries + 1` is a `u32`.
  unfoldable pub call : (answer : ℕ → Result (RpcError J) R) → RetryConfig → (request_id : ℕ) → Call
  unfolding attempts
  call answer config request_id =
      let total_attempts = (config.max_retries + 1) % 2 ^ 32 in
      attempts answer config total_attempts total_attempts 0 request_id

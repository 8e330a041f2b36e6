-- ===== src/Tests/Sending.antt =====
-- A concrete node that refuses the first nonce, and the client against it.
use near_kit_rs.Prelude.{
  ℕ, zero, suc, ◌+◌, ◌≡◌, ap, ◌%◌, ◌≤◌, ◌<◌, ◌^◌, min, refl, none, some, List, [], ◌∷◌, All, length,
  Result, ok, err, arith, ◌*◌,
}
use near_kit_rs.Borsh.Format.{format}
use near_kit_rs.Client.Errors.{RpcError, InvalidTxError}
use near_kit_rs.Client.Backoff.{backoff_lem}
use near_kit_rs.Client.Nonces.{NonceKey, lookup}
use near_kit_rs.Client.NonceOrder.{Call, handed, Ascends, cached, Bounded, handed-Ascends}
use near_kit_rs.Client.Retry.{default_config, backoff, call}
use near_kit_rs.Client.RetryLaws.{Stops, call-Stops}
use near_kit_rs.Client.Signers
use near_kit_rs.Client.Signers.{SigningKey, Signer, RotatingSigner, InMemorySigner}
use near_kit_rs.Client.Send.{Builder, Node, send, chosen_signer}
use near_kit_rs.Client.SendLaws.{IsKnown}
use near_kit_rs.Client.SendNonces.{nonces_of, send-Ascends}
use near_kit_rs.Client.SendRuns.{AsAsked, send-IsKnown, send-AsAsked}
use near_kit_rs.Client.SendLive.{Serves, TakesAt, send-Reaches}
use near_kit_rs.Tests.Samples.{crypto, key, signature, alice, bob, transfer}

abbrev signing_key : SigningKey ℕ
signing_key = record { public_key = key; sign = λ _. ok signature }

abbrev in_memory : InMemorySigner ℕ
in_memory = record { account_id = alice; secret_key = signing_key }

abbrev rotating : RotatingSigner ℕ
rotating = record { account_id = alice; first = signing_key; others = signing_key ∷ [] }

abbrev nonce_key : NonceKey
nonce_key = record { network = []; account_id = alice; public_key = key }

abbrev pub signer : Signer ℕ ℕ
unfolding Signers.rotating_signer
signer = Signers.rotating_signer ℕ rotating

abbrev pub builder : Builder format crypto ℕ ℕ ℕ ℕ ℕ
builder = record {
  signer_override = none;
  signer = some signer;
  receiver_id = bob;
  actions = transfer ∷ [];
  max_nonce_retries = 3;
  network = [];
}

abbrev pub answer : ℕ → Result (RpcError ℕ) ℕ
answer zero = err (RpcError.invalid_tx (InvalidTxError.invalid_nonce 20 11))
answer (suc _) = ok 0

abbrev pub node : Node format crypto ℕ ℕ ℕ ℕ ℕ
node = record {
  view_access_key = λ _ _ _. ok (record { nonce = 10; block_hash = [] });
  send_tx = λ attempt _. answer attempt;
  convert = λ _ _. ok 0;
}

empty-Bounded : Bounded 30 []
unfolding lookup
empty-Bounded k = omega arith

send-IsKnown_example :
    IsKnown format crypto ℕ ℕ ℕ ℕ ℕ builder node
      (send format crypto ℕ ℕ ℕ ℕ ℕ builder node 0 []).result
    × (length (send format crypto ℕ ℕ ℕ ℕ ℕ builder node 0 []).sent ≤ 3 + 1)
send-IsKnown_example =
    send-IsKnown format crypto ℕ ℕ ℕ ℕ ℕ builder node (λ _ _. tt) (omega arith) 0 []

send-AsAsked_example :
    All
      (AsAsked format crypto ℕ ℕ ℕ ℕ ℕ builder node signer)
      (send format crypto ℕ ℕ ℕ ℕ ℕ builder node 0 []).sent
unfolding chosen_signer
send-AsAsked_example = send-AsAsked format crypto ℕ ℕ ℕ ℕ ℕ builder node signer refl 0 []

refusal_low :
    (attempt ak tx : ℕ)
    → answer attempt ≡ err (RpcError.invalid_tx (InvalidTxError.invalid_nonce ak tx))
    → ak ≤ 30
refusal_low zero ak tx e = let same : 20 ≡ ak = cc in omega arith
refusal_low (suc _) ak tx e = cc

send-Ascends_example : Ascends (cached nonce_key []) (
    nonces_of format crypto ℕ ℕ ℕ ℕ ℕ builder node nonce_key
      (send format crypto ℕ ℕ ℕ ℕ ℕ builder node 0 []).sent)
send-Ascends_example =
    send-Ascends format crypto ℕ ℕ ℕ ℕ ℕ builder node 30 30 nonce_key 0 []
      (
        λ _ _ _ v e. let same : 10 ≡ v.nonce = cc in omega arith,
        λ attempt _ ak tx e. refusal_low attempt ak tx e,
      )
      (omega arith) empty-Bounded (omega arith) (omega arith)

any_key : (n : ℕ) → Signers.get_or ℕ signing_key (signing_key ∷ signing_key ∷ []) n ≡ signing_key
any_key zero = refl
any_key (suc zero) = refl
any_key (suc (suc n)) = refl

serves : Serves format crypto ℕ ℕ ℕ ℕ ℕ builder node signer
unfolding Signers.rotating_signer Signers.key_at
serves = (
  λ _ _. (record { nonce = 10; block_hash = [] }, refl),
  λ s m. (signature, ap (λ k. k.sign m) (any_key (s % 2))),
)

refuses_first :
    (attempt : ℕ)
    → attempt < 1
    → (ak : ℕ) × (tx : ℕ) × (answer attempt
        ≡ err (RpcError.invalid_tx (InvalidTxError.invalid_nonce ak tx)))
refuses_first zero h = (20, 11, refl)
refuses_first (suc attempt) h = absurd (omega arith)

takes_second : TakesAt format crypto ℕ ℕ ℕ ℕ ℕ builder node signer 1 0
takes_second = (λ attempt _ h. refuses_first attempt h, λ _. (0, refl, refl))

send-Reaches_example :
    ((send format crypto ℕ ℕ ℕ ℕ ℕ builder node 0 []).result ≡ ok 0)
    × (length (send format crypto ℕ ℕ ℕ ℕ ℕ builder node 0 []).sent ≡ 1 + 1)
unfolding chosen_signer
send-Reaches_example =
    send-Reaches format crypto ℕ ℕ ℕ ℕ ℕ builder node signer 1 0 serves takes_second (omega arith)
      transfer [] refl refl 0 []

abbrev calls : List Call
calls =
    record { key = nonce_key; blockchain_nonce = 10 }
    ∷ record { key = nonce_key; blockchain_nonce = 10 }
    ∷ []

handed-Ascends_example : Ascends (cached nonce_key []) (handed nonce_key [] calls)
handed-Ascends_example =
    handed-Ascends nonce_key [] calls 30 empty-Bounded (omega arith, (omega arith, tt))
      (omega arith)

call-Stops_example :
    (last : ℕ) × (n : ℕ) × Stops ℕ ℕ answer default_config
      (default_config.max_retries + 1)
      0
      last
      n
      (call ℕ ℕ answer default_config 7)
call-Stops_example = call-Stops ℕ ℕ answer default_config 7 (omega arith)

backoff_lem_example :
    (backoff default_config 2 ≡ min (500 * 2 ^ 2) 5000)
    × (backoff default_config 2 ≤ backoff default_config 3)
    × (backoff default_config 3 ≤ 5000)
backoff_lem_example = backoff_lem default_config 2 (omega arith) (omega arith)

-- ===== src/Tests/Building.antt =====
-- Builders, signing and delegating at concrete values.
use near_kit_rs.Prelude.{ℕ, All, ◌≡◌, some, List, [], ◌∷◌, codes, refl}
use near_kit_rs.Borsh.Format.{format}
use near_kit_rs.Units.Defs.{into_gas, into_near_token, IntoNearToken, IntoGas}
use near_kit_rs.Client.Signers
use near_kit_rs.Client.Send.{send}
use near_kit_rs.Builder.Defs.{
  gas_of, token_of, IntoGlobalContractId, Method, Setting, TransactionBuilder,
}
use near_kit_rs.Builder.Chain.{Link, build_by}
use near_kit_rs.Builder.Meant.{IsValid, after}
use near_kit_rs.Builder.Runs.{build_by_iff}
use near_kit_rs.Builder.Sign.{sign}
use near_kit_rs.Builder.FirstAttempt.{BeginsAs, sign-send}
use near_kit_rs.Tests.Samples.{crypto, bob}
use near_kit_rs.Tests.Sending

abbrev builder : TransactionBuilder format crypto ℕ ℕ ℕ ℕ ℕ
builder = Sending.builder

abbrev links : List (Link format crypto ℕ ℕ ℕ ℕ ℕ)
links =
    Link.call (codes "increment") (
      Setting.gas (IntoGas.gas 5)
      ∷ Setting.args_raw (codes "{}")
      ∷ Setting.gas (IntoGas.gas 7)
      ∷ [])
    ∷ Link.method (Method.transfer (IntoNearToken.token 9))
    ∷ Link.method (Method.max_nonce_retries 1)
    ∷ Link.method (Method.deploy_from (IntoGlobalContractId.account_id (some bob)))
    ∷ []

links-IsValid : All (IsValid format crypto ℕ ℕ ℕ ℕ ℕ (λ _. bob)) links
unfolding gas_of token_of into_gas into_near_token
links-IsValid = ((tt, (tt, (tt, tt))), (tt, (tt, (tt, tt))))

build_by_iff_example :
    build_by format crypto ℕ ℕ ℕ ℕ ℕ (λ _. bob) links builder
    ≡ some (after format crypto ℕ ℕ ℕ ℕ ℕ (λ _. bob) links builder)
build_by_iff_example =
    (build_by_iff format crypto ℕ ℕ ℕ ℕ ℕ (λ _. bob) links builder
        (after format crypto ℕ ℕ ℕ ℕ ℕ (λ _. bob) links builder)).1
      (links-IsValid, refl)

sign-send_example :
    BeginsAs format crypto ℕ ℕ ℕ ℕ ℕ builder Sending.node
      (sign format crypto ℕ ℕ ℕ ℕ ℕ builder (Sending.node.view_access_key 0) 0 [])
      (send format crypto ℕ ℕ ℕ ℕ ℕ builder Sending.node 0 [])
sign-send_example = sign-send format crypto ℕ ℕ ℕ ℕ ℕ builder Sending.node 0 []

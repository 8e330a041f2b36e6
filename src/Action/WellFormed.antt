-- ===== src/Action/WellFormed.antt =====
-- The values that the types of types/action.rs hold: account IDs and keys that their constructors
-- accept, numbers in range, lengths below 2 ^ 32, and no delegate action inside a delegate action.
use near_kit_rs.Prelude.{◌^◌, ◌<◌, ◌≡◌, true, List, Bytes, length, All, IsU16, IsU64, IsU128}
use near_kit_rs.Borsh.{Borsh, OptionAll}
use near_kit_rs.Key.{Crypto, IsPublicKey, IsSignature}
use near_kit_rs.Action.Defs

abbrev pub IsShort {ℓ} : {A : Type ℓ} → List A → Type 0
IsShort xs = length xs < 2 ^ 32

abbrev pub IsTransactionNonce : Defs.TransactionNonce → Type 0
IsTransactionNonce (Defs.TransactionNonce.nonce n) = IsU64 n
IsTransactionNonce (Defs.TransactionNonce.gas_key_nonce n i) = IsU64 n × IsU16 i

abbrev pub IsGasKeyInfo : Defs.GasKeyInfo → Type 0
IsGasKeyInfo g = IsU128 g.balance × IsU16 g.num_nonces

module _ (b : Borsh) where
  abbrev pub IsAccountId : Bytes → Type 0
  IsAccountId a = b.is_account_id a ≡ true

  abbrev pub IsString : Bytes → Type 0
  IsString s = (b.is_utf8 s ≡ true) × IsShort s

  abbrev pub IsFunctionCallPermission : Defs.FunctionCallPermission → Type 0
  IsFunctionCallPermission f =
      OptionAll IsU128 f.allowance
      × IsAccountId f.receiver_id
      × All IsString f.method_names
      × IsShort f.method_names

  abbrev pub IsAccessKeyPermission : Defs.AccessKeyPermission → Type 0
  IsAccessKeyPermission (Defs.AccessKeyPermission.function_call f) = IsFunctionCallPermission f
  IsAccessKeyPermission Defs.AccessKeyPermission.full_access = Unit
  IsAccessKeyPermission (Defs.AccessKeyPermission.gas_key_function_call g f) =
      IsGasKeyInfo g × IsFunctionCallPermission f
  IsAccessKeyPermission (Defs.AccessKeyPermission.gas_key_full_access g) = IsGasKeyInfo g

  abbrev pub IsAccessKey : Defs.AccessKey → Type 0
  IsAccessKey k = IsU64 k.nonce × IsAccessKeyPermission k.permission

  abbrev pub IsFunctionCallAction : Defs.FunctionCallAction → Type 0
  IsFunctionCallAction f = IsString f.method_name × IsShort f.args × IsU64 f.gas × IsU128 f.deposit

module _ (b : Borsh) (c : Crypto) where
  -- An action that is no delegate action.
  abbrev pub IsPlainAction : Defs.Action b → Type 0
  IsPlainAction Defs.Action.create_account = Unit
  IsPlainAction (Defs.Action.deploy_contract code) = IsShort code
  IsPlainAction (Defs.Action.function_call f) = IsFunctionCallAction b f
  IsPlainAction (Defs.Action.transfer deposit) = IsU128 deposit
  IsPlainAction (Defs.Action.stake s) = IsU128 s.stake × IsPublicKey c s.public_key
  IsPlainAction (Defs.Action.add_key a) = IsPublicKey c a.public_key × IsAccessKey b a.access_key
  IsPlainAction (Defs.Action.delete_key k) = IsPublicKey c k
  IsPlainAction (Defs.Action.delete_account a) = IsAccountId b a
  IsPlainAction (Defs.Action.delegate _) = ⊥
  IsPlainAction (Defs.Action.deploy_global_contract d) = IsShort d.code
  IsPlainAction (Defs.Action.use_global_contract g) = b.IsGlobalContractId g
  IsPlainAction (Defs.Action.deterministic_state_init d) =
      b.IsStateInit d.state_init × IsU128 d.deposit
  IsPlainAction (Defs.Action.transfer_to_gas_key t) = IsPublicKey c t.public_key × IsU128 t.deposit
  IsPlainAction (Defs.Action.withdraw_from_gas_key w) = IsPublicKey c w.public_key × IsU128 w.amount
  IsPlainAction (Defs.Action.delegate_v2 _) = ⊥

  abbrev pub IsNonDelegateAction : Defs.NonDelegateAction b → Type 0
  IsNonDelegateAction (Defs.NonDelegateAction.non_delegate a) = IsPlainAction a

  abbrev pub IsNonDelegateActions : Defs.NonDelegateActions b → Type 0
  IsNonDelegateActions xs =
      All IsNonDelegateAction (Defs.to_list b xs) × IsShort (Defs.to_list b xs)

  abbrev pub IsDelegateAction : Defs.DelegateAction b → Type 0
  IsDelegateAction (Defs.DelegateAction.delegate_action s r xs n h k) =
      IsAccountId b s
      × IsAccountId b r
      × IsNonDelegateActions xs
      × IsU64 n
      × IsU64 h
      × IsPublicKey c k

  abbrev pub IsSignedDelegate : Defs.SignedDelegateAction b → Type 0
  IsSignedDelegate (Defs.SignedDelegateAction.signed_delegate d s) =
      IsDelegateAction d × IsSignature s

  abbrev pub IsDelegateActionV2 : Defs.DelegateActionV2 b → Type 0
  IsDelegateActionV2 (Defs.DelegateActionV2.delegate_action_v2 s r xs n h k) =
      IsAccountId b s
      × IsAccountId b r
      × IsNonDelegateActions xs
      × IsTransactionNonce n
      × IsU64 h
      × IsPublicKey c k

  abbrev pub IsPayload : Defs.VersionedDelegateActionPayload b → Type 0
  IsPayload (Defs.VersionedDelegateActionPayload.v2 d) = IsDelegateActionV2 d

  abbrev pub IsVersionedSignedDelegate : Defs.VersionedSignedDelegateAction b → Type 0
  IsVersionedSignedDelegate (Defs.VersionedSignedDelegateAction.versioned_signed_delegate d s) =
      IsPayload d × IsSignature s

  -- Any action.
  abbrev pub IsAction : Defs.Action b → Type 0
  IsAction (Defs.Action.delegate d) = IsSignedDelegate d
  IsAction (Defs.Action.delegate_v2 d) = IsVersionedSignedDelegate d
  IsAction a = IsPlainAction a

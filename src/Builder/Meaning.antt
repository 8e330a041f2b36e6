-- ===== src/Builder/Meaning.antt =====
-- What a chain of builder calls stands for, link by link, and that the builders make it.
use near_kit_rs.Prelude.{ℕ, ◌≡◌, refl, Option, none, some, List, [], ◌∷◌, Bytes, All, ◌>>?◌}
use near_kit_rs.Builder.Defs.{
  Setting, FunctionCall, token_of, gas_of, unwrap_or_default, set, set_all,
}

-- A value, where there is one.
abbrev pub or_zero : Option ℕ → ℕ
or_zero none = 0
or_zero (some n) = n

abbrev pub or_empty : Option Bytes → Bytes
or_empty none = []
or_empty (some bytes) = bytes

abbrev pub IsDefined {ℓ} : {X : Type ℓ} → Option X → Type 0
IsDefined none = ⊥
IsDefined (some _) = Unit

abbrev pub IsValidSetting : Setting → Type 0
IsValidSetting (Setting.gas amount) = IsDefined (gas_of amount)
IsValidSetting (Setting.deposit amount) = IsDefined (token_of amount)
IsValidSetting _ = Unit

-- The settings that count are the last ones.
abbrev pub last_args : List Setting → Bytes → Bytes
last_args [] bytes = bytes
last_args (Setting.args json ∷ settings) bytes = last_args settings (unwrap_or_default json)
last_args (Setting.args_raw raw ∷ settings) bytes = last_args settings raw
last_args (Setting.args_borsh raw ∷ settings) bytes = last_args settings (unwrap_or_default raw)
last_args (Setting.gas _ ∷ settings) bytes = last_args settings bytes
last_args (Setting.deposit _ ∷ settings) bytes = last_args settings bytes

abbrev pub last_gas : List Setting → ℕ → ℕ
last_gas [] n = n
last_gas (Setting.gas amount ∷ settings) n = last_gas settings (or_zero (gas_of amount))
last_gas (Setting.args _ ∷ settings) n = last_gas settings n
last_gas (Setting.args_raw _ ∷ settings) n = last_gas settings n
last_gas (Setting.args_borsh _ ∷ settings) n = last_gas settings n
last_gas (Setting.deposit _ ∷ settings) n = last_gas settings n

abbrev pub last_deposit : List Setting → ℕ → ℕ
last_deposit [] n = n
last_deposit (Setting.deposit amount ∷ settings) n =
    last_deposit settings (or_zero (token_of amount))
last_deposit (Setting.gas _ ∷ settings) n = last_deposit settings n
last_deposit (Setting.args _ ∷ settings) n = last_deposit settings n
last_deposit (Setting.args_raw _ ∷ settings) n = last_deposit settings n
last_deposit (Setting.args_borsh _ ∷ settings) n = last_deposit settings n

abbrev with_last : List Setting → FunctionCall → FunctionCall
with_last settings call = record {
  method = call.method;
  args = last_args settings call.args;
  gas = last_gas settings call.gas;
  deposit = last_deposit settings call.deposit;
}

pub defined {ℓ} : {X : Type ℓ} (o : Option X) → IsDefined o → (x : X) × (o ≡ some x)
defined none h = elim h [ ]
defined (some x) h = (x, refl)

pub set_all_lem :
    (settings : List Setting) (call : FunctionCall)
    → All IsValidSetting settings
    → set_all settings call ≡ some (with_last settings call)
unfolding set_all set
set_all_lem [] call h = refl
set_all_lem (Setting.args json ∷ settings) call (_, h) = set_all_lem settings _ h
set_all_lem (Setting.args_raw raw ∷ settings) call (_, h) = set_all_lem settings _ h
set_all_lem (Setting.args_borsh raw ∷ settings) call (_, h) = set_all_lem settings _ h
set_all_lem (Setting.gas amount ∷ settings) call (h, hs) =
    let (n, e) = defined (gas_of amount) h in rw (e) (set_all_lem settings _ hs)
set_all_lem (Setting.deposit amount ∷ settings) call (h, hs) =
    let (n, e) = defined (token_of amount) h in rw (e) (set_all_lem settings _ hs)

pub some_injective {ℓ} : {X : Type ℓ} {x y : X} → some x ≡ some y → x ≡ y
some_injective e = cc

pub >>?-some {ℓ κ} :
    {X : Type ℓ} {Y : Type κ} (o : Option X) (f : X → Option Y) {y : Y}
    → (o >>? f) ≡ some y
    → (x : X) × (o ≡ some x) × (f x ≡ some y)
>>?-some none f h = cc
>>?-some (some x) f h = (x, refl, h)

pub twice-IsDefined {ℓ κ ι} :
    {X : Type ℓ} {Y : Type κ} {Z : Type ι} (o : Option X) (f : X → Option Y) (g : Y → Option Z)
    {z : Z}
    → (o >>? f >>? g) ≡ some z
    → IsDefined o
twice-IsDefined none f g h = cc
twice-IsDefined (some x) f g h = tt

set_gas :
    (o : Option ℕ) (f : ℕ → FunctionCall) (settings : List Setting) {made : FunctionCall}
    → ((o >>? λ n. some (f n)) >>? set_all settings) ≡ some made
    → IsDefined o × ((call : FunctionCall) × (set_all settings call ≡ some made))
set_gas none f settings e = cc
set_gas (some n) f settings e = (tt, (f n, e))

pub set_all-IsValid :
    (settings : List Setting) (call : FunctionCall) {made : FunctionCall}
    → set_all settings call ≡ some made
    → All IsValidSetting settings
unfolding set_all set
set_all-IsValid [] call e = tt
set_all-IsValid (Setting.args json ∷ settings) call e = (tt, set_all-IsValid settings _ e)
set_all-IsValid (Setting.args_raw raw ∷ settings) call e = (tt, set_all-IsValid settings _ e)
set_all-IsValid (Setting.args_borsh raw ∷ settings) call e = (tt, set_all-IsValid settings _ e)
set_all-IsValid (Setting.gas amount ∷ settings) call e =
    let (h, (call', e')) = set_gas (gas_of amount) _ settings e in
    (h, set_all-IsValid settings call' e')
set_all-IsValid (Setting.deposit amount ∷ settings) call e =
    let (h, (call', e')) = set_gas (token_of amount) _ settings e in
    (h, set_all-IsValid settings call' e')

-- ===== src/Builder/Runs.antt =====
-- The runs of a chain of builder calls against what the chain stands for.
use near_kit_rs.Prelude.{
  ◌≡◌, ◌↔◌, refl, sym, ap, ◌∙◌, none, some, List, [], ◌∷◌, ◌++◌, All, append_assoc, append-nil,
}
use near_kit_rs.Borsh.{Borsh}
use near_kit_rs.Key.{Crypto}
use near_kit_rs.Action.{Action, AccountId}
use near_kit_rs.Builder.Defs.{
  TransactionBuilder, IntoGlobalContractId, into_identifier, Method, token_of, set_all, apply,
  add_action, new_call,
}
use near_kit_rs.Builder.Chain.{Link, Chain, finished, link_on, run, building, calling}
use near_kit_rs.Builder.Meaning.{
  defined, set_all_lem, set_all-IsValid, some_injective, >>?-some, twice-IsDefined,
}
use near_kit_rs.Builder.Chain.{build_by}
use near_kit_rs.Builder.Meant.{IsValid, after, all_meant}

module _ (b : Borsh) (c : Crypto) (J E S R A : Type 0)
    (derive_account_id : b.StateInit → AccountId) where
  abbrev pub Makes : Link b c J E S R A → TransactionBuilder b c J E S R A → Type 0
  Makes link builder =
      (chain : Chain b c J E S R A) × (link_on b c J E S R A derive_account_id link builder
        ≡ some chain)
      × (finished b c J E S R A chain ≡ after b c J E S R A derive_account_id (link ∷ []) builder)

  link_lem :
      (link : Link b c J E S R A) (builder : TransactionBuilder b c J E S R A)
      → IsValid b c J E S R A derive_account_id link
      → Makes link builder
  unfolding link_on apply into_identifier finished add_action
  link_lem (Link.method Method.create_account) builder h = (building _, refl, refl)
  link_lem (Link.method (Method.transfer amount)) builder h =
      let (n, e) = defined (token_of amount) h in rw (e) (building _, refl, refl)
  link_lem (Link.method (Method.deploy code)) builder h = (building _, refl, refl)
  link_lem (Link.method (Method.add_full_access_key key)) builder h = (building _, refl, refl)
  link_lem (Link.method (Method.add_function_call_key key (some _) names allowance)) builder h =
      (building _, refl, refl)
  link_lem (Link.method (Method.add_function_call_key key none names allowance)) builder h =
      elim h [ ]
  link_lem (Link.method (Method.delete_key key)) builder h = (building _, refl, refl)
  link_lem (Link.method (Method.delete_account (some _))) builder h = (building _, refl, refl)
  link_lem (Link.method (Method.delete_account none)) builder h = elim h [ ]
  link_lem (Link.method (Method.stake amount key)) builder h =
      let (n, e) = defined (token_of amount) h in rw (e) (building _, refl, refl)
  link_lem (Link.method (Method.signed_delegate_action signed)) builder h = (building _, refl, refl)
  link_lem (Link.method (Method.publish code mode)) builder h = (building _, refl, refl)
  link_lem (Link.method (Method.deploy_from (IntoGlobalContractId.identifier contract))) builder h =
      (building _, refl, refl)
  link_lem (Link.method (Method.deploy_from (IntoGlobalContractId.code_hash hash))) builder h =
      (building _, refl, refl)
  link_lem (Link.method (Method.deploy_from (IntoGlobalContractId.account_id (some _)))) builder h =
      (building _, refl, refl)
  link_lem (Link.method (Method.deploy_from (IntoGlobalContractId.account_id none))) builder h =
      elim h [ ]
  link_lem (Link.method (Method.state_init init amount)) builder h =
      let (n, e) = defined (token_of amount) h in rw (e) (building _, refl, refl)
  link_lem (Link.method (Method.add_action_method action)) builder h = (building _, refl, refl)
  link_lem (Link.method (Method.sign_with signer)) builder h =
      (building _, refl, rw (append-nil) refl)
  link_lem (Link.method (Method.max_nonce_retries retries)) builder h =
      (building _, refl, rw (append-nil) refl)
  link_lem (Link.call name settings) builder h =
      rw (set_all_lem settings (new_call name) h) (calling _, refl, refl)

  abbrev After :
      List (Link b c J E S R A)
      → TransactionBuilder b c J E S R A
      → TransactionBuilder b c J E S R A
  After = after b c J E S R A derive_account_id

  abbrev AllValid : List (Link b c J E S R A) → Type 0
  AllValid = All (IsValid b c J E S R A derive_account_id)

  after-nil : (builder : TransactionBuilder b c J E S R A) → After [] builder ≡ builder
  after-nil builder = rw (append-nil builder.actions) refl

  regroup : (xs ys zs : List (Action b)) → (xs ++ (ys ++ [])) ++ zs ≡ xs ++ (ys ++ zs)
  regroup xs ys zs = simp (append-nil, append_assoc)

  after-after :
      (link : Link b c J E S R A) (links : List (Link b c J E S R A))
      (builder : TransactionBuilder b c J E S R A)
      → After links (After (link ∷ []) builder) ≡ After (link ∷ links) builder
  after-after link links builder =
      ap (λ actions. record (After (link ∷ links) builder) { actions = actions })
        (regroup builder.actions _ (all_meant b c J E S R A derive_account_id links))

  run_lem :
      (links : List (Link b c J E S R A)) (chain : Chain b c J E S R A)
      → AllValid links
      → (last : Chain b c J E S R A) × (run b c J E S R A derive_account_id links chain ≡ some last)
        × (finished b c J E S R A last ≡ After links (finished b c J E S R A chain))
  unfolding run
  run_lem [] chain h = (chain, refl, sym (after-nil _))
  run_lem (link ∷ links) chain (h, hs) =
      let (mid, e, made) = link_lem link (finished b c J E S R A chain) h in
      let (last, e', made') = run_lem links mid hs in
      (last, rw (e) e', made' ∙ ap (After links) made ∙ after-after link links _)

  link-IsValid :
      (link : Link b c J E S R A) (builder : TransactionBuilder b c J E S R A)
      (chain : Chain b c J E S R A)
      → link_on b c J E S R A derive_account_id link builder ≡ some chain
      → IsValid b c J E S R A derive_account_id link
  unfolding link_on apply into_identifier
  link-IsValid (Link.method Method.create_account) builder chain e = tt
  link-IsValid (Link.method (Method.transfer amount)) builder chain e =
      twice-IsDefined (token_of amount) _ _ e
  link-IsValid (Link.method (Method.deploy code)) builder chain e = tt
  link-IsValid (Link.method (Method.add_full_access_key key)) builder chain e = tt
  link-IsValid (Link.method (Method.add_function_call_key key receiver names allowance)) builder
        chain e =
      twice-IsDefined receiver _ _ e
  link-IsValid (Link.method (Method.delete_key key)) builder chain e = tt
  link-IsValid (Link.method (Method.delete_account beneficiary)) builder chain e =
      twice-IsDefined beneficiary _ _ e
  link-IsValid (Link.method (Method.stake amount key)) builder chain e =
      twice-IsDefined (token_of amount) _ _ e
  link-IsValid (Link.method (Method.signed_delegate_action signed)) builder chain e = tt
  link-IsValid (Link.method (Method.publish code mode)) builder chain e = tt
  link-IsValid (Link.method (Method.deploy_from (IntoGlobalContractId.identifier contract))) builder
        chain e =
      tt
  link-IsValid (Link.method (Method.deploy_from (IntoGlobalContractId.code_hash hash))) builder
        chain e =
      tt
  link-IsValid (Link.method (Method.deploy_from (IntoGlobalContractId.account_id (some _)))) builder
        chain e =
      tt
  link-IsValid (Link.method (Method.deploy_from (IntoGlobalContractId.account_id none))) builder
        chain e =
      cc
  link-IsValid (Link.method (Method.state_init init amount)) builder chain e =
      twice-IsDefined (token_of amount) _ _ e
  link-IsValid (Link.method (Method.add_action_method action)) builder chain e = tt
  link-IsValid (Link.method (Method.sign_with signer)) builder chain e = tt
  link-IsValid (Link.method (Method.max_nonce_retries retries)) builder chain e = tt
  link-IsValid (Link.call name settings) builder chain e =
      let (made, e', _) = >>?-some (set_all settings (new_call name)) _ e in
      set_all-IsValid settings (new_call name) e'

  run-IsValid :
      (links : List (Link b c J E S R A)) (chain last : Chain b c J E S R A)
      → run b c J E S R A derive_account_id links chain ≡ some last
      → AllValid links
  unfolding run
  run-IsValid [] chain last e = tt
  run-IsValid (link ∷ links) chain last e =
      let (mid, e', more) =
        >>?-some (link_on b c J E S R A derive_account_id link (finished b c J E S R A chain))
          (run b c J E S R A derive_account_id links) e in
      (link-IsValid link _ mid e', run-IsValid links mid last more)

  -- A chain of calls on a `TransactionBuilder` and the `CallBuilder`s in between gives a builder,
  -- without a panic, exactly when all its amounts, gas and account IDs are valid; the builder then
  -- has the earlier actions and one for each call in order, a function call with the last setting
  -- of each kind, the last receiver, signer and number of retries that were set, and all else
  -- unchanged.
  pub build_by_iff :
      (links : List (Link b c J E S R A)) (builder built : TransactionBuilder b c J E S R A)
      → (build_by b c J E S R A derive_account_id links builder ≡ some built) ↔ (
          All (IsValid b c J E S R A derive_account_id) links
          × (built ≡ after b c J E S R A derive_account_id links builder))
  unfolding build_by finished
  build_by_iff links builder built = (
    λ e.
        let (last, e', ended) =
          >>?-some (run b c J E S R A derive_account_id links (building builder)) _ e in
        let h = run-IsValid links (building builder) last e' in
        let (last', e'', made) = run_lem links (building builder) h in
        (
          h,
          sym (some_injective ended)
              ∙ ap (finished b c J E S R A) (some_injective (sym e' ∙ e''))
              ∙ made,
        ),
    λ (h, same).
        let (last, e, made) = run_lem links (building builder) h in
        rw (e) (ap some (made ∙ sym same)),
  )

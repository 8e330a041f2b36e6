-- ===== src/Action/Nesting.antt =====
-- No delegate action stands inside a delegate action, so that reading one nests two calls deep.
use mathlib.Core.Path.{fun_ext}
use near_kit_rs.Prelude.{
  ℕ, suc, ◌≡◌, refl, ap, Bool, true, false, Bytes, Result, ok, err, Result-cases, Bool-cases, inl,
  inr, arith, none, some, if◌then◌else◌, ◌>>=◌, >>=-eq-ok, ◌↔◌, ◌∙◌, sym, ◌||◌, ◌==◌, ◌⊎◌,
}
use near_kit_rs.Borsh.{Borsh, Codec, IoError}
use near_kit_rs.Borsh.Laws.{Reads, Returns, if-Returns, ok-Returns, err-Returns, map-Returns}
use near_kit_rs.Key.{Crypto}
use near_kit_rs.Action.Defs
use near_kit_rs.Action.Defs.{Action, NonDelegateAction}
use near_kit_rs.Action.Codec
use near_kit_rs.Action.Codec.{action, action_at}

module _ (b : Borsh) where
  abbrev pub IsPlain : NonDelegateAction b → Type 0
  IsPlain x = Defs.is_delegate b (Defs.inner b x) ≡ false

  guard :
      (t : Bool) (a a' : Action b)
      → (if t then none else some (Defs.non_delegate a)) ≡ some (Defs.non_delegate a')
      → (t ≡ false) × (a ≡ a')
  guard true a a' e = cc
  guard false a a' e = (refl, cc)

  -- `from_action` takes exactly the actions that are no delegates, and keeps them.
  pub from_action_iff :
      (a : Action b) (x : NonDelegateAction b)
      → (Defs.from_action b a ≡ some x) ↔ (IsPlain x × (Defs.inner b x ≡ a))
  unfolding Defs.from_action Defs.inner
  from_action_iff a (NonDelegateAction.non_delegate a') = (
    λ e.
        let (plain, same) = guard (Defs.is_delegate b a) a a' e in
        (ap (Defs.is_delegate b) (sym same) ∙ plain, sym same),
    λ (p, same).
        let plain : Defs.is_delegate b a ≡ false = ap (Defs.is_delegate b) (sym same) ∙ p in
        rw (plain, same),
  )

  abbrev Plain : Action b → Type 0
  Plain a = Defs.is_delegate b a ≡ false

  -- An action made from a field that was read, none of a delegate.
  Plain-field :
      {A : Type 0} (m : Result IoError (A × Bytes)) (f : A → Action b)
      → ((x : A) → Plain (f x))
      → Returns Plain (m >>= λ p. ok (f p.0, p.1))
  Plain-field m f h = map-Returns {0, 0, 0, 0} Plain (λ _. Unit) m f (λ _ _ _. tt) (λ x _. h x)

module _ (b : Borsh) (c : Crypto) where
  -- The variants that a `NonDelegateAction` may have do not use the codec of another one.
  variant_irrelevant :
      (n m : Codec (NonDelegateAction b)) (t : ℕ) (r : Bytes)
      → Codec.is_delegate_variant b c n t ≡ false
      → Codec.deserialize_variant b c n t r ≡ Codec.deserialize_variant b c m t r
  unfolding Codec.deserialize_variant
  variant_irrelevant n m t r h = ground arith

  get_irrelevant :
      (n m : Codec (NonDelegateAction b)) (r : Bytes)
      → Codec.get_non_delegate b c n r ≡ Codec.get_non_delegate b c m r
  unfolding Codec.get_non_delegate
  get_irrelevant n m r = elim (Result-cases (b.u8.get r)) [
    | inr (x, e) ↦ rw e
    | inl ((t, r'), e) ↦ rw e (elim (Bool-cases (Codec.is_delegate_variant b c n t)) [
      | inl d ↦ rw d
      | inr p ↦ rw (p, variant_irrelevant n m t r' p)
    ])
  ]

  pub nested_get : (d : ℕ) → (Codec.nested b c (suc d)).get ≡ (Codec.nested b c 1).get
  unfolding Codec.nested
  nested_get d = fun_ext (λ r. get_irrelevant _ _ r)

  or_not_true : (x y : Bool) → (x || y) ≡ false → ¬ ((x ≡ true) ⊎ (y ≡ true))
  or_not_true true y h e = cc
  or_not_true false y h (inl e) = cc
  or_not_true false y h (inr e) = cc

  variant-Plain :
      (n : Codec (NonDelegateAction b)) (t : ℕ) (r : Bytes)
      → Codec.is_delegate_variant b c n t ≡ false
      → Returns (Plain b) (Codec.deserialize_variant b c n t r)
  unfolding Codec.deserialize_variant Defs.is_delegate
  variant-Plain n t r h =
      if-Returns (Plain b) (t == 0) _ _ (λ _. ok-Returns (Plain b) _ _ refl)
        (λ _.
          if-Returns (Plain b) (t == 1) _ _ (λ _. Plain-field b _ _ (λ _. refl))
            (λ _.
              if-Returns (Plain b) (t == 2) _ _ (λ _. Plain-field b _ _ (λ _. refl))
                (λ _.
                  if-Returns (Plain b) (t == 3) _ _ (λ _. Plain-field b _ _ (λ _. refl))
                    (λ _.
                      if-Returns (Plain b) (t == 4) _ _ (λ _. Plain-field b _ _ (λ _. refl))
                        (λ _.
                          if-Returns (Plain b) (t == 5) _ _ (λ _. Plain-field b _ _ (λ _. refl))
                            (λ _.
                              if-Returns (Plain b) (t == 6) _ _ (λ _. Plain-field b _ _ (λ _. refl))
                                (λ _.
                                  if-Returns (Plain b) (t == 7) _ _
                                    (λ _. Plain-field b _ _ (λ _. refl))
                                    (λ _.
                                      if-Returns (Plain b) (t == 8) _ _
                                        (λ e. absurd (or_not_true _ _ h (inl e)))
                                        (λ _.
                                          if-Returns (Plain b) (t == 9) _ _
                                            (λ _. Plain-field b _ _ (λ _. refl))
                                            (λ _.
                                              if-Returns (Plain b) (t == 10) _ _
                                                (λ _. Plain-field b _ _ (λ _. refl))
                                                (λ _.
                                                  if-Returns (Plain b) (t == 11) _ _
                                                    (λ _. Plain-field b _ _ (λ _. refl))
                                                    (λ _.
                                                      if-Returns (Plain b) (t == 12) _ _
                                                        (λ _. Plain-field b _ _ (λ _. refl))
                                                        (λ _.
                                                          if-Returns (Plain b) (t == 13) _ _
                                                            (λ _. Plain-field b _ _ (λ _. refl))
                                                            (λ _.
                                                            if-Returns (Plain b) (t == 14) _ _
                                                            (λ e.
                                                            absurd (or_not_true _ _ h (inr e)))
                                                            (λ _.
                                                            err-Returns (Plain b) _)))))))))))))))

  guard_err :
      {A : Type 0} (t : Bool) (x : IoError) (m : Result IoError A) (y : A)
      → t ≡ true
      → ¬ ((if t then err x else m) ≡ ok y)
  guard_err true x m y h e = cc
  guard_err false x m y h e = cc

  guard_ok :
      {A : Type 0} (t : Bool) (x : IoError) (m : Result IoError A) (y : A)
      → t ≡ false
      → (if t then err x else m) ≡ ok y
      → m ≡ ok y
  guard_ok true x m y h e = cc
  guard_ok false x m y h e = e

  -- Whatever a `NonDelegateAction` is read as is no delegate.
  pub non_delegate-Reads :
      (n : Codec (NonDelegateAction b)) → Reads (IsPlain b) (Codec.get_non_delegate b c n)
  unfolding Codec.get_non_delegate Defs.inner
  non_delegate-Reads n r (NonDelegateAction.non_delegate a) rest e =
      let ((t, r'), _, e') = >>=-eq-ok (b.u8.get r) _ e in
      elim (Bool-cases (Codec.is_delegate_variant b c n t)) [
        | inl d ↦ absurd (guard_err _ _ _ _ d e')
        | inr p ↦
            let e'' = guard_ok _ _ _ _ p e' in
            let ((a', r''), read, last) = >>=-eq-ok (Codec.deserialize_variant b c n t r') _ e'' in
            let same : a' ≡ a = cc in
            ap (Defs.is_delegate b) (sym same) ∙ variant-Plain n t r' p a' r'' read
      ]

-- ===== src/Status/Order.antt =====
-- The order of `TxExecutionStatus` is a partial order, and the tests are upward closed in it.
use Prim.Native.Nat.{compare, Ordering}
use mathlib.Core.Bool.{false≢true}
use near_kit_rs.Prelude.{
  ℕ, ◌≤◌, ◌≡◌, ◌↔◌, refl, sym, ap, ◌∙◌, true, false, Bool-cases, inl, inr, some, arith, ◌==◌,
  if◌then◌else◌,
}
use near_kit_rs.Status.Defs.{
  TxExecutionStatus, nothing, included, executed_optimistic, included_final, executed, final,
  is_executed, is_block_final, index, execution_level, finality_level, combine, partial_cmp, le,
}

of_index : ℕ → TxExecutionStatus
of_index n =
    if n == 0
    then nothing
    else if n == 1
    then included
    else if n == 2
    then executed_optimistic
    else if n == 3
    then included_final
    else if n == 4
    then executed
    else final

of_index-index : (s : TxExecutionStatus) → of_index (index s) ≡ s
unfolding of_index
of_index-index nothing = refl
of_index-index included = refl
of_index-index executed_optimistic = refl
of_index-index included_final = refl
of_index-index executed = refl
of_index-index final = refl

of_levels : ℕ → ℕ → TxExecutionStatus
of_levels e f =
    if e == 0
    then nothing
    else if e == 3
    then final
    else if e == 1
    then (if f == 1 then included else included_final)
    else (if f == 1 then executed_optimistic else executed)

of_levels-levels : (s : TxExecutionStatus) → of_levels (execution_level s) (finality_level s) ≡ s
unfolding of_levels
of_levels-levels nothing = refl
of_levels-levels included = refl
of_levels-levels executed_optimistic = refl
of_levels-levels included_final = refl
of_levels-levels executed = refl
of_levels-levels final = refl

levels_decide :
    (e f e' f' : ℕ)
    → (elim (combine (compare e e') (compare f f')) [
      | some Ordering.lt ↦ true
      | some Ordering.eq ↦ true
      | _ ↦ false
    ]
        ≡ true)
      ↔ ((e ≤ e') × (f ≤ f'))
levels_decide e f e' f' = (λ h. ground arith, λ (h, k). ground arith)

-- One execution status is at most another exactly when both its execution level and its finality
-- level are.
pub le_iff :
    (a b : TxExecutionStatus)
    → (le a b ≡ true)
      ↔ ((execution_level a ≤ execution_level b) × (finality_level a ≤ finality_level b))
unfolding le partial_cmp
le_iff a b = elim (Bool-cases (index a == index b)) [
  | inl y ↦
      let same_index : index a ≡ index b = ground arith in
      let same : a ≡ b = sym (of_index-index a) ∙ ap of_index same_index ∙ of_index-index b in
      rw (le, partial_cmp, y)
        (λ _. (refl_le (ap execution_level same), refl_le (ap finality_level same)), λ _. refl)
  | inr n ↦
      rw (le, partial_cmp, n)
        (levels_decide (execution_level a) (finality_level a) (execution_level b)
          (finality_level b))
]
  where
    refl_le : {n m : ℕ} → n ≡ m → n ≤ m
    refl_le h = omega arith

-- `<=` on execution statuses is reflexive, antisymmetric and transitive, with the least element
-- `None` and the greatest element `Final`.
pub le_order :
    (a b c : TxExecutionStatus)
    → (le a a ≡ true)
      × (le a b ≡ true → le b a ≡ true → a ≡ b)
      × (le a b ≡ true → le b c ≡ true → le a c ≡ true)
      × (le nothing a ≡ true)
      × (le a final ≡ true)
le_order a b c =
    let (ab, ab') = le_iff a b in
    let (ba, _) = le_iff b a in
    let (bc, _) = le_iff b c in
    (
      (le_iff a a).1 (omega arith, omega arith),
      (λ h k.
          let (e, f) = ab h in
          let (e', f') = ba k in
          let same_e : execution_level a ≡ execution_level b = omega arith in
          let same_f : finality_level a ≡ finality_level b = omega arith in
          sym (of_levels-levels a)
          ∙ ap (λ e. of_levels e (finality_level a)) same_e
          ∙ ap (of_levels (execution_level b)) same_f
          ∙ of_levels-levels b),
      (λ h k.
          let (e, f) = ab h in let (e', f') = bc k in (le_iff a c).1 (omega arith, omega arith)),
      (le_iff nothing a).1 (omega arith, omega arith),
      (le_iff a final).1 (low_e a, low_f a),
    )
  where
    low_e : (s : TxExecutionStatus) → execution_level s ≤ 3
    low_e nothing = omega arith
    low_e included = omega arith
    low_e executed_optimistic = omega arith
    low_e included_final = omega arith
    low_e executed = omega arith
    low_e final = omega arith

    low_f : (s : TxExecutionStatus) → finality_level s ≤ 3
    low_f nothing = omega arith
    low_f included = omega arith
    low_f executed_optimistic = omega arith
    low_f included_final = omega arith
    low_f executed = omega arith
    low_f final = omega arith

executed_iff : (s : TxExecutionStatus) → (is_executed s ≡ true) ↔ (2 ≤ execution_level s)
unfolding is_executed
executed_iff nothing = (λ h. absurd (false≢true h), λ h. absurd (omega arith))
executed_iff included = (λ h. absurd (false≢true h), λ h. absurd (omega arith))
executed_iff executed_optimistic = (λ _. omega arith, λ _. refl)
executed_iff included_final = (λ h. absurd (false≢true h), λ h. absurd (omega arith))
executed_iff executed = (λ _. omega arith, λ _. refl)
executed_iff final = (λ _. omega arith, λ _. refl)

block_final_iff : (s : TxExecutionStatus) → (is_block_final s ≡ true) ↔ (2 ≤ finality_level s)
unfolding is_block_final
block_final_iff nothing = (λ h. absurd (false≢true h), λ h. absurd (omega arith))
block_final_iff included = (λ h. absurd (false≢true h), λ h. absurd (omega arith))
block_final_iff executed_optimistic = (λ h. absurd (false≢true h), λ h. absurd (omega arith))
block_final_iff included_final = (λ _. omega arith, λ _. refl)
block_final_iff executed = (λ _. omega arith, λ _. refl)
block_final_iff final = (λ _. omega arith, λ _. refl)

-- A status at least as high as one that is executed, or whose block is final, is so too; a status
-- is both exactly when it is at least `Executed`.
pub le_upward :
    (a b : TxExecutionStatus)
    → (le a b ≡ true → is_executed a ≡ true → is_executed b ≡ true)
      × (le a b ≡ true → is_block_final a ≡ true → is_block_final b ≡ true)
      × ((le executed b ≡ true) ↔ ((is_executed b ≡ true) × (is_block_final b ≡ true)))
le_upward a b =
    let (ab, _) = le_iff a b in
    let (eb, eb') = le_iff executed b in
    let (xa, _) = executed_iff a in
    let (xb, xb') = executed_iff b in
    let (fa, _) = block_final_iff a in
    let (fb, fb') = block_final_iff b in
    (
      (λ h k. let (e, _) = ab h in let x = xa k in xb' (omega arith)),
      (λ h k. let (_, f) = ab h in let x = fa k in fb' (omega arith)),
      (λ h. let (e, f) = eb h in (xb' e, fb' f), λ (x, f). eb' (xb x, fb f)),
    )

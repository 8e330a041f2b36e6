-- ===== src/Status/Diamond.antt =====
-- The order of `TxExecutionStatus` that types/block_reference.rs documents as a diamond, by its
-- edges, without the levels that the code compares.
use near_kit_rs.Prelude.{◌≡◌, ◌↔◌, refl, true}
use near_kit_rs.Status.Defs.{
  TxExecutionStatus, nothing, included, executed_optimistic, included_final, executed, final, le,
  partial_cmp,
}
use near_kit_rs.Status.Order.{le_order}

-- The edges: from `Included` one way over `ExecutedOptimistic`, the other over `IncludedFinal`.
pub data Below : TxExecutionStatus → TxExecutionStatus → Type 0 where
  nothing_included : Below nothing included
  included_executed_optimistic : Below included executed_optimistic
  included_included_final : Below included included_final
  executed_optimistic_executed : Below executed_optimistic executed
  included_final_executed : Below included_final executed
  executed_final : Below executed final

pub data Reaches : TxExecutionStatus → TxExecutionStatus → Type 0 where
  stay : {a : TxExecutionStatus} → Reaches a a
  climb : {a b c : TxExecutionStatus} → Below a b → Reaches b c → Reaches a c

Below-le : {a b : TxExecutionStatus} → Below a b → le a b ≡ true
unfolding le partial_cmp
Below-le nothing_included = refl
Below-le included_executed_optimistic = refl
Below-le included_included_final = refl
Below-le executed_optimistic_executed = refl
Below-le included_final_executed = refl
Below-le executed_final = refl

Reaches-le : {a b : TxExecutionStatus} → Reaches a b → le a b ≡ true
Reaches-le {a} stay = (le_order a a a).0
Reaches-le {a} {b} (climb {b = middle} edge path) =
    let (_, _, transitive, _, _) = le_order a middle b in
    transitive (Below-le edge) (Reaches-le path)

le-Reaches : (a b : TxExecutionStatus) → le a b ≡ true → Reaches a b
unfolding le partial_cmp
le-Reaches nothing nothing h = stay
le-Reaches nothing included h = climb nothing_included stay
le-Reaches nothing executed_optimistic h =
    climb nothing_included (climb included_executed_optimistic stay)
le-Reaches nothing included_final h = climb nothing_included (climb included_included_final stay)
le-Reaches nothing executed h =
    climb nothing_included
      (climb included_executed_optimistic (climb executed_optimistic_executed stay))
le-Reaches nothing final h = climb nothing_included (
    climb included_executed_optimistic
      (climb executed_optimistic_executed (climb executed_final stay)))
le-Reaches included included h = stay
le-Reaches included executed_optimistic h = climb included_executed_optimistic stay
le-Reaches included included_final h = climb included_included_final stay
le-Reaches included executed h =
    climb included_executed_optimistic (climb executed_optimistic_executed stay)
le-Reaches included final h =
    climb included_executed_optimistic
      (climb executed_optimistic_executed (climb executed_final stay))
le-Reaches executed_optimistic executed_optimistic h = stay
le-Reaches executed_optimistic executed h = climb executed_optimistic_executed stay
le-Reaches executed_optimistic final h =
    climb executed_optimistic_executed (climb executed_final stay)
le-Reaches included_final included_final h = stay
le-Reaches included_final executed h = climb included_final_executed stay
le-Reaches included_final final h = climb included_final_executed (climb executed_final stay)
le-Reaches executed executed h = stay
le-Reaches executed final h = climb executed_final stay
le-Reaches final final h = stay
le-Reaches a b h = cc

-- One execution status is at most another exactly when a path of edges of the documented diamond
-- leads from it to the other.
pub le-Reaches_iff : (a b : TxExecutionStatus) → (le a b ≡ true) ↔ Reaches a b
le-Reaches_iff a b = (le-Reaches a b, Reaches-le)

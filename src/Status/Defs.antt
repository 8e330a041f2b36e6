-- ===== src/Status/Defs.antt =====
-- `TxExecutionStatus` of types/block_reference.rs, its tests and its order.
use Prim.Native.Nat.{compare, Ordering}
use near_kit_rs.Prelude.{ℕ, Bool, true, false, Option, none, some, ◌==◌, if◌then◌else◌}

pub data TxExecutionStatus : Type 0 where
  nothing included executed_optimistic included_final executed final : TxExecutionStatus

abbrev pub default_status : TxExecutionStatus
default_status = executed_optimistic

unfoldable pub is_executed : TxExecutionStatus → Bool
is_executed executed_optimistic = true
is_executed executed = true
is_executed final = true
is_executed _ = false

unfoldable pub is_block_final : TxExecutionStatus → Bool
is_block_final included_final = true
is_block_final executed = true
is_block_final final = true
is_block_final _ = false

unfoldable pub is_final : TxExecutionStatus → Bool
is_final final = true
is_final _ = false

-- The derived `==` compares the indices of the variants.
abbrev pub index : TxExecutionStatus → ℕ
index nothing = 0
index included = 1
index executed_optimistic = 2
index included_final = 3
index executed = 4
index final = 5

-- The place of a status: how far it is executed, and how final its block is.
abbrev pub execution_level : TxExecutionStatus → ℕ
execution_level nothing = 0
execution_level included = 1
execution_level executed_optimistic = 2
execution_level included_final = 1
execution_level executed = 2
execution_level final = 3

abbrev pub finality_level : TxExecutionStatus → ℕ
finality_level nothing = 0
finality_level included = 1
finality_level executed_optimistic = 1
finality_level included_final = 2
finality_level executed = 2
finality_level final = 3

-- The last `match` of `partial_cmp`.
abbrev pub combine : Ordering → Ordering → Option Ordering
combine Ordering.eq Ordering.eq = some Ordering.eq
combine Ordering.lt Ordering.lt = some Ordering.lt
combine Ordering.lt Ordering.eq = some Ordering.lt
combine Ordering.eq Ordering.lt = some Ordering.lt
combine Ordering.gt Ordering.gt = some Ordering.gt
combine Ordering.gt Ordering.eq = some Ordering.gt
combine Ordering.eq Ordering.gt = some Ordering.gt
combine _ _ = none

unfoldable pub partial_cmp : TxExecutionStatus → TxExecutionStatus → Option Ordering
partial_cmp a b =
    if index a == index b
    then some Ordering.eq
    else combine (compare (execution_level a) (execution_level b))
        (compare (finality_level a) (finality_level b))

-- `<=`, as the trait derives it from `partial_cmp`.
unfoldable pub le : TxExecutionStatus → TxExecutionStatus → Bool
unfolding partial_cmp
le a b = elim (partial_cmp a b) [ some Ordering.lt ↦ true | some Ordering.eq ↦ true | _ ↦ false ]

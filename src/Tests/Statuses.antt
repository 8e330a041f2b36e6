-- ===== src/Tests/Statuses.antt =====
-- Concrete statuses.
use near_kit_rs.Prelude.{◌≡◌, ◌↔◌, true}
use near_kit_rs.Status.{executed_optimistic, included_final, le}
use near_kit_rs.Status.Diamond.{Reaches, le-Reaches_iff}

le-Reaches_iff_example :
    (le executed_optimistic included_final ≡ true) ↔ Reaches executed_optimistic included_final
le-Reaches_iff_example = le-Reaches_iff executed_optimistic included_final

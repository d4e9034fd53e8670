-- ===== src/Mula/Ordering.antt =====
-- `ORDER BY priority ASC, created_at ASC`: NULL comes last, and rows that compare equal keep the
-- order of the table.
pub mod Sorted
use nl_kat_coordination.Prelude.{
  sort_by, List, [], ◌∷◌, Option, none, some, Bool, true, false, ◌&&◌, ◌||◌, ℤ, leb, leb_ℤ, eq_ℤ,
  if◌then◌else◌,
}
use nl_kat_coordination.Mula.Models.{Task}

-- NULLS LAST, the default of PostgreSQL for an ascending order.
abbrev pub priority_le : Option ℤ → Option ℤ → Bool
priority_le (some a) (some b) = leb_ℤ a b
priority_le (some a) none = true
priority_le none (some b) = false
priority_le none none = true

-- `t` may stand before `u`.
unfoldable pub precedes : Task → Task → Bool
precedes t u =
    if priority_le t.priority u.priority
    then (if priority_le u.priority t.priority then leb t.created_at u.created_at else true)
    else false

unfoldable pub order_by : List Task → List Task
order_by ts = sort_by precedes ts

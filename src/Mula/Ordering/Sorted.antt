-- ===== src/Mula/Ordering/Sorted.antt =====
-- The order of the queue is total and transitive, so `order_by` sorts by it.
use nl_kat_coordination.Prelude.{
  Memᴰ, mem-sort_by, mem_of_sort_by, List, Option, none, some, true, false, ℤ, leb_ℤ_total,
  leb_ℤ_trans, ◌≡◌, refl, arith, IsSorted, sort_by-IsSorted,
}
use nl_kat_coordination.Mula.Models.{Task}
use nl_kat_coordination.Mula.Ordering.{priority_le, precedes, order_by}

priority_le_total : (a b : Option ℤ) → priority_le a b ≡ false → priority_le b a ≡ true
priority_le_total (some a) (some b) h = leb_ℤ_total a b h
priority_le_total none (some b) h = refl
priority_le_total (some a) none h = ground arith
priority_le_total none none h = refl

priority_le_trans :
    (a b c : Option ℤ) → priority_le a b ≡ true → priority_le b c ≡ true → priority_le a c ≡ true
priority_le_trans (some a) (some b) (some c) h k = leb_ℤ_trans a b c h k
priority_le_trans (some a) b none h k = refl
priority_le_trans (some a) none (some c) h k = ground arith
priority_le_trans none (some b) c h k = ground arith
priority_le_trans none none (some c) h k = ground arith
priority_le_trans none none none h k = refl

pub precedes_total : (t u : Task) → precedes t u ≡ false → precedes u t ≡ true
unfolding precedes
precedes_total t u h = ground (arith, priority_le_total t.priority u.priority)

pub precedes_trans :
    (t u v : Task) → precedes t u ≡ true → precedes u v ≡ true → precedes t v ≡ true
unfolding precedes
precedes_trans t u v h k = ground (
  arith,
  priority_le_trans t.priority u.priority v.priority,
  priority_le_trans v.priority t.priority u.priority,
  priority_le_trans u.priority v.priority t.priority,
)

pub order_by-IsSorted : (ts : List Task) → IsSorted precedes (order_by ts)
unfolding order_by
order_by-IsSorted ts = sort_by-IsSorted precedes precedes_total precedes_trans ts

pub mem-order_by : {t : Task} (ts : List Task) → Memᴰ t (order_by ts) → Memᴰ t ts
unfolding order_by
mem-order_by ts m = mem-sort_by precedes ts m

pub mem_of_order_by : {t : Task} (ts : List Task) → Memᴰ t ts → Memᴰ t (order_by ts)
unfolding order_by
mem_of_order_by ts m = mem_of_sort_by precedes m

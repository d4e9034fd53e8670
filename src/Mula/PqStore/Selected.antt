-- ===== src/Mula/PqStore/Selected.antt =====
-- What the pop queries select: QUEUED rows of the scheduler, in the order of the queue.
use nl_kat_coordination.Prelude.{
  IsSorted, take-IsSorted, take_least, ℕ, String, List, Option, none, some, Bool, true, ◌&&◌, ◌≡◌,
  arith, Memᴰ, inl, ◌⊎◌, mem-keep, mem-keep_of, mem_of_mem-take,
}
use nl_kat_coordination.Mula.Models.{Task}
use nl_kat_coordination.Mula.Database.{Db}
use nl_kat_coordination.Mula.Ordering.{precedes, order_by}
use nl_kat_coordination.Mula.Ordering.Sorted.{order_by-IsSorted, mem-order_by, mem_of_order_by}
use nl_kat_coordination.Mula.PqStore.{is_queued, passes, build_pop_query, limit_to}

pub mem-limit_to :
    (limit : Option ℕ) {x : Task} (ts : List Task) → Memᴰ x (limit_to limit ts) → Memᴰ x ts
mem-limit_to none ts m = m
mem-limit_to (some n) ts m = mem_of_mem-take n _ ts m

pub limit_to-IsSorted :
    (limit : Option ℕ) (ts : List Task)
    → IsSorted precedes ts
    → IsSorted precedes (limit_to limit ts)
limit_to-IsSorted none ts h = h
limit_to-IsSorted (some n) ts h = take-IsSorted precedes n ts h

pub limit_to_least :
    (limit : Option ℕ) {x y : Task} (ts : List Task)
    → IsSorted precedes ts
    → Memᴰ x (limit_to limit ts)
    → Memᴰ y ts
    → Memᴰ y (limit_to limit ts) ⊎ (precedes x y ≡ true)
limit_to_least none ts h m k = inl k
limit_to_least (some n) ts h m k = take_least precedes n ts h m k

-- A row of the table that waits in the queue of `sid` and passes the filters.
pub record IsWaiting (sid : String) (filters : Option (Task → Bool)) (db : Db) (t : Task)
    : Type 0 where
  pub stored : Memᴰ t db.tasks
  pub queued : is_queued sid t ≡ true
  pub passing : passes filters t ≡ true

module _ (sid : String) (filters : Option (Task → Bool)) (db : Db) where
  pub query-IsWaiting :
      {t : Task} → Memᴰ t (build_pop_query sid filters db) → IsWaiting sid filters db t
  unfolding build_pop_query
  query-IsWaiting {t} m =
      let (stored, e) = mem-keep (λ t. is_queued sid t && passes filters t) t db.tasks m in
      record { stored = stored; queued = ground arith; passing = ground arith }

  pub mem-query_of :
      {t : Task} → IsWaiting sid filters db t → Memᴰ t (build_pop_query sid filters db)
  unfolding build_pop_query
  mem-query_of {t} w =
      mem-keep_of (λ t. is_queued sid t && passes filters t) w.stored
        (ground (arith, w.queued, w.passing))

  abbrev pub selected : Option ℕ → List Task
  selected limit = limit_to limit (order_by (build_pop_query sid filters db))

  pub selected-IsWaiting :
      (limit : Option ℕ) {t : Task} → Memᴰ t (selected limit) → IsWaiting sid filters db t
  selected-IsWaiting limit m = query-IsWaiting (mem-order_by _ (mem-limit_to limit _ m))

  pub selected-IsSorted : (limit : Option ℕ) → IsSorted precedes (selected limit)
  selected-IsSorted limit = limit_to-IsSorted limit _ (order_by-IsSorted _)

  pub selected_least :
      (limit : Option ℕ) {x y : Task}
      → Memᴰ x (selected limit)
      → IsWaiting sid filters db y
      → Memᴰ y (selected limit) ⊎ (precedes x y ≡ true)
  selected_least limit m w =
      limit_to_least limit _ (order_by-IsSorted _) m (mem_of_order_by _ (mem-query_of w))

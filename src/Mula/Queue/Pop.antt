-- ===== src/Mula/Queue/Pop.antt =====
-- What `pop` returns and what it leaves.
use nl_kat_coordination.Prelude.{
  IsSorted, ℕ, ◌<◌, String, List, [], ◌∷◌, map, Option, none, some, Bool, true, false, ◌≡◌, ◌≢◌,
  refl, sym, ap, subst, ◌∙◌, arith, Memᴰ, inl, inr, ◌⊎◌, ◌==◌, ==_iff, length, take-all,
  any_of-map_of, any_of-map_exists, eq_of_count_of, Bool-cases, mem-map, mem-map_of,
}
use mathlib.Core.Bool.{false≢true}
use nl_kat_coordination.Mula.Models.{Task, TaskStatus}
use nl_kat_coordination.Mula.Database.{Db, ok}
use nl_kat_coordination.Mula.Database.Consistent.{IsConsistent}
use nl_kat_coordination.Mula.Ordering.{precedes}
use nl_kat_coordination.Mula.Ordering.Sorted.{mem_of_order_by}
use nl_kat_coordination.Mula.PqStore
use nl_kat_coordination.Mula.PqStore.{is_queued, is_listed, with_status, build_pop_query, limit_to}
use nl_kat_coordination.Mula.PqStore.Selected.{
  IsWaiting, selected, selected-IsWaiting, selected-IsSorted, selected_least, mem-query_of,
}
use nl_kat_coordination.Mula.Queue.{PriorityQueue, pop, dispatch_items}
use nl_kat_coordination.Mula.Queue.Dispatch.{ids_of, mark, dispatch_items_lem}

-- The specification of a selection of at most `limit` of the waiting rows.
pub record IsBest (sid : String) (limit : Option ℕ) (filters : Option (Task → Bool)) (db : Db)
    (items : List Task) : Type 0 where
  pub sorted : IsSorted precedes items
  pub waiting : (t : Task) → Memᴰ t items → IsWaiting sid filters db t
  pub least :
      (t u : Task)
      → Memᴰ t items
      → IsWaiting sid filters db u
      → Memᴰ u items ⊎ (precedes t u ≡ true)
  pub exhaustive :
      (u : Task)
      → IsWaiting sid filters db u
      → ((n : ℕ) → limit ≡ some n → length items < n)
      → Memᴰ u items

selected_exhaustive :
    (sid : String) (filters : Option (Task → Bool)) (db : Db) (limit : Option ℕ) (u : Task)
    → IsWaiting sid filters db u
    → ((n : ℕ) → limit ≡ some n → length (selected sid filters db limit) < n)
    → Memᴰ u (selected sid filters db limit)
selected_exhaustive sid filters db none u w small =
    mem_of_order_by _ (mem-query_of sid filters db w)
selected_exhaustive sid filters db (some n) u w small =
    rw (take-all n _ (small n refl)) (mem_of_order_by _ (mem-query_of sid filters db w))

selected-IsBest :
    (sid : String) (limit : Option ℕ) (filters : Option (Task → Bool)) (db : Db)
    → IsBest sid limit filters db (selected sid filters db limit)
selected-IsBest sid limit filters db = record {
  sorted = selected-IsSorted sid filters db limit;
  waiting = λ t m. selected-IsWaiting sid filters db limit m;
  least = λ t u m w. selected_least sid filters db limit m w;
  exhaustive = λ u w small. selected_exhaustive sid filters db limit u w small;
}

mark_listed :
    (sid : String) (items : List Task) (now : ℕ) (t : Task)
    → is_queued sid t ≡ true
    → Memᴰ t items
    → mark sid items now t ≡ with_status TaskStatus.dispatched now t
mark_listed sid items now t queued m =
    ground (arith, any_of-map_of (λ u. u.id) (λ i. i == t.id) m ((==_iff t.id t.id).1 refl))

mark_other :
    (sid : String) (items : List Task) (now : ℕ) (t : Task)
    → is_listed (ids_of items) t.id ≡ false
    → mark sid items now t ≡ t
mark_other sid items now t e = ground arith

mark-queued :
    (sid : String) (items : List Task) (now : ℕ) (t : Task)
    → is_queued sid (mark sid items now t) ≡ true
    → is_listed (ids_of items) t.id ≡ false
mark-queued sid items now t h = ground arith

pub id-mark :
    (sid : String) (items : List Task) (now : ℕ) (t : Task) → (mark sid items now t).id ≡ t.id
id-mark sid items now t = ground arith

module _ (q : PriorityQueue) (now : ℕ) (limit : Option ℕ) (filters : Option (Task → Bool)) (db : Db)
    (c : IsConsistent db) where
  pub pop_lem : pop q now limit filters db ≡ (
    ok (selected q.pq_id filters db limit),
    record db { tasks = map (mark q.pq_id (selected q.pq_id filters db limit) now) db.tasks },
  )
  unfolding pop PqStore.pop
  pop_lem =
      dispatch_items_lem q now (selected q.pq_id filters db limit) db c
        (λ t m. let w = selected-IsWaiting q.pq_id filters db limit m in (w.stored, w.queued))

  -- In a consistent table a pop never fails. It returns waiting tasks of the queue in the order of
  -- priority and age, none of them behind a waiting task that it leaves, and leaves a waiting task
  -- only if it has reached the limit.
  pub pop-IsBest :
      (items : List Task) × ((pop q now limit filters db).0 ≡ ok items)
      × IsBest q.pq_id limit filters db items
  pop-IsBest = (
    selected q.pq_id filters db limit,
    ap (λ r. r.0) pop_lem,
    selected-IsBest q.pq_id limit filters db,
  )

  -- The table after a pop, row by row.
  pub pop-tasks :
      (pop q now limit filters db).1.tasks
      ≡ map (mark q.pq_id (selected q.pq_id filters db limit) now) db.tasks
  pop-tasks = ap (λ r. r.1.tasks) pop_lem

  popped-eq :
      {items : List Task}
      → (pop q now limit filters db).0 ≡ ok items
      → items ≡ selected q.pq_id filters db limit
  popped-eq e = cc (e, ap (λ r. r.0) pop_lem)

  listed-popped :
      (t : Task)
      → Memᴰ t db.tasks
      → is_listed (ids_of (selected q.pq_id filters db limit)) t.id ≡ true
      → Memᴰ t (selected q.pq_id filters db limit)
  listed-popped t m e =
      let (u, n, k) =
        any_of-map_exists (λ u. u.id) (λ i. i == t.id) (selected q.pq_id filters db limit) e in
      let stored = (selected-IsWaiting q.pq_id filters db limit n).stored in
      subst (λ v. Memᴰ v (selected q.pq_id filters db limit))
        (eq_of_count_of (λ v. v.id == t.id) stored m k ((==_iff t.id t.id).1 refl) (c.ids t.id)) n

  row_after_pop :
      (t : Task)
      → Memᴰ t db.tasks
      → Memᴰ t (selected q.pq_id filters db limit)
          × Memᴰ (with_status TaskStatus.dispatched now t) (pop q now limit filters db).1.tasks
        ⊎ (is_listed (ids_of (selected q.pq_id filters db limit)) t.id ≡ false)
          × Memᴰ t (pop q now limit filters db).1.tasks
  row_after_pop t m =
      let items = selected q.pq_id filters db limit in
      let stays = mem-map_of (mark q.pq_id items now) m in
      elim (Bool-cases (is_listed (ids_of items) t.id)) [
        | inl e ↦
            let n = listed-popped t m e in
            let w = selected-IsWaiting q.pq_id filters db limit n in
            inl (n, rw (pop-tasks, ← mark_listed q.pq_id items now t w.queued n) stays)
        | inr e ↦ inr (e, rw (pop-tasks, ← mark_other q.pq_id items now t e) stays)
      ]

  -- Each row of the table before a pop is either a popped task, and then it stands in the table as
  -- DISPATCHED with the time of the pop, or its id is none of the popped ones, and then it stands
  -- there unchanged.
  pub pop_dispatches :
      (items : List Task) (t : Task)
      → (pop q now limit filters db).0 ≡ ok items
      → Memᴰ t db.tasks
      → Memᴰ t items
          × Memᴰ (with_status TaskStatus.dispatched now t) (pop q now limit filters db).1.tasks
        ⊎ (is_listed (ids_of items) t.id ≡ false) × Memᴰ t (pop q now limit filters db).1.tasks
  pop_dispatches items t e m = rw (popped-eq e) (row_after_pop t m)

dispatched-eq :
    (q : PriorityQueue) (now : ℕ) (l items : List Task) (db : Db)
    → (dispatch_items q now l db).0 ≡ ok items
    → items ≡ l
unfolding dispatch_items PqStore.bulk_update_status
dispatched-eq q now [] items db e = cc
dispatched-eq q now (t ∷ ts) items db e = ground arith

popped-IsWaiting :
    (q : PriorityQueue) (now : ℕ) (limit : Option ℕ) (filters : Option (Task → Bool)) (db : Db)
    (items : List Task) (u : Task)
    → (pop q now limit filters db).0 ≡ ok items
    → Memᴰ u items
    → IsWaiting q.pq_id filters db u
unfolding pop PqStore.pop
popped-IsWaiting q now limit filters db items u e m =
    selected-IsWaiting q.pq_id filters db limit
      (subst (λ l. Memᴰ u l) (dispatched-eq q now (selected q.pq_id filters db limit) items db e) m)

not_again :
    (sid : String) (items ts : List Task) (now : ℕ) (t u : Task)
    → Memᴰ t items
    → Memᴰ u (map (mark sid items now) ts)
    → is_queued sid u ≡ true
    → t.id ≢ u.id
not_again sid items ts now t u m n queued same =
    let (x, _, e) = mem-map (mark sid items now) ts n in
    let hidden = mark-queued sid items now x (subst (λ v. is_queued sid v ≡ true) e queued) in
    let listed = any_of-map_of (λ v. v.id) (λ i. i == t.id) m ((==_iff t.id t.id).1 refl) in
    let one = same ∙ ap (λ v. v.id) e ∙ id-mark sid items now x in
    false≢true (sym hidden ∙ sym (ap (is_listed (ids_of items)) one) ∙ listed)

-- A task that one pop has returned is not returned by the next, whatever their times, limits and
-- filters: no task is handed to two workers.
pub pop_once :
    (q : PriorityQueue) (now now' : ℕ) (limit limit' : Option ℕ)
    (filters filters' : Option (Task → Bool)) (db : Db) (items items' : List Task) (t u : Task)
    → IsConsistent db
    → (pop q now limit filters db).0 ≡ ok items
    → (pop q now' limit' filters' (pop q now limit filters db).1).0 ≡ ok items'
    → Memᴰ t items
    → Memᴰ u items'
    → t.id ≢ u.id
pop_once q now now' limit limit' filters filters' db items items' t u c e e' m n =
    let w = popped-IsWaiting q now' limit' filters' (pop q now limit filters db).1 items' u e' n in
    not_again q.pq_id (selected q.pq_id filters db limit) db.tasks now t u
      (subst (λ l. Memᴰ t l) (popped-eq q now limit filters db c e) m)
      (subst (λ l. Memᴰ u l) (pop-tasks q now limit filters db c) w.stored) w.queued

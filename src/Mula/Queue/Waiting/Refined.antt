-- ===== src/Mula/Queue/Waiting/Refined.antt =====
-- Pops on the tables answer as the queue of waiting tasks does.
use nl_kat_coordination.Prelude.{
  ℕ, String, List, [], ◌∷◌, map, keep, keep-keep, count_of-map_mono, ◌≡◌, refl, sym, ap, ◌∙◌, subst,
  arith, ◌==◌,
}
use nl_kat_coordination.Mula.Models.{Task}
use nl_kat_coordination.Mula.Database.{Db, ok}
use nl_kat_coordination.Mula.Database.Consistent.{IsConsistent}
use nl_kat_coordination.Mula.Ordering.{order_by}
use nl_kat_coordination.Mula.PqStore.{is_queued, passes, limit_to, build_pop_query}
use nl_kat_coordination.Mula.PqStore.Selected.{selected, selected-IsWaiting}
use nl_kat_coordination.Mula.Queue.{PriorityQueue, pop}
use nl_kat_coordination.Mula.Queue.Dispatch.{mark, mark-KeepsActive, unique_active-map}
use nl_kat_coordination.Mula.Queue.Pop.{pop_lem, id-mark}
use nl_kat_coordination.Mula.Queue.Waiting.{
  PopRequest, waiting, first_tasks, without_tasks, served, popped,
}

-- Of the waiting rows, those that are marked no longer wait.
waiting-mark :
    (sid : String) (items : List Task) (now : ℕ) (ts : List Task)
    → keep (is_queued sid) (map (mark sid items now) ts)
      ≡ without_tasks items (keep (is_queued sid) ts)
waiting-mark sid items now [] = refl
waiting-mark sid items now (t ∷ ts) = ground (arith, waiting-mark sid items now ts)

selected-first_tasks :
    (sid : String) (r : PopRequest) (db : Db)
    → selected sid r.filters db r.limit ≡ first_tasks r (waiting sid db)
unfolding build_pop_query
selected-first_tasks sid r db =
    ap (λ z. limit_to r.limit (order_by z))
      (sym (keep-keep (passes r.filters) (is_queued sid) db.tasks))

module _ (q : PriorityQueue) (r : PopRequest) (db : Db) (c : IsConsistent db) where
  pop_tasks : List Task
  pop_tasks = map (mark q.pq_id (selected q.pq_id r.filters db r.limit) r.now) db.tasks

  pop_tasks-IsConsistent : IsConsistent (record db { tasks = pop_tasks })
  unfolding pop_tasks
  pop_tasks-IsConsistent =
      let items = selected q.pq_id r.filters db r.limit in
      let f = mark q.pq_id items r.now in
      record {
        ids = λ i. ground (
          arith,
          c.ids i,
          count_of-map_mono f (λ t. t.id == i) (λ t e. rw (id-mark q.pq_id items r.now t) at e)
              db.tasks,
        );
        active =
            unique_active-map f db.tasks (
              mark-KeepsActive q.pq_id items db c
                (λ t m.
                  let w = selected-IsWaiting q.pq_id r.filters db r.limit m in (w.stored, w.queued))
                r.now)
            ∙ c.active;
      }

  pop-answer : (pop q r.now r.limit r.filters db).0 ≡ ok (first_tasks r (waiting q.pq_id db))
  pop-answer =
      ap (λ z. z.0) (pop_lem q r.now r.limit r.filters db c)
      ∙ ap ok (selected-first_tasks q.pq_id r db)

  pop-waiting :
      waiting q.pq_id (pop q r.now r.limit r.filters db).1
      ≡ without_tasks (first_tasks r (waiting q.pq_id db)) (waiting q.pq_id db)
  pop-waiting =
      ap (λ z. waiting q.pq_id z.1) (pop_lem q r.now r.limit r.filters db c)
      ∙ waiting-mark q.pq_id (selected q.pq_id r.filters db r.limit) r.now db.tasks
      ∙ ap (λ z. without_tasks z (waiting q.pq_id db)) (selected-first_tasks q.pq_id r db)

  pop-IsConsistent : IsConsistent (pop q r.now r.limit r.filters db).1
  unfolding pop_tasks
  pop-IsConsistent =
      subst IsConsistent (sym (ap (λ z. z.1) (pop_lem q r.now r.limit r.filters db c)))
        pop_tasks-IsConsistent

-- In a consistent table, pops with any limits and filters, one after another, answer what a queue of
-- the waiting tasks answers, from which each pop takes the first tasks that pass its filters. None of
-- them fails.
pub popped-served :
    (q : PriorityQueue) (rs : List PopRequest) (db : Db)
    → IsConsistent db
    → popped q rs db ≡ map ok (served rs (waiting q.pq_id db))
unfolding popped served
popped-served q [] db c = refl
popped-served q (r ∷ rs) db c =
    rw
      (
        pop-answer q r db c,
        popped-served q rs (pop q r.now r.limit r.filters db).1 (pop-IsConsistent q r db c),
        pop-waiting q r db c,
      )
      refl

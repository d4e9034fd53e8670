-- ===== src/Mula/Queue/Bounds.antt =====
-- The size of the queue under push.
use nl_kat_coordination.Prelude.{ℕ, suc, ◌+◌, ◌≤◌, some, true, ◌≡◌, arith}
use nl_kat_coordination.Mula.Models.{Task, Hasher}
use nl_kat_coordination.Mula.Database.{Db, ok}
use nl_kat_coordination.Mula.PqStore
use nl_kat_coordination.Mula.PqStore.Sizes.{qsize-insert_task, qsize-update}
use nl_kat_coordination.Mula.Queue.{
  PriorityQueue, Pushed, above_one, full, update_item, patch, as_queued, push,
}
use nl_kat_coordination.Mula.Queue.Outcomes.{
  Outcome, kept, inserted, merged, replaced, push-Outcome,
}

module _ (h : Hasher) (q : PriorityQueue) (p : Pushed) (db : Db) where
  qsize-update_item :
      (p' : Pushed) (item : Task)
      → PqStore.qsize q.pq_id (update_item q p' item db).1 ≤ PqStore.qsize q.pq_id db
  unfolding update_item
  qsize-update_item p' item = ground (arith, qsize-update q.pq_id (patch p' item) db)

  qsize-Outcome :
      {after : Db}
      → Outcome h q p db after
      → PqStore.qsize q.pq_id after ≤ PqStore.qsize q.pq_id db + 1
  qsize-Outcome (kept e) = rw e (omega arith)
  qsize-Outcome (inserted _ _ _ e) = rw e (qsize-insert_task q.pq_id (as_queued h q p).task db)
  qsize-Outcome (merged _ _ _ item e) =
      rw e (omega (arith, qsize-update_item (as_queued h q p) item))
  qsize-Outcome (replaced item _ _ e) = rw e (omega (arith, qsize-update_item p item))

  room_of_ok :
      {t : Task} {m : ℕ}
      → q.maxsize ≡ some (suc m)
      → above_one p.task.priority ≡ true
      → (push h q p db).0 ≡ ok t
      → PqStore.qsize q.pq_id db ≤ m
  unfolding push full
  room_of_ok size prio good = ground arith

  pub qsize-push-le : PqStore.qsize q.pq_id (push h q p db).1 ≤ PqStore.qsize q.pq_id db + 1
  qsize-push-le = qsize-Outcome (push-Outcome h q p db)

  -- A push of a priority above 1 that returns a task leaves a queue with a maximum size within that
  -- size.
  pub push_within :
      (m : ℕ) {t : Task}
      → q.maxsize ≡ some (suc m)
      → above_one p.task.priority ≡ true
      → (push h q p db).0 ≡ ok t
      → PqStore.qsize q.pq_id (push h q p db).1 ≤ suc m
  push_within m size prio good = omega (arith, qsize-push-le, room_of_ok size prio good)

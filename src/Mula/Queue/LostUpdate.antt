-- ===== src/Mula/Queue/LostUpdate.antt =====
-- The update of a task that is on the queue writes the row whose id is the new task's.
use nl_kat_coordination.Prelude.{
  String, List, [], ◌∷◌, map, true, false, ◌&&◌, ◌≡◌, refl, sym, subst, arith, ◌==◌, any_of,
  if◌then◌else◌,
}
use nl_kat_coordination.Mula.Models.{Task}
use nl_kat_coordination.Mula.Database.{set_columns, write_tasks, Db, ok, unique_active}
use nl_kat_coordination.Mula.PqStore
use nl_kat_coordination.Mula.PqStore.{is_queued}
use nl_kat_coordination.Mula.Queue.{PriorityQueue, Pushed, patch, update_item}

update_none :
    (sid : String) (item : Task) (ts : List Task)
    → any_of (λ t. is_queued sid t && t.id == item.id) ts ≡ false
    → map (λ t. if is_queued sid t && t.id == item.id then item else t) ts ≡ ts
update_none sid item [] h = refl
update_none sid item (t ∷ ts) h = ground (arith, update_none sid item ts)

update-absent :
    (sid : String) (item : Task) (db : Db)
    → any_of (λ t. is_queued sid t && t.id == item.id) db.tasks ≡ false
    → unique_active db.tasks ≡ true
    → PqStore.update sid item db ≡ (ok tt, db)
unfolding PqStore.update set_columns write_tasks
update-absent sid item db absent valid = rw (absent, update_none sid item db.tasks absent, valid)

id-patch : (p : Pushed) (item : Task) → p.set.id ≡ true → (patch p item).id ≡ p.task.id
unfolding patch
id-patch p item given = rw given

-- Where the pushed task was given an id that no QUEUED task of the queue has, and the active tasks of a
-- schedule are unique, the update of the task on the queue succeeds and returns the updated task, but
-- the tables stay as they were.
pub update_lost :
    (q : PriorityQueue) (p : Pushed) (item : Task) (db : Db)
    → p.set.id ≡ true
    → any_of (λ t. is_queued q.pq_id t && t.id == p.task.id) db.tasks ≡ false
    → unique_active db.tasks ≡ true
    → update_item q p item db ≡ (ok (patch p item), db)
unfolding update_item
update_lost q p item db given absent valid =
    let absent' =
      subst (λ i. any_of (λ t. is_queued q.pq_id t && t.id == i) db.tasks ≡ false)
        (sym (id-patch p item given)) absent in
    rw (update-absent q.pq_id (patch p item) db absent' valid)

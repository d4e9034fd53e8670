-- ===== src/Mula/Queue/Outcomes.antt =====
-- What a push can have done to the tables: the four ways, with what the code tested on each.
use nl_kat_coordination.Prelude.{
  Option, none, some, true, ◌&&◌, ◌≡◌, refl, Bool-cases, Option-cases, String, inl, inr, ap, ◌∙◌,
}
use nl_kat_coordination.Mula.Models.{Task, Hasher}
use nl_kat_coordination.Mula.Database.{
  Db, Error, Result, ok, err, integrity, insert_task, resume, ix_tasks_active_per_schedule,
}
use nl_kat_coordination.Mula.PqStore
use nl_kat_coordination.Mula.Queue.{
  PriorityQueue, Pushed, above_one, any_queued_update, full, update_item, after_collision,
  on_insert, insert_item, as_queued, push_valid, push, get_item_by_identifier, create_hash,
  truthy_priority,
}
use nl_kat_coordination.Mula.Queue.Rejections.{insert_task-IsAtomic, db-get_active}

module _ (h : Hasher) (q : PriorityQueue) (p : Pushed) (db : Db) where
  pub data Outcome (after : Db) : Type 0 where
    kept : after ≡ db → Outcome after
    inserted :
        (key : String)
        → create_hash h q.item_type p.task.body ≡ some key
        → get_item_by_identifier h q p.task db ≡ none
        → after ≡ (insert_task (as_queued h q p).task db).1
        → Outcome after
    merged :
        (key : String)
        → create_hash h q.item_type p.task.body ≡ some key
        → get_item_by_identifier h q p.task db ≡ none
        → (item : Task) → after ≡ (update_item q (as_queued h q p) item db).1
        → Outcome after
    replaced :
        (item : Task)
        → get_item_by_identifier h q p.task db ≡ some item
        → any_queued_update q p.task item ≡ true
        → after ≡ (update_item q p item db).1
        → Outcome after

  module _ (key : String) (hashed : create_hash h q.item_type p.task.body ≡ some key) where
    collided-Outcome :
        (absent : get_item_by_identifier h q p.task db ≡ none) (found : Result (Option Task))
        (db' : Db)
        → db' ≡ db
        → Outcome (resume found (after_collision h q (as_queued h q p)) db').1
    unfolding after_collision
    collided-Outcome absent (ok none) db' e =
        inserted key hashed absent (ap (λ d. (insert_task (as_queued h q p).task d).1) e)
    collided-Outcome absent (ok (some item)) db' e =
        merged key hashed absent item (ap (λ d. (update_item q (as_queued h q p) item d).1) e)
    collided-Outcome absent (err _) db' e = kept e

    on_insert-Outcome :
        (absent : get_item_by_identifier h q p.task db ≡ none) (r : Result Task) (db' : Db)
        → db' ≡ (insert_task (as_queued h q p).task db).1
        → ((e : Error) → r ≡ err e → db' ≡ db)
        → Outcome (on_insert h q (as_queued h q p) r db').1
    unfolding on_insert
    on_insert-Outcome absent (ok t) db' e atomic = inserted key hashed absent e
    on_insert-Outcome absent (err (integrity ix_tasks_active_per_schedule)) db' e atomic =
        let s = (as_queued h q p).task.schedule_id in
        collided-Outcome absent (PqStore.get_active_task_by_schedule s db').0
          (PqStore.get_active_task_by_schedule s db').1 (db-get_active s db' ∙ atomic _ refl)
    on_insert-Outcome absent (err (integrity _)) db' e atomic = kept (atomic _ refl)
    on_insert-Outcome absent (err _) db' e atomic = kept (atomic _ refl)

    insert_item-Outcome :
        get_item_by_identifier h q p.task db ≡ none → Outcome (insert_item h q p db).1
    unfolding insert_item
    insert_item-Outcome absent =
        let t = (as_queued h q p).task in
        on_insert-Outcome absent (insert_task t db).0 (insert_task t db).1 refl
          (insert_task-IsAtomic t db)

    push_valid-Outcome :
        (o : Option Task)
        → get_item_by_identifier h q p.task db ≡ o
        → Outcome (push_valid h q p o db).1
    unfolding push_valid
    push_valid-Outcome none e = insert_item-Outcome e
    push_valid-Outcome (some item) e = elim (Bool-cases (any_queued_update q p.task item)) [
      | inl allowed ↦ rw allowed (replaced item e allowed refl)
      | inr denied ↦ rw denied (kept refl)
    ]

  pub push-Outcome : Outcome (push h q p db).1
  unfolding push
  push-Outcome = elim (Option-cases (create_hash h q.item_type p.task.body)) [
    | inl e ↦ rw e (kept refl)
    | inr (key, e) ↦ elim (Bool-cases (truthy_priority p.task.priority)) [
      | inr k ↦ rw (e, k) (kept refl)
      | inl k ↦ elim (Bool-cases (full q db && above_one p.task.priority)) [
        | inl f ↦ rw (e, k, f) (kept refl)
        | inr f ↦
            rw (e, k, f) (push_valid-Outcome key e (get_item_by_identifier h q p.task db) refl)
      ]
    ]
  ]

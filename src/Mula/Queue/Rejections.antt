-- ===== src/Mula/Queue/Rejections.antt =====
-- A push that raises has written nothing.
use nl_kat_coordination.Prelude.{ℕ, ◌∙◌, Option, none, some, ◌≡◌, refl, arith}
use nl_kat_coordination.Mula.Models.{Task, Hasher}
use nl_kat_coordination.Mula.Database.{
  set_columns, write_tasks, Db, Action, Error, Result, ok, err, integrity, insert_task, resume,
  ix_tasks_active_per_schedule,
}
use nl_kat_coordination.Mula.PqStore
use nl_kat_coordination.Mula.Queue.{
  PriorityQueue, Pushed, update_item, on_insert, after_collision, insert_item, as_queued,
  push_valid, push, get_item_by_identifier,
}

-- An action that raises leaves the tables as they were.
abbrev pub IsAtomic : {A : Type 0} → Action A → Type 0
IsAtomic m = (db : Db) (e : Error) → (m db).0 ≡ err e → (m db).1 ≡ db

pub insert_task-IsAtomic : (t : Task) → IsAtomic (insert_task t)
unfolding insert_task
insert_task-IsAtomic t db e h = ground arith

update_item-IsAtomic :
    (q : PriorityQueue) (p : Pushed) (item : Task) → IsAtomic (update_item q p item)
unfolding update_item PqStore.update set_columns write_tasks
update_item-IsAtomic q p item db e h = ground arith

after_collision-IsAtomic :
    (h : Hasher) (q : PriorityQueue) (p : Pushed) (o : Option Task)
    → IsAtomic (after_collision h q p o)
unfolding after_collision
after_collision-IsAtomic h q p none = insert_task-IsAtomic p.task
after_collision-IsAtomic h q p (some item) = update_item-IsAtomic q p item

resume-IsAtomic :
    {A B : Type 0} (r : Result A) (f : A → Action B)
    → ((a : A) → IsAtomic (f a))
    → IsAtomic (resume r f)
resume-IsAtomic (ok a) f k = k a
resume-IsAtomic (err e) f k = λ db e' h. refl

pub db-get_active : (s : Option ℕ) (db : Db) → (PqStore.get_active_task_by_schedule s db).1 ≡ db
unfolding PqStore.get_active_task_by_schedule
db-get_active s db = ground arith

module _ (h : Hasher) (q : PriorityQueue) where
  collision-IsAtomic :
      (p : Pushed) → IsAtomic (on_insert h q p (err (integrity ix_tasks_active_per_schedule)))
  unfolding on_insert
  collision-IsAtomic p db e fails =
      let found = PqStore.get_active_task_by_schedule p.task.schedule_id db in
      resume-IsAtomic found.0 (after_collision h q p) (after_collision-IsAtomic h q p) found.1 e
        fails
      ∙ db-get_active p.task.schedule_id db

  on_insert-IsAtomic : (p : Pushed) (r : Result Task) → IsAtomic (on_insert h q p r)
  unfolding on_insert
  on_insert-IsAtomic p (ok t) = λ db e k. refl
  on_insert-IsAtomic p (err (integrity ix_tasks_active_per_schedule)) = collision-IsAtomic p
  on_insert-IsAtomic p (err (integrity _)) = λ db e k. refl
  on_insert-IsAtomic p (err _) = λ db e k. refl

  after_insert :
      (p : Pushed) (r : Result Task) (db db' : Db)
      → ((e : Error) → r ≡ err e → db' ≡ db)
      → (e : Error) → (on_insert h q p r db').0 ≡ err e
      → (on_insert h q p r db').1 ≡ db
  after_insert p (ok t) db db' atomic e k = unfold on_insert in cc k
  after_insert p (err e') db db' atomic e k = on_insert-IsAtomic p (err e') db' e k ∙ atomic e' refl

  insert_item-IsAtomic : (p : Pushed) → IsAtomic (insert_item h q p)
  unfolding insert_item
  insert_item-IsAtomic p db e k =
      let t = (as_queued h q p).task in
      let (r, db') = insert_task t db in
      after_insert (as_queued h q p) r db db' (insert_task-IsAtomic t db) e k

  push_valid-IsAtomic : (p : Pushed) (o : Option Task) → IsAtomic (push_valid h q p o)
  unfolding push_valid
  push_valid-IsAtomic p none db e k = insert_item-IsAtomic p db e k
  push_valid-IsAtomic p (some item) db e k = ground (arith, update_item-IsAtomic q p item db e)

  -- Whatever the error, a push that raises leaves both tables as they were.
  pub push-IsAtomic :
      (p : Pushed) (db : Db) (e : Error) → (push h q p db).0 ≡ err e → (push h q p db).1 ≡ db
  unfolding push
  push-IsAtomic p db e k =
      ground (arith, push_valid-IsAtomic p (get_item_by_identifier h q p.task db) db e)

-- ===== src/Mula/Database/Consistent.antt =====
-- The constraints of `tasks` as an invariant, and the statements that keep it.
use nl_kat_coordination.Prelude.{
  ℕ, ◌≤◌, List, [], ◌∷◌, ◌++◌, true, false, ◌≡◌, refl, arith, ◌==◌, count_of, count_of-append,
  count_of-zero, any_of, any_of-append, count_of-map_mono, map, Bool, Bool-cases, inl, inr, ◌⊎◌,
  ◌&&◌, not, is_some, if◌then◌else◌,
}
use nl_kat_coordination.Mula.Models.{Task}
use nl_kat_coordination.Mula.Database.{
  Db, collides, unique_active, insert_task, write_tasks, set_columns, schedule_exists,
}

-- `tasks_pkey` and `ix_tasks_active_per_schedule` hold.
pub record IsConsistent (db : Db) : Type 0 where
  pub ids : (id : ℕ) → count_of (λ t. t.id == id) db.tasks ≤ 1
  pub active : unique_active db.tasks ≡ true

collides_comm : (t u : Task) → collides t u ≡ collides u t
collides_comm t u = ground arith

unique_active-append :
    (t : Task) (ts : List Task)
    → unique_active ts ≡ true
    → any_of (collides t) ts ≡ false
    → unique_active (ts ++ t ∷ []) ≡ true
unfolding unique_active
unique_active-append t [] h k = refl
unique_active-append t (u ∷ us) h k =
    ground
      (arith, any_of-append (collides u) us (t ∷ []), collides_comm t u, unique_active-append t us)

pub insert_task-IsConsistent :
    (t : Task) (db : Db) → IsConsistent db → IsConsistent (insert_task t db).1
unfolding insert_task
insert_task-IsConsistent t db c = record {
  ids = λ id. ground (
    arith,
    count_of-append (λ u. u.id == id) db.tasks (t ∷ []),
    c.ids id,
    c.ids t.id,
    count_of-zero (λ u. u.id == t.id) db.tasks,
  );
  active = ground (arith, unique_active-append t db.tasks c.active);
}

-- A statement that changes no id keeps the constraints: it is checked against the index.
pub write_tasks-IsConsistent :
    (f : Task → Task) (db : Db)
    → ((t : Task) → (f t).id ≡ t.id)
    → IsConsistent db
    → IsConsistent (write_tasks (map f db.tasks) db).1
unfolding write_tasks
write_tasks-IsConsistent f db same c = record {
  ids = λ id.
      ground
        (arith, c.ids id, count_of-map_mono f (λ t. t.id == id) (λ t e. rw same at e) db.tasks);
  active = ground (arith, c.active);
}

-- An update of the selected rows changes nothing, or is one that passes the other constraints.
pub set_columns-cases :
    (selected : Task → Bool) (item : Task) (db : Db)
    → ((set_columns selected item db).1 ≡ db)
      ⊎ ((set_columns selected item db).1
          ≡ (write_tasks (map (λ t. if selected t then item else t) db.tasks) db).1)
unfolding set_columns
set_columns-cases selected item db =
    elim (Bool-cases (any_of selected db.tasks && not (is_some item.type))) [
      | inl e ↦ inl (rw (set_columns, e) refl)
      | inr e ↦
          elim (Bool-cases (
            any_of selected db.tasks
            && (unique_active (map (λ t. if selected t then item else t) db.tasks)
                && not (schedule_exists item.schedule_id db.schedules)))) [
                  | inl k ↦ inl (rw (set_columns, e, k) refl)
                  | inr k ↦ inr (rw (set_columns, e, k) refl)
                ]
    ]

pub set_columns-IsConsistent :
    (selected : Task → Bool) (item : Task) (db : Db)
    → ((t : Task) → (if selected t then item else t).id ≡ t.id)
    → IsConsistent db
    → IsConsistent (set_columns selected item db).1
set_columns-IsConsistent selected item db same c = elim (set_columns-cases selected item db) [
  | inl e ↦ rw e c
  | inr e ↦ rw e (write_tasks-IsConsistent (λ t. if selected t then item else t) db same c)
]

-- ===== src/Mula/Database.antt =====
-- The tables `tasks` and `schedules` (mula/scheduler/models/task.py, schedule.py) with their
-- constraints, and the actions of the stores: a result or an exception, and the tables after it.
-- A statement that breaks a constraint changes nothing.
pub mod Consistent
use nl_kat_coordination.Prelude.{
  ◌≡◌, refl, ◌⊎◌, inl, inr, ℕ, String, List, [], ◌∷◌, ◌++◌, map, Option, none, some, Bool, true,
  false, ◌&&◌, ◌||◌, not, ◌==◌, any_of, is_some, option_str_eq, if◌then◌else◌,
}
use nl_kat_coordination.Mula.Models.{Task, Schedule, is_active}

pub data Constraint : Type 0 where
  tasks_pkey ix_tasks_active_per_schedule tasks_schedule_id_fkey tasks_type_not_null : Constraint
  schedules_pkey schedules_hash_key schedules_data_not_null : Constraint

-- `validation_error` is the ValueError of pydantic and of croniter; `waits_forever` is no exception but
-- a call that does not return while its surroundings do not change.
pub data Error : Type 0 where
  invalid_item not_allowed queue_full multiple_results runtime : Error
  attribute_error external_service waits_forever validation_error : Error
  integrity : Constraint → Error

pub data Result {ℓ} (A : Type ℓ) : Type ℓ where
  ok : A → Result A
  err : Error → Result A

pub Result-cases {ℓ} :
    {A : Type ℓ} (r : Result A) → ((a : A) × (r ≡ ok a)) ⊎ ((e : Error) × (r ≡ err e))
Result-cases (ok a) = inl (a, refl)
Result-cases (err e) = inr (e, refl)

pub record Db : Type 0 where
  pub tasks : List Task
  pub schedules : List Schedule

abbrev pub Action : Type 0 → Type 0
Action A = Db → Result A × Db

module _ {A : Type 0} where
  abbrev pub pure : A → Action A
  pure a db = (ok a, db)

  abbrev pub raise : Error → Action A
  raise e db = (err e, db)

  abbrev pub gets : (Db → A) → Action A
  gets f db = (ok (f db), db)

module _ {A B : Type 0} where
  abbrev pub resume : Result A → (A → Action B) → Action B
  resume (ok a) f db = f a db
  resume (err e) f db = (err e, db)

  infixl 5 ◌>>=◌ ◌>>◌
  abbrev pub ◌>>=◌ : Action A → (A → Action B) → Action B
  ◌>>=◌ m f db = let (r, db') = m db in resume r f db'

  abbrev pub ◌>>◌ : Action A → Action B → Action B
  m >> n = m >>= λ _. n

abbrev pub same_schedule : Option ℕ → Option ℕ → Bool
same_schedule (some a) (some b) = a == b
same_schedule _ _ = false

-- Two rows that the unique partial index `ix_tasks_active_per_schedule` keeps apart.
abbrev pub collides : Task → Task → Bool
collides t u = is_active t && (is_active u && same_schedule t.schedule_id u.schedule_id)

unfoldable pub unique_active : List Task → Bool
unique_active [] = true
unique_active (t ∷ ts) = let rest = unique_active ts in not (any_of (collides t) ts) && rest

unfoldable pub schedule_exists : Option ℕ → List Schedule → Bool
schedule_exists none schedules = true
schedule_exists (some id) schedules = any_of (λ s. s.id == id) schedules

-- `session.add(TaskDB(**item.model_dump()))`
unfoldable pub insert_task : Task → Action Task
unfolding schedule_exists
insert_task t db =
    if not (is_some t.type)
    then (err (integrity tasks_type_not_null), db)
    else if any_of (λ u. u.id == t.id) db.tasks
    then (err (integrity tasks_pkey), db)
    else if any_of (collides t) db.tasks
    then (err (integrity ix_tasks_active_per_schedule), db)
    else if schedule_exists t.schedule_id db.schedules
    then (ok t, record db { tasks = db.tasks ++ t ∷ [] })
    else (err (integrity tasks_schedule_id_fkey), db)

-- `query.update(…)` of the rows of `tasks`
unfoldable pub write_tasks : List Task → Action (Unit {0})
unfolding unique_active
write_tasks ts db =
    if unique_active ts
    then (ok tt, record db { tasks = ts })
    else (err (integrity ix_tasks_active_per_schedule), db)

-- `query.update(item.model_dump())` of the rows that a query selects: every column takes the item's
-- value. A statement that selects no row checks nothing.
unfoldable pub set_columns : (Task → Bool) → Task → Action (Unit {0})
unfolding write_tasks schedule_exists unique_active
set_columns selected item db =
    let ts = map (λ t. if selected t then item else t) db.tasks in
    if any_of selected db.tasks && not (is_some item.type)
    then (err (integrity tasks_type_not_null), db)
    else if any_of selected db.tasks
        && (unique_active ts && not (schedule_exists item.schedule_id db.schedules))
    then (err (integrity tasks_schedule_id_fkey), db)
    else write_tasks ts db

-- `session.add(ScheduleDB(**schedule.model_dump()))`
unfoldable pub insert_schedule : Schedule → Action Schedule
insert_schedule s db =
    if not (is_some s.body)
    then (err (integrity schedules_data_not_null), db)
    else if any_of (λ u. u.id == s.id) db.schedules
    then (err (integrity schedules_pkey), db)
    else if is_some s.hash && any_of (λ u. option_str_eq u.hash s.hash) db.schedules
    then (err (integrity schedules_hash_key), db)
    else (ok s, record db { schedules = db.schedules ++ s ∷ [] })

-- ===== src/Mula/ScheduleStore.antt =====
-- mula/scheduler/storage/stores/schedule.py. The reads return the rows; Schedule.model_post_init gives a
-- row with a cron expression and no deadline one, where a scheduler reads it (Scheduler). The other
-- reads are of rows that have a deadline, or use nothing but the id.
pub mod Due
use nl_kat_coordination.Prelude.{
  sort_by, ℕ, String, List, [], ◌∷◌, map, Option, none, some, Bool, true, false, ◌&&◌, ◌||◌, not,
  ◌==◌, leb, ltb, ℤ, keep, any_of, first, is_some, option_eq, option_str_eq, str_eq, take,
  if◌then◌else◌,
}
use nl_kat_coordination.Mula.Models.{TaskStatus, status_eq, Task, Schedule, is_active_status}
use nl_kat_coordination.Mula.Database.{
  Db, Action, Result, ok, err, integrity, schedules_hash_key, pure, raise, gets, multiple_results,
  insert_schedule,
}
use nl_kat_coordination.Mula.TaskStore.{given_text, not_before, not_after}
use nl_kat_coordination.Mula.Paging.{Page, get_page}

abbrev pub given_enabled : Option Bool → Bool → Bool
given_enabled none b = true
given_enabled (some true) b = b
given_enabled (some false) b = not b

abbrev pub given_hash : Option String → Option String → Bool
given_hash none h = true
given_hash (some g) h = option_str_eq h (some g)

-- A comparison with a NULL deadline is not true.
abbrev pub deadline_not_before : Option ℕ → Option ℕ → Bool
deadline_not_before none d = true
deadline_not_before (some low) none = false
deadline_not_before (some low) (some d) = leb low d

abbrev pub deadline_not_after : Option ℕ → Option ℕ → Bool
deadline_not_after none d = true
deadline_not_after (some high) none = false
deadline_not_after (some high) (some d) = leb d high

abbrev pub schedule_passes : Option (Schedule → Bool) → Schedule → Bool
schedule_passes none s = true
schedule_passes (some test) s = test s

pub record ScheduleQuery : Type 0 where
  pub scheduler_id : Option String
  pub organisation : Option String
  pub schedule_hash : Option String
  pub enabled : Option Bool
  pub min_deadline_at : Option ℕ
  pub max_deadline_at : Option ℕ
  pub min_created_at : Option ℕ
  pub max_created_at : Option ℕ
  pub filters : Option (Schedule → Bool)

unfoldable pub schedule_selected : ScheduleQuery → Schedule → Bool
schedule_selected c s =
    given_text c.scheduler_id s.scheduler_id
    && given_text c.organisation s.organisation
    && given_enabled c.enabled s.enabled
    && given_hash c.schedule_hash s.hash
    && deadline_not_before c.min_deadline_at s.deadline_at
    && deadline_not_after c.max_deadline_at s.deadline_at
    && not_before c.min_created_at s.created_at
    && not_after c.max_created_at s.created_at
    && schedule_passes c.filters s

unfoldable pub get_schedules : ScheduleQuery → ℤ → ℤ → ℤ → Bool → Action (Page Schedule)
unfolding schedule_selected
get_schedules c offset limit max_pages allow_partial_count = gets λ db.
    get_page (λ s. s.created_at) (keep (schedule_selected c) db.schedules) offset limit max_pages
      allow_partial_count

unfoldable pub schedule_or_none : List Schedule → Action (Option Schedule)
schedule_or_none [] = pure none
schedule_or_none (s ∷ []) = pure (some s)
schedule_or_none (s ∷ t ∷ rest) = raise multiple_results

unfoldable pub get_schedule : ℕ → Action (Option Schedule)
unfolding schedule_or_none
get_schedule id db = schedule_or_none (keep (λ s. s.id == id) db.schedules) db

-- `hash == None` is IS NULL.
unfoldable pub get_schedule_by_hash : Option String → Action (Option Schedule)
unfolding schedule_or_none
get_schedule_by_hash hash db =
    schedule_or_none (keep (λ s. option_str_eq s.hash hash) db.schedules) db

-- `select(TaskDB.id).where(schedule_id == schedule.id, status.in_(active_statuses)).exists()`
unfoldable pub active_task_exists : List Task → ℕ → Bool
active_task_exists tasks id =
    any_of (λ t. option_eq t.schedule_id (some id) && is_active_status t.status) tasks

abbrev pub is_past : Option ℕ → ℕ → Bool
is_past none now = false
is_past (some d) now = ltb d now

unfoldable pub is_due : String → ℕ → List Task → Schedule → Bool
is_due sid now tasks s =
    str_eq s.scheduler_id sid
    && (s.enabled && (is_past s.deadline_at now && not (active_task_exists tasks s.id)))

abbrev pub deadline_le : Option ℕ → Option ℕ → Bool
deadline_le none b = false
deadline_le (some a) none = true
deadline_le (some a) (some b) = leb a b

-- `.order_by(deadline_at.asc())`
unfoldable pub by_deadline : List Schedule → List Schedule
by_deadline ss = sort_by (λ s t. deadline_le s.deadline_at t.deadline_at) ss

-- `if limit:` is false for None and for 0.
abbrev pub limit_schedules : Option ℕ → List Schedule → List Schedule
limit_schedules none ss = ss
limit_schedules (some n) ss = if n == 0 then ss else take n ss

-- get_due_schedules with the default for `active_statuses`
unfoldable pub get_due_schedules : String → ℕ → Option ℕ → Db → List Schedule
unfolding by_deadline
get_due_schedules sid now limit db =
    limit_schedules limit (by_deadline (keep (is_due sid now db.tasks) db.schedules))

unfoldable pub create_schedule : Schedule → Action Schedule
create_schedule s = insert_schedule s

hash_taken : Schedule → List Schedule → Bool
hash_taken s ss =
    any_of (λ t. not (t.id == s.id) && (is_some s.hash && option_str_eq t.hash s.hash)) ss

unfoldable pub update_schedule : Schedule → Action (Unit {0})
unfolding hash_taken
update_schedule s db =
    if any_of (λ t. t.id == s.id) db.schedules && hash_taken s db.schedules
    then (err (integrity schedules_hash_key), db)
    else (ok tt, record db { schedules = map (λ t. if t.id == s.id then s else t) db.schedules })

-- The foreign key of `tasks` is ON DELETE SET NULL.
unfoldable pub delete_schedule : ℕ → Action (Unit {0})
delete_schedule id db =
    let detach = λ (t : Task).
      if option_eq t.schedule_id (some id) then record t { schedule_id = none } else t in
    (
      ok tt,
      record {
        tasks =
            map (λ t. if any_of (λ (s : Schedule). s.id == id) db.schedules then detach t else t)
              db.tasks;
        schedules = keep (λ s. not (s.id == id)) db.schedules;
      },
    )

-- ===== src/Mula/TaskStore.antt =====
-- mula/scheduler/storage/stores/task.py.
use nl_kat_coordination.Prelude.{
  ℕ, String, List, map, Option, none, some, Bool, true, ◌&&◌, ◌==◌, leb, ℤ, keep, any_of, first,
  count_of, option_str_eq, str_eq, if◌then◌else◌, take,
}
use nl_kat_coordination.Mula.Models.{TaskStatus, status_eq, Task}
use nl_kat_coordination.Mula.Database.{Db, Action, gets, insert_task, write_tasks, set_columns}
use nl_kat_coordination.Mula.PqStore.{latest, is_listed, with_status, passes}
use nl_kat_coordination.Mula.Paging.{Page, get_page, newest_first}

-- An argument of a query that is None adds no filter.
abbrev pub given_text : Option String → String → Bool
given_text none s = true
given_text (some t) s = str_eq s t

abbrev pub given_status : Option TaskStatus → TaskStatus → Bool
given_status none s = true
given_status (some t) s = status_eq s t

abbrev pub not_before : Option ℕ → ℕ → Bool
not_before none t = true
not_before (some low) t = leb low t

abbrev pub not_after : Option ℕ → ℕ → Bool
not_after none t = true
not_after (some high) t = leb t high

abbrev pub given_type : Option String → Option String → Bool
given_type none s = true
given_type (some t) s = option_str_eq s (some t)

pub record TaskQuery : Type 0 where
  pub scheduler_id : Option String
  pub organisation : Option String
  pub task_type : Option String
  pub status : Option TaskStatus
  pub min_created_at : Option ℕ
  pub max_created_at : Option ℕ
  pub filters : Option (Task → Bool)

unfoldable pub task_selected : TaskQuery → Task → Bool
task_selected c t =
    given_text c.scheduler_id t.scheduler_id
    && given_text c.organisation t.organisation
    && given_type c.task_type t.type
    && given_status c.status t.status
    && not_before c.min_created_at t.created_at
    && not_after c.max_created_at t.created_at
    && passes c.filters t

unfoldable pub get_tasks : TaskQuery → ℤ → ℤ → ℤ → Bool → Action (Page Task)
unfolding task_selected
get_tasks c offset limit max_pages allow_partial_count = gets λ db.
    get_page (λ t. t.created_at) (keep (task_selected c) db.tasks) offset limit max_pages
      allow_partial_count

unfoldable pub get_task : ℕ → Action (Option Task)
get_task id = gets (λ db. first (keep (λ t. t.id == id) db.tasks))

abbrev pub has_task_hash : String → Task → Bool
has_task_hash hash t = option_str_eq t.hash (some hash)

limit_rows : Option ℕ → List Task → List Task
limit_rows none ts = ts
limit_rows (some n) ts = take n ts

-- SQLAlchemy puts the limit behind the order, whatever the order of the calls.
unfoldable pub get_tasks_by_hash : String → Option ℕ → Action (List Task)
unfolding limit_rows
get_tasks_by_hash hash limit =
    gets
      λ db. limit_rows limit (newest_first (λ t. t.created_at) (keep (has_task_hash hash) db.tasks))

unfoldable pub get_latest_task_by_hash : String → Db → Option Task
unfolding latest
get_latest_task_by_hash hash db = latest (keep (has_task_hash hash) db.tasks)

unfoldable pub create_task : Task → Action Task
create_task t = insert_task t

-- Every column is written, `modified_at` with the value that the model holds.
unfoldable pub update_task : Task → Action (Unit {0})
unfolding set_columns
update_task t db = set_columns (λ u. u.id == t.id) t db

unfoldable pub cancel_tasks : String → List ℕ → ℕ → Action (Unit {0})
cancel_tasks sid ids now db =
    write_tasks
      (map
        (λ t.
          if str_eq t.scheduler_id sid && is_listed ids t.id
          then with_status TaskStatus.cancelled now t
          else t)
        db.tasks)
      db

abbrev pub in_organisations : Option (List String) → String → Bool
in_organisations none org = true
in_organisations (some orgs) org = any_of (λ o. str_eq o org) orgs

-- get_status_counts: the number under each status; a status with no row has 0.
unfoldable pub get_status_counts : Option String → Option (List String) → Db → TaskStatus → ℕ
get_status_counts sid orgs db status =
    count_of
      (λ t.
        status_eq t.status status
        && (given_text sid t.scheduler_id && in_organisations orgs t.organisation))
      db.tasks

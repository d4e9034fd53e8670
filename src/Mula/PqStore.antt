-- ===== src/Mula/PqStore.antt =====
-- mula/scheduler/storage/stores/pq.py: the queue as the QUEUED rows of the table `tasks`. A filter
-- request stands as the test on rows that `apply_filter` makes of it.

pub mod Sizes
pub mod Selected
use nl_kat_coordination.Prelude.{
  ℕ, String, List, [], ◌∷◌, map, Option, none, some, Bool, true, false, ◌&&◌, not, ◌==◌, ltb, keep,
  any_of, take, drop, first, length, is_some, option_eq, option_str_eq, str_eq, if◌then◌else◌,
}
use nl_kat_coordination.Mula.Models.{TaskStatus, status_eq, TaskData, boefje_data, Task, is_active}
use nl_kat_coordination.Mula.Database.{
  Db, Action, pure, raise, gets, insert_task, write_tasks, set_columns, multiple_results,
}
use nl_kat_coordination.Mula.Ordering.{order_by}

-- `status == QUEUED and scheduler_id == …`
abbrev pub is_queued : String → Task → Bool
is_queued sid t = status_eq t.status TaskStatus.queued && str_eq t.scheduler_id sid

abbrev pub queued : String → Db → List Task
queued sid db = keep (is_queued sid) db.tasks

abbrev pub passes : Option (Task → Bool) → Task → Bool
passes none t = true
passes (some test) t = test t

-- build_pop_query, with the scheduler that both queues name
unfoldable pub build_pop_query : String → Option (Task → Bool) → Db → List Task
build_pop_query sid filters db = keep (λ t. is_queued sid t && passes filters t) db.tasks

-- `.limit(limit)`: no limit for None
abbrev pub limit_to : Option ℕ → List Task → List Task
limit_to none ts = ts
limit_to (some n) ts = take n ts

unfoldable pub pop : String → Option ℕ → Option (Task → Bool) → Action (List Task)
unfolding build_pop_query
pop sid limit filters = gets (λ db. limit_to limit (order_by (build_pop_query sid filters db)))

-- `data["deduplication_key"].astext`
abbrev pub dedup_key : TaskData → Option ℕ
dedup_key (boefje_data b) = b.deduplication_key
dedup_key _ = none

pop_first_dkey : String → Option ℕ → Option (Task → Bool) → List Task → Db → List Task
unfolding build_pop_query
pop_first_dkey sid limit filters [] db =
    limit_to (some 1) (order_by (build_pop_query sid filters db))
pop_first_dkey sid limit filters (t ∷ ts) db = limit_to limit (
    order_by (
      keep (λ u. option_eq (dedup_key u.body) (dedup_key t.body)) (build_pop_query sid filters db)))

unfoldable pub pop_boefje : String → Option ℕ → Option (Task → Bool) → Action (List Task)
unfolding pop_first_dkey
pop_boefje sid limit filters = gets λ db.
    pop_first_dkey sid limit filters
      (order_by (keep (λ t. is_some (dedup_key t.body)) (build_pop_query sid filters db))) db

unfoldable pub peek : String → ℕ → Action (Option Task)
peek sid index = gets (λ db. first (drop index (order_by (queued sid db))))

unfoldable pub update : String → Task → Action (Unit {0})
unfolding set_columns
update sid item db = set_columns (λ t. is_queued sid t && t.id == item.id) item db

unfoldable pub remove : String → ℕ → Action (Unit {0})
remove sid id db =
    pure tt (record db { tasks = keep (λ t. not (is_queued sid t && t.id == id)) db.tasks })

unfoldable pub clear : String → Action (Unit {0})
clear sid db = pure tt (record db { tasks = keep (λ t. not (is_queued sid t)) db.tasks })

unfoldable pub get : String → ℕ → Action (Option Task)
get sid id = gets (λ db. first (keep (λ t. is_queued sid t && t.id == id) db.tasks))

abbrev pub qsize : String → Db → ℕ
qsize sid db = length (queued sid db)

abbrev pub empty : String → Db → Bool
empty sid db = qsize sid db == 0

-- get_items, and its count
unfoldable pub get_items : String → Option (Task → Bool) → Action (List Task × ℕ)
unfolding build_pop_query
get_items sid filters =
    gets (λ db. (build_pop_query sid filters db, length (build_pop_query sid filters db)))

newer : Task → Option Task → Option Task
newer t none = some t
newer t (some u) = if ltb t.created_at u.created_at then some u else some t

-- `.order_by(created_at.desc()).first()`
unfoldable pub latest : List Task → Option Task
unfolding newer
latest [] = none
latest (t ∷ ts) = newer t (latest ts)

unfoldable pub get_item_by_hash : String → String → Db → Option Task
unfolding latest
get_item_by_hash sid hash db =
    latest (keep (λ t. is_queued sid t && option_str_eq t.hash (some hash)) db.tasks)

unfoldable pub get_items_by_scheduler_id : String → Action (List Task)
get_items_by_scheduler_id sid = gets (queued sid)

one_or_none : List Task → Action (Option Task)
one_or_none [] = pure none
one_or_none (t ∷ []) = pure (some t)
one_or_none (t ∷ u ∷ ts) = raise multiple_results

-- `schedule_id == None` is IS NULL.
unfoldable pub get_active_task_by_schedule : Option ℕ → Action (Option Task)
unfolding one_or_none
get_active_task_by_schedule schedule_id db =
    one_or_none (keep (λ t. option_eq t.schedule_id schedule_id && is_active t) db.tasks) db

-- The statement names one column, so `modified_at` takes its `onupdate` value.
abbrev pub with_status : TaskStatus → ℕ → Task → Task
with_status status now t = record t { status = status; modified_at = now }

abbrev pub is_listed : List ℕ → ℕ → Bool
is_listed ids id = any_of (λ i. i == id) ids

unfoldable pub bulk_update_status : String → List ℕ → TaskStatus → ℕ → Action (Unit {0})
unfolding write_tasks
bulk_update_status sid ids status now db =
    write_tasks
      (map
        (λ t.
          if str_eq t.scheduler_id sid && is_listed ids t.id then with_status status now t else t)
        db.tasks)
      db

-- ===== src/Mula/BoefjeTasks.antt =====
-- mula/scheduler/schedulers/schedulers/boefje.py: push_boefje_task with all that it calls. The queue's
-- lock is held from the first push to the last, so what other threads do falls before or after.
pub mod OtherOrgs
pub mod Push
use nl_kat_coordination.Prelude.{
  ℕ, ◌+◌, ◌*◌, String, List, [], ◌∷◌, ◌++◌, map, Option, none, some, Bool, true, false, ◌&&◌, ◌||◌,
  not, ◌==◌, any_of, is_some, str_eq, pos, if◌then◌else◌,
}
use nl_kat_coordination.Mula.Models.{
  TaskStatus, is_active, Boefje, BoefjeTask, BoefjeMeta, TaskData, boefje_data, Task, Schedule,
  Hasher, boefje_hash,
}
use nl_kat_coordination.Mula.Database.{
  Db, Action, Error, Result, ok, err, validation_error, not_allowed, queue_full, attribute_error,
  external_service, waits_forever, pure, raise, gets, ◌>>=◌, ◌>>◌,
}
use nl_kat_coordination.Mula.TaskStore
use nl_kat_coordination.Mula.Queue.{Pushed, FieldsSet}
use nl_kat_coordination.Mula.Scheduler
use nl_kat_coordination.Mula.Scheduler.{Scheduler, Env}
use nl_kat_coordination.Mula.Rankers.{time_based_rank}
use nl_kat_coordination.Mula.BoefjeQueue.{lift, push_tasks}
use nl_kat_coordination.Mula.Boefje.{
  Plugin, Ooi, Services, has_boefje_permission_to_run, has_boefje_task_started_running,
  has_boefje_task_stalled, has_boefje_task_grace_period_passed,
}

module _ {A B : Type 0} where
  abbrev pub then_result : Result A → (A → Result B) → Result B
  then_result (ok a) f = f a
  then_result (err e) f = err e

  abbrev pub map_result : (A → B) → Result A → Result B
  map_result f (ok a) = ok (f a)
  map_result f (err e) = err e

-- schedulers/errors.py, exception_handler: these exceptions are logged and the result is None.
abbrev pub is_swallowed : Error → Bool
is_swallowed external_service = true
is_swallowed queue_full = true
is_swallowed not_allowed = true
is_swallowed _ = false

abbrev pub handled_result : {A : Type 0} → Result A → Result (Option A)
handled_result (ok a) = ok (some a)
handled_result (err e) = if is_swallowed e then ok none else err e

abbrev pub swallowed : Result (Unit {0}) → Result (Unit {0})
swallowed (ok a) = ok tt
swallowed (err e) = if is_swallowed e then ok tt else err e

-- `orgs[config.organisation_id]` of a dictionary
unfoldable pub find_ooi : String → List (String × Ooi) → Option Ooi
find_ooi org [] = none
find_ooi org ((o, ooi) ∷ rest) = if str_eq o org then some ooi else find_ooi org rest

module _ (h : Hasher) (sch : Scheduler) (env : Env) (svc : Services) where
  -- `models.Task(id=…, scheduler_id=…, …)` with its priority
  unfoldable pub task_for : BoefjeTask → Task
  task_for b =
      let t : Task = record {
        id = b.id;
        scheduler_id = sch.scheduler_id;
        schedule_id = none;
        organisation = b.organization;
        priority = none;
        status = TaskStatus.pending;
        type = some "boefje";
        hash = some (boefje_hash h b);
        body = boefje_data b;
        created_at = env.now;
        modified_at = env.now;
      } in
      record t { priority = some (time_based_rank t) }

  other_task : BoefjeTask → Boefje → String → Task
  other_task b boefje org = task_for (record {
    id = svc.task_uuid org;
    boefje = boefje;
    input_ooi = b.input_ooi;
    organization = org;
    deduplication_key = some b.id;
  })

  may_run_in : BoefjeTask → Plugin → List (String × Ooi) → String → Bool
  may_run_in b plugin orgs org = not (str_eq org b.organization) && elim (find_ooi org orgs) [
    | none ↦ false
    | some ooi ↦ has_boefje_permission_to_run plugin (some ooi)
  ]

  -- The loop over `configs[0].duplicates`
  unfoldable pub tasks_in_orgs : BoefjeTask → Plugin → List (String × Ooi) → List String → List Task
  unfolding find_ooi task_for other_task may_run_in
  tasks_in_orgs b plugin orgs [] = []
  tasks_in_orgs b plugin orgs (org ∷ rest) =
      let later = tasks_in_orgs b plugin orgs rest in
      if may_run_in b plugin orgs org then other_task b plugin.boefje org ∷ later else later

  tasks_of_plugin : BoefjeTask → List (String × Ooi) → List String → Option Plugin → List Task
  tasks_of_plugin b orgs duplicates none = []
  tasks_of_plugin b orgs duplicates (some plugin) = tasks_in_orgs b plugin orgs duplicates

  with_clients : BoefjeTask → List String → List (String × Ooi) → Result (List Task)
  unfolding tasks_of_plugin
  with_clients b duplicates [] = ok []
  with_clients b duplicates (o ∷ orgs) =
      map_result (tasks_of_plugin b (o ∷ orgs) duplicates) (svc.plugin b.boefje.id b.organization)

  with_configs : BoefjeTask → String → List (List String) → Result (List Task)
  unfolding with_clients
  with_configs b ooi [] = ok []
  with_configs b ooi (duplicates ∷ _) =
      then_result (svc.object_clients ooi duplicates) (with_clients b duplicates)

  in_other_orgs : BoefjeTask → Option String → Result (List Task)
  unfolding with_configs
  in_other_orgs b none = ok []
  in_other_orgs b (some ooi) = then_result (svc.configs b) (with_configs b ooi)

  -- is_boefje_in_other_orgs under its exception_handler: None where a service failed.
  unfoldable pub is_boefje_in_other_orgs : BoefjeTask → Result (Option (List Task))
  unfolding in_other_orgs
  is_boefje_in_other_orgs b = handled_result (in_other_orgs b b.input_ooi)

  deduplicated : BoefjeTask → List Task → BoefjeTask
  deduplicated b [] = b
  deduplicated b (t ∷ ts) = record b { deduplication_key = some b.id }

  -- `tasks.append(task)` fails where `tasks` is None.
  create_tasks : BoefjeTask → Bool → Option (List Task) → Action (Unit {0})
  unfolding deduplicated push_tasks
  create_tasks b create_schedule none = raise attribute_error
  create_tasks b create_schedule (some tasks) =
      push_tasks h sch env svc (tasks ++ task_for (deduplicated b tasks) ∷ []) create_schedule

  -- From the query to Bytes on, when no active task is in the way.
  unfoldable pub push_if_allowed : BoefjeTask → Bool → Option Task → Action (Unit {0})
  unfolding create_tasks
  push_if_allowed b create_schedule task_db = do
    task_bytes ← lift (svc.last_run b)
    plugin ← lift (svc.plugin b.boefje.id b.organization)
    if not (has_boefje_task_grace_period_passed env plugin task_db task_bytes) then pure tt else do
      is_running ← lift (has_boefje_task_started_running env task_db task_bytes)
      if is_running
          then pure tt
          else do tasks ← lift (is_boefje_in_other_orgs b); create_tasks b create_schedule tasks

  push_after : BoefjeTask → Bool → Option Task → Action (Unit {0})
  unfolding push_if_allowed
  push_after b create_schedule none = push_if_allowed b create_schedule none
  push_after b create_schedule (some t) =
      if is_active t
      then (if has_boefje_task_stalled env t
          then (do
            TaskStore.update_task (record t { status = TaskStatus.failed })
            push_if_allowed b create_schedule (some (record t { status = TaskStatus.failed })))
          else pure tt)
      else push_if_allowed b create_schedule (some t)

  -- push_boefje_task under exception_handler, which swallows three kinds of errors.
  unfoldable pub push_boefje_task : BoefjeTask → Bool → Action (Unit {0})
  unfolding push_after
  push_boefje_task b create_schedule db =
      let found = TaskStore.get_latest_task_by_hash (boefje_hash h b) db in
      let (r, db') = push_after b create_schedule found db in (swallowed r, db')

-- ===== src/Mula/BoefjeQueue.antt =====
-- mula/scheduler/schedulers/schedulers/boefje.py: how the boefje scheduler puts
-- tasks on its queue, and the deadlines of their schedules.
pub mod Interval
use nl_kat_coordination.Prelude.{
  ℕ, ◌+◌, ◌*◌, String, List, [], ◌∷◌, ◌++◌, map, Option, none, some, Bool, true, false, ◌&&◌, ◌||◌,
  not, ◌==◌, any_of, is_some, str_eq, pos, if◌then◌else◌,
}
use nl_kat_coordination.Mula.Models.{
  TaskStatus, is_active, Boefje, BoefjeTask, BoefjeMeta, TaskData, boefje_data, Task, Schedule,
  Hasher, boefje_hash,
}
use nl_kat_coordination.Mula.Database.{
  Db, Action, Error, Result, ok, err, validation_error, not_allowed, queue_full, attribute_error,
  external_service, waits_forever, pure, raise, gets, ◌>>=◌, ◌>>◌,
}
use nl_kat_coordination.Mula.TaskStore
use nl_kat_coordination.Mula.Queue.{Pushed, FieldsSet}
use nl_kat_coordination.Mula.Scheduler
use nl_kat_coordination.Mula.Scheduler.{Scheduler, Env}
use nl_kat_coordination.Mula.Rankers.{time_based_rank}
use nl_kat_coordination.Mula.Boefje.{
  Plugin, Ooi, Services, has_boefje_permission_to_run, has_boefje_task_started_running,
  has_boefje_task_stalled, has_boefje_task_grace_period_passed,
}

abbrev pub lift : {A : Type 0} → Result A → Action A
lift r db = (r, db)

-- BoefjeScheduler.calculate_deadline: `s.schedule = cron` is validated on assignment, and the plugin
-- is read without a test for None.
with_cron : Env → Option String → Schedule → Result Schedule
with_cron env none s = ok s
with_cron env (some cron) s =
    if is_some (env.next_run cron)
    then ok (record s { schedule = some cron })
    else err validation_error

with_interval : Env → Option ℕ → Schedule → Schedule
with_interval env none s = s
with_interval env (some minutes) s =
    if minutes == 0 then s else record s { deadline_at = some (env.now + minutes * 60) }

abbrev then_deadline : Scheduler → Env → Option ℕ → Result Schedule → Result Schedule
then_deadline sch env interval (err e) = err e
then_deadline sch env interval (ok s) =
    Scheduler.calculate_deadline sch env (with_interval env interval s)

deadline_of : Scheduler → Env → Schedule → Option Plugin → Result Schedule
unfolding with_cron with_interval
deadline_of sch env s none = err attribute_error
deadline_of sch env s (some p) = then_deadline sch env p.interval (with_cron env p.cron s)

abbrev with_plugin : Scheduler → Env → Schedule → Result (Option Plugin) → Result Schedule
with_plugin sch env s (err e) = err e
with_plugin sch env s (ok p) = deadline_of sch env s p

deadline_for : Scheduler → Env → Services → Schedule → Option TaskData → Result Schedule
unfolding deadline_of
deadline_for sch env svc s (some (boefje_data b)) =
    with_plugin sch env s (svc.plugin b.boefje.id s.organisation)
deadline_for sch env svc s _ = err validation_error

unfoldable pub calculate_deadline : Scheduler → Env → Services → Schedule → Result Schedule
unfolding deadline_for
calculate_deadline sch env svc s = deadline_for sch env svc s s.body

-- BoefjeScheduler.push_item_to_queue: the task and its data get one new id where their ids differ.
same_id : ℕ → TaskData → Pushed → Result Pushed
same_id new_id (boefje_data b) p =
    if p.task.id == b.id
    then ok p
    else ok (record {
      task = record p.task { id = new_id; body = boefje_data (record b { id = new_id }) };
      set = record p.set { id = true; body = true };
    })
same_id new_id _ p = err validation_error

-- The fields that push_boefje_task and is_boefje_in_other_orgs give to a task.
abbrev pub made_by_scheduler : FieldsSet
made_by_scheduler = record {
  id = true;
  schedule_id = false;
  priority = true;
  status = false;
  type = true;
  hash = true;
  body = true;
  created_at = false;
  modified_at = false;
}

module _ (h : Hasher) (sch : Scheduler) (env : Env) (svc : Services) where
  unfoldable pub push_item_to_queue : ℕ → Pushed → Bool → Action Task
  unfolding same_id
  push_item_to_queue new_id p create_schedule = do
    p' ← lift (same_id new_id p.task.body p)
    Scheduler.push_item_to_queue h sch (record env { new_id = svc.schedule_uuid p'.task })
        (calculate_deadline sch env svc) p' create_schedule

  -- The scheduler sets no maximum of tries, so a full queue is waited for while its lock is held.
  unfoldable pub push_with_timeout : Task → Bool → Action Task
  push_with_timeout t create_schedule db =
      if Scheduler.is_space sch.queue db
      then push_item_to_queue t.id (record { task = t; set = made_by_scheduler }) create_schedule db
      else (err waits_forever, db)

  -- `except NotAllowedError: continue`
  goes_on : Result Task → Result (Unit {0})
  goes_on (ok t) = ok tt
  goes_on (err not_allowed) = ok tt
  goes_on (err e) = err e

  unfoldable pub push_tasks : List Task → Bool → Action (Unit {0})
  unfolding goes_on
  push_tasks [] create_schedule = pure tt
  push_tasks (t ∷ ts) create_schedule = do
    (λ db. let (r, db') = push_with_timeout t create_schedule db in (goes_on r, db'))
    push_tasks ts create_schedule

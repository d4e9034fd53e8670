-- ===== src/Mula/Reports.antt =====
-- mula/scheduler/schedulers/schedulers/report.py: process_rescheduling, whose result is what it
-- submits to the pool of threads, and push_report_task. The wait for space on the queue, which writes
-- nothing, is over where a push starts.
use nl_kat_coordination.Prelude.{
  ℕ, pos, String, List, [], ◌∷◌, Option, none, some, Bool, true, false, ◌&&◌, str_eq,
}
use nl_kat_coordination.Mula.Models.{
  TaskStatus, ReportTask, TaskData, report_data, Task, Schedule, Hasher, report_hash,
}
use nl_kat_coordination.Mula.Database.{Action, Result, ok, err, validation_error, ◌>>=◌}
use nl_kat_coordination.Mula.ScheduleStore
use nl_kat_coordination.Mula.ScheduleStore.{ScheduleQuery, is_past}
use nl_kat_coordination.Mula.Queue.{FieldsSet}
use nl_kat_coordination.Mula.Scheduler
use nl_kat_coordination.Mula.Scheduler.{Scheduler, Env}
use nl_kat_coordination.Mula.BoefjeQueue.{lift}
use nl_kat_coordination.Mula.BoefjeTasks.{swallowed, then_result, map_result}

-- The three filters of process_rescheduling
unfoldable pub is_due_report : String → ℕ → Schedule → Bool
is_due_report scheduler_id now s =
    str_eq s.scheduler_id scheduler_id && (is_past s.deadline_at now && s.enabled)

report_query : String → ℕ → ScheduleQuery
unfolding is_due_report
report_query scheduler_id now = record {
  scheduler_id = none;
  organisation = none;
  schedule_hash = none;
  enabled = none;
  min_deadline_at = none;
  max_deadline_at = none;
  min_created_at = none;
  max_created_at = none;
  filters = some (is_due_report scheduler_id now);
}

-- `ReportTask.model_validate(schedule.data)`
report_of : Option TaskData → Result ReportTask
report_of (some (report_data r)) = ok r
report_of _ = err validation_error

unfoldable pub report_tasks : List Schedule → Result (List ReportTask)
unfolding report_of
report_tasks [] = ok []
report_tasks (s ∷ ss) =
    then_result (report_of s.body) (λ r. map_result (λ rs. r ∷ rs) (report_tasks ss))

unfoldable pub process_rescheduling : String → ℕ → Action (List ReportTask)
unfolding report_query report_tasks
process_rescheduling scheduler_id now = do
  page ← ScheduleStore.get_schedules (report_query scheduler_id now) (pos 0) (pos 100) (pos 6) false
  lift (report_tasks page.items)

-- The fields that push_report_task gives to a task
abbrev made_for_report : FieldsSet
made_for_report = record {
  id = false;
  schedule_id = false;
  priority = true;
  status = false;
  type = true;
  hash = true;
  body = true;
  created_at = false;
  modified_at = false;
}

module _ (h : Hasher) (sch : Scheduler) (env : Env) where
  -- `task_id` is the id that the task gets by default.
  report_task : ℕ → ReportTask → String → Task
  report_task task_id r organisation_id = record {
    id = task_id;
    scheduler_id = sch.scheduler_id;
    schedule_id = none;
    organisation = organisation_id;
    priority = some (pos env.now);
    status = TaskStatus.pending;
    type = some "report";
    hash = some (report_hash h r);
    body = report_data r;
    created_at = env.now;
    modified_at = env.now;
  }

  -- The argument create_schedule is not passed on: the push creates a schedule by default.
  unfoldable pub push_report_task : ℕ → ReportTask → String → Bool → Action (Unit {0})
  unfolding report_task made_for_report
  push_report_task task_id r organisation_id create_schedule db =
      let (pushed, db') =
        Scheduler.push_item_to_queue h sch env (Scheduler.calculate_deadline sch env)
          record { task = report_task task_id r organisation_id; set = made_for_report } true db in
      (swallowed (map_result (λ t. tt) pushed), db')

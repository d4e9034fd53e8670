-- ===== src/Mula/Normalizers.antt =====
-- mula/scheduler/schedulers/schedulers/normalizer.py: process_raw_data, whose result is what it
-- submits to the pool of threads, and push_normalizer_task. The wait for space on the queue, which
-- writes nothing, is over where a push starts.
pub mod Submitted
use Prim.Native.Nat.{ℕ}
use text.Mathlib.Text.{starts_with}
use nl_kat_coordination.Prelude.{
  ℤ, String, List, [], ◌∷◌, map, keep, any_of, Option, none, some, Bool, true, false, ◌||◌, ◌&&◌,
  not, ◌==◌, str_eq, if◌then◌else◌,
}
use nl_kat_coordination.Mula.Models.{
  TaskStatus, status_eq, BoefjeMeta, BoefjeTask, NormalizerTask, TaskData, normalizer_data, Task,
  Schedule, Hasher, boefje_hash, normalizer_hash,
}
use nl_kat_coordination.Mula.Database.{
  Db, Action, Result, ok, err, validation_error, attribute_error, pure, ◌>>=◌, ◌>>◌,
}
use nl_kat_coordination.Mula.ScheduleStore
use nl_kat_coordination.Mula.Queue.{Pushed}
use nl_kat_coordination.Mula.Scheduler
use nl_kat_coordination.Mula.Scheduler.{Scheduler, Env}
use nl_kat_coordination.Mula.Rankers.{normalizer_rank}
use nl_kat_coordination.Mula.Boefje.{Plugin}
use nl_kat_coordination.Mula.BoefjeQueue.{lift, made_by_scheduler}
use nl_kat_coordination.Mula.BoefjeTasks.{swallowed, then_result, map_result}

-- A mime type is what its dictionary has under "value", if anything.
pub record RawData : Type 0 where
  pub boefje_meta : BoefjeMeta
  pub mime_types : List (Option String)

pub record RawDataReceivedEvent : Type 0 where
  pub raw_data : RawData
  pub organization : String

-- `mime_type.get("value", "")`
abbrev value_of : Option String → String
value_of none = ""
value_of (some v) = v

unfoldable pub has_raw_data_deschedule : RawData → Bool
has_raw_data_deschedule r = any_of (λ m. str_eq (value_of m) "openkat/deschedule") r.mime_types

unfoldable pub has_raw_data_errors : RawData → Bool
has_raw_data_errors r = any_of (λ m. starts_with (value_of m) "error/") r.mime_types

-- `normalizers[normalizer.id] = normalizer`
unfoldable pub set_normalizer : Plugin → List Plugin → List Plugin
set_normalizer p [] = p ∷ []
set_normalizer p (q ∷ qs) =
    let rest = set_normalizer p qs in if str_eq q.id p.id then p ∷ qs else q ∷ rest

unfoldable pub set_normalizers : List Plugin → List Plugin → List Plugin
unfolding set_normalizer
set_normalizers [] found = found
set_normalizers (p ∷ ps) found = set_normalizers ps (set_normalizer p found)

unfoldable pub has_normalizer_permission_to_run : Plugin → Bool
has_normalizer_permission_to_run p = p.enabled

-- has_normalizer_task_started_running; `task_db` is the argument that may be None.
unfoldable pub has_normalizer_task_started_running : NormalizerTask → Option Task → Bool
has_normalizer_task_started_running t none = false
has_normalizer_task_started_running t (some task_db) =
    not
      (status_eq task_db.status TaskStatus.completed || status_eq task_db.status TaskStatus.failed)

-- `normalizers` is katalogus.get_normalizers_by_org_id_and_type, `new_id` the UUID of a task.
module _ (h : Hasher) (normalizers : String → Option String → Result (List Plugin))
    (new_id : Plugin → ℕ) where
  -- "Get all unique normalizers for the mime types of the raw data"
  unfoldable pub find_normalizers :
      String → List (Option String) → List Plugin → Result (List Plugin)
  unfolding set_normalizers
  find_normalizers organization [] found = ok found
  find_normalizers organization (m ∷ ms) found =
      then_result (normalizers organization m)
        (λ ps. find_normalizers organization ms (set_normalizers ps found))

  -- "Create tasks for the normalizers"
  unfoldable pub normalizer_tasks : RawData → List Plugin → List NormalizerTask
  unfolding has_normalizer_permission_to_run
  normalizer_tasks r ps =
      map
        (λ (p : Plugin). record {
          id = new_id p;
          normalizer_id = p.id;
          boefje_meta = r.boefje_meta;
        })
        (keep has_normalizer_permission_to_run ps)

  descheduled_task : RawData → BoefjeTask
  descheduled_task r = record {
    id = 0;
    boefje = r.boefje_meta.boefje;
    input_ooi = r.boefje_meta.input_ooi;
    organization = r.boefje_meta.organization;
    deduplication_key = none;
  }

  delete_if_found : Option Schedule → Action (List NormalizerTask)
  delete_if_found none = pure []
  delete_if_found (some s) = do ScheduleStore.delete_schedule s.id; pure []

  unfoldable pub deschedule : RawData → Action (List NormalizerTask)
  unfolding descheduled_task delete_if_found
  deschedule r = do
    found ← ScheduleStore.get_schedule_by_hash (some (boefje_hash h (descheduled_task r)))
    delete_if_found found

  of_event : RawDataReceivedEvent → Action (List NormalizerTask)
  unfolding deschedule normalizer_tasks find_normalizers has_raw_data_deschedule has_raw_data_errors
  of_event e =
      if has_raw_data_deschedule e.raw_data
      then deschedule e.raw_data
      else if has_raw_data_errors e.raw_data
      then pure []
      else lift (
          map_result (normalizer_tasks e.raw_data)
            (find_normalizers e.organization e.raw_data.mime_types []))

  -- none is a message that does not validate.
  unfoldable pub process_raw_data : Option RawDataReceivedEvent → Action (List NormalizerTask)
  unfolding of_event
  process_raw_data none = pure []
  process_raw_data (some e) = of_event e

module _ (h : Hasher) (sch : Scheduler) (env : Env) where
  -- NormalizerScheduler.push_item_to_queue
  same_id : ℕ → TaskData → Pushed → Result Pushed
  same_id new_id (normalizer_data n) p =
      if p.task.id == n.id
      then ok p
      else ok (record {
        task = record p.task { id = new_id; body = normalizer_data (record n { id = new_id }) };
        set = record p.set { id = true; body = true };
      })
  same_id new_id _ p = err validation_error

  unfoldable pub push_item_to_queue : ℕ → Pushed → Bool → Action Task
  unfolding same_id
  push_item_to_queue new_id p create_schedule = do
    p' ← lift (same_id new_id p.task.body p)
    Scheduler.push_item_to_queue h sch env (Scheduler.calculate_deadline sch env) p' create_schedule

  unfoldable pub task_for : NormalizerTask → String → Task
  task_for n organisation_id = record {
    id = n.id;
    scheduler_id = sch.scheduler_id;
    schedule_id = none;
    organisation = organisation_id;
    priority = normalizer_rank n;
    status = TaskStatus.pending;
    type = some "normalizer";
    hash = some (normalizer_hash h n);
    body = normalizer_data n;
    created_at = env.now;
    modified_at = env.now;
  }

  unfoldable pub push_ranked : Task → Bool → Option ℤ → Action (Unit {0})
  push_ranked t create_schedule none db = (err attribute_error, db)
  push_ranked t create_schedule (some rank) db =
      let (r, db') =
        push_item_to_queue t.id (record { task = t; set = made_by_scheduler }) create_schedule db in
      (map_result (λ u. tt) r, db')

  -- The decorator exception_handler is around it. The check is made without a task from the database.
  unfoldable pub push_normalizer_task : NormalizerTask → String → Bool → Action (Unit {0})
  unfolding task_for push_ranked has_normalizer_task_started_running
  push_normalizer_task n organisation_id create_schedule db =
      if has_normalizer_task_started_running n none
      then (ok tt, db)
      else let (r, db') =
          push_ranked (task_for n organisation_id) create_schedule (normalizer_rank n) db in
        (swallowed r, db')

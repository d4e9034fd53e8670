-- ===== src/Mula/Boefje.antt =====
-- mula/scheduler/schedulers/schedulers/boefje.py: the checks of the boefje scheduler and the push of
-- a boefje task. What Katalogus, Bytes and Octopoes answer are functions in `Services`; a failed
-- call is the error `external_service`.
pub mod Permission
use nl_kat_coordination.Prelude.{
  ℕ, ◌+◌, ◌*◌, String, List, [], ◌∷◌, ◌++◌, map, Option, none, some, Bool, true, false, ◌&&◌, ◌||◌,
  not, ltb, leb, ◌==◌, any_of, is_some, str_eq, option_eq, pos, if◌then◌else◌,
}
use nl_kat_coordination.Mula.Models.{
  TaskStatus, is_active_status, status_eq, Boefje, BoefjeTask, BoefjeMeta, TaskData, boefje_data,
  Task, Schedule, Hasher, boefje_hash,
}
use nl_kat_coordination.Mula.Database.{
  Db, Action, Error, Result, ok, err, invalid_item, not_allowed, queue_full, runtime,
  attribute_error, external_service, waits_forever, pure, raise, gets, ◌>>=◌, ◌>>◌,
}
use nl_kat_coordination.Mula.TaskStore
use nl_kat_coordination.Mula.Queue.{Pushed, FieldsSet}
use nl_kat_coordination.Mula.Scheduler
use nl_kat_coordination.Mula.Scheduler.{Scheduler, Env}
use nl_kat_coordination.Mula.Rankers.{time_based_rank}

pub data RunOn : Type 0 where
  on_create on_update : RunOn

pub record Plugin : Type 0 where
  pub id : String
  pub type : String
  pub enabled : Bool
  pub boefje : Boefje
  pub scan_level : Option ℕ
  pub consumes : List String
  pub cron : Option String
  pub interval : Option ℕ
  pub run_on : Option (List RunOn)

pub record ScanProfile : Type 0 where
  pub level : Option ℕ

pub record Ooi : Type 0 where
  pub primary_key : String
  pub object_type : String
  pub scan_profile : Option ScanProfile

pub record Services : Type 0 where
  -- katalogus.get_plugin_by_id_and_org_id
  pub plugin : String → String → Result (Option Plugin)
  -- bytes.get_last_run_boefje
  pub last_run : BoefjeTask → Result (Option BoefjeMeta)
  -- katalogus.get_configs(…, enabled=True, with_duplicates=True): of each config the organisations
  -- of its duplicates
  pub configs : BoefjeTask → Result (List (List String))
  -- octopoes.get_object_clients: a dictionary from organisations to objects
  pub object_clients : String → List String → Result (List (String × Ooi))
  -- `uuid.uuid4()` for the task of another organisation, and for the schedule of a task
  pub task_uuid : String → ℕ
  pub schedule_uuid : Task → ℕ

level_allows : ℕ → Option ℕ → Bool
level_allows boefje_scan_level none = false
level_allows boefje_scan_level (some ooi_scan_level) = not (ltb ooi_scan_level boefje_scan_level)

profile_allows : ℕ → Option ScanProfile → Bool
unfolding level_allows
profile_allows boefje_scan_level none = false
profile_allows boefje_scan_level (some profile) = level_allows boefje_scan_level profile.level

ooi_allows : ℕ → Option Ooi → Bool
unfolding profile_allows
ooi_allows boefje_scan_level none = true
ooi_allows boefje_scan_level (some ooi) = profile_allows boefje_scan_level ooi.scan_profile

scan_level_allows : Option ℕ → Option Ooi → Bool
unfolding ooi_allows
scan_level_allows none ooi = false
scan_level_allows (some boefje_scan_level) ooi = ooi_allows boefje_scan_level ooi

unfoldable pub has_boefje_permission_to_run : Plugin → Option Ooi → Bool
unfolding scan_level_allows
has_boefje_permission_to_run boefje ooi =
    if boefje.enabled then scan_level_allows boefje.scan_level ooi else false

abbrev pub is_finished : TaskStatus → Bool
is_finished s = status_eq s TaskStatus.failed || status_eq s TaskStatus.completed

-- `task_bytes.ended_at is None and task_bytes.started_at is not None`
running_in_bytes : Option BoefjeMeta → Bool
running_in_bytes none = false
running_in_bytes (some m) = not (is_some m.ended_at) && is_some m.started_at

started_running_db : Env → Task → Option BoefjeMeta → Result Bool
unfolding running_in_bytes
started_running_db env task_db task_bytes =
    if not (is_finished task_db.status)
    then ok true
    else if not (is_some task_bytes) && ltb env.now (task_db.modified_at + env.grace_period)
    then err runtime
    else ok (running_in_bytes task_bytes)

unfoldable pub has_boefje_task_started_running : Env → Option Task → Option BoefjeMeta → Result Bool
unfolding started_running_db
has_boefje_task_started_running env none task_bytes = ok (running_in_bytes task_bytes)
has_boefje_task_started_running env (some task_db) task_bytes =
    started_running_db env task_db task_bytes

unfoldable pub has_boefje_task_stalled : Env → Task → Bool
has_boefje_task_stalled env t =
    (status_eq t.status TaskStatus.dispatched || status_eq t.status TaskStatus.running)
    && ltb (t.modified_at + env.grace_period) env.now

-- The interval of the plugin in seconds, or the grace period of the configuration
timeout_of : Env → Option Plugin → ℕ
timeout_of env none = env.grace_period
timeout_of env (some p) = elim p.interval [
  | none ↦ env.grace_period
  | some minutes ↦ if ltb 0 minutes then minutes * 60 else env.grace_period
]

-- `now - modified_at < timeout`
abbrev recent : ℕ → ℕ → ℕ → Bool
recent now timeout time = ltb now (time + timeout)

recent_task : ℕ → ℕ → Option Task → Bool
recent_task now timeout none = false
recent_task now timeout (some t) = recent now timeout t.modified_at

recent_run : ℕ → ℕ → Option BoefjeMeta → Bool
recent_run now timeout none = false
recent_run now timeout (some m) = elim m.ended_at [
  | none ↦ false
  | some ended_at ↦ recent now timeout ended_at
]

unfoldable pub has_boefje_task_grace_period_passed :
    Env → Option Plugin → Option Task → Option BoefjeMeta → Bool
unfolding timeout_of recent_task recent_run
has_boefje_task_grace_period_passed env plugin task_db task_bytes =
    let timeout = timeout_of env plugin in
    not (recent_task env.now timeout task_db) && not (recent_run env.now timeout task_bytes)

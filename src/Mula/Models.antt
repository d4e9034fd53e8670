-- ===== src/Mula/Models.antt =====
-- mula/scheduler/models: tasks, schedules and the work items that a task carries. Times are
-- seconds since the epoch and UUIDs are numbers: the program only compares UUIDs.
use Prim.Native.String.{◌++◌}
use nl_kat_coordination.Prelude.{
  ℕ, String, Option, none, some, Bool, true, false, ◌&&◌, ℤ, ◌==◌, str_eq, option_eq, option_str_eq,
  if◌then◌else◌,
}

pub data TaskStatus : Type 0 where
  pending queued dispatched running completed failed cancelled : TaskStatus

abbrev pub status_eq : TaskStatus → TaskStatus → Bool
status_eq TaskStatus.pending TaskStatus.pending = true
status_eq TaskStatus.queued TaskStatus.queued = true
status_eq TaskStatus.dispatched TaskStatus.dispatched = true
status_eq TaskStatus.running TaskStatus.running = true
status_eq TaskStatus.completed TaskStatus.completed = true
status_eq TaskStatus.failed TaskStatus.failed = true
status_eq TaskStatus.cancelled TaskStatus.cancelled = true
status_eq _ _ = false

-- `status in ACTIVE_TASK_STATUSES`
abbrev pub is_active_status : TaskStatus → Bool
is_active_status TaskStatus.pending = true
is_active_status TaskStatus.queued = true
is_active_status TaskStatus.dispatched = true
is_active_status TaskStatus.running = true
is_active_status _ = false

pub record Boefje : Type 0 where
  pub id : String
  pub name : Option String
  pub version : Option String
  pub oci_image : Option String

pub record BoefjeMeta : Type 0 where
  pub id : ℕ
  pub boefje : Boefje
  pub input_ooi : Option String
  pub organization : String
  pub started_at : Option ℕ
  pub ended_at : Option ℕ

pub record BoefjeTask : Type 0 where
  pub id : ℕ
  pub boefje : Boefje
  pub input_ooi : Option String
  pub organization : String
  pub deduplication_key : Option ℕ

pub record NormalizerTask : Type 0 where
  pub id : ℕ
  pub normalizer_id : String
  pub boefje_meta : BoefjeMeta

pub record ReportTask : Type 0 where
  pub organisation_id : String
  pub report_recipe_id : String

-- The JSON in `Task.data`, by the model that it validates as.
pub data TaskData : Type 0 where
  boefje_data : BoefjeTask → TaskData
  normalizer_data : NormalizerTask → TaskData
  report_data : ReportTask → TaskData
  other_data : String → TaskData

pub data ItemType : Type 0 where
  boefje_item normalizer_item report_item : ItemType

pub record Task : Type 0 where
  pub id : ℕ
  pub scheduler_id : String
  pub schedule_id : Option ℕ
  pub organisation : String
  pub priority : Option ℤ
  pub status : TaskStatus
  pub type : Option String
  pub hash : Option String
  pub body : TaskData
  pub created_at : ℕ
  pub modified_at : ℕ

pub record Schedule : Type 0 where
  pub id : ℕ
  pub scheduler_id : String
  pub organisation : String
  pub hash : Option String
  pub body : Option TaskData
  pub enabled : Bool
  pub schedule : Option String
  pub deadline_at : Option ℕ
  pub created_at : ℕ
  pub modified_at : ℕ

-- `==` of pydantic models and of JSON values: field by field.
pub boefje_eq : Boefje → Boefje → Bool
boefje_eq a b =
    str_eq a.id b.id
    && option_str_eq a.name b.name
    && option_str_eq a.version b.version
    && option_str_eq a.oci_image b.oci_image

pub boefje_meta_eq : BoefjeMeta → BoefjeMeta → Bool
unfolding boefje_eq
boefje_meta_eq a b =
    a.id == b.id
    && boefje_eq a.boefje b.boefje
    && option_str_eq a.input_ooi b.input_ooi
    && str_eq a.organization b.organization
    && option_eq a.started_at b.started_at
    && option_eq a.ended_at b.ended_at

pub body_eq : TaskData → TaskData → Bool
unfolding boefje_meta_eq
body_eq (boefje_data a) (boefje_data b) =
    a.id == b.id
    && boefje_eq a.boefje b.boefje
    && option_str_eq a.input_ooi b.input_ooi
    && str_eq a.organization b.organization
    && option_eq a.deduplication_key b.deduplication_key
body_eq (normalizer_data a) (normalizer_data b) =
    a.id == b.id
    && str_eq a.normalizer_id b.normalizer_id
    && boefje_meta_eq a.boefje_meta b.boefje_meta
body_eq (report_data a) (report_data b) =
    str_eq a.organisation_id b.organisation_id && str_eq a.report_recipe_id b.report_recipe_id
body_eq (other_data a) (other_data b) = str_eq a b
body_eq _ _ = false

abbrev pub is_active : Task → Bool
is_active t = is_active_status t.status

-- BoefjeTask.hash hashes this text; `if self.input_ooi` is false for None and for "".
unfoldable pub boefje_hash_key : BoefjeTask → Option String → String
boefje_hash_key t none = t.boefje.id ++ "-" ++ t.organization
boefje_hash_key t (some ooi) =
    if str_eq ooi ""
    then t.boefje.id ++ "-" ++ t.organization
    else ooi ++ "-" ++ t.boefje.id ++ "-" ++ t.organization

-- What the program takes from mmh3 and from `uuid.UUID.__str__`.
pub record Hasher : Type 0 where
  pub hash_bytes : String → String
  pub uuid_text : ℕ → String

module _ (h : Hasher) where
  unfoldable pub boefje_hash : BoefjeTask → String
  unfolding boefje_hash_key
  boefje_hash t = h.hash_bytes (boefje_hash_key t t.input_ooi)

  unfoldable pub normalizer_hash : NormalizerTask → String
  normalizer_hash t =
      h.hash_bytes (
        t.normalizer_id ++ "-" ++ h.uuid_text t.boefje_meta.id ++ "-" ++ t.boefje_meta.organization)

  unfoldable pub report_hash : ReportTask → String
  report_hash t = h.hash_bytes (t.report_recipe_id ++ "-" ++ t.organisation_id)

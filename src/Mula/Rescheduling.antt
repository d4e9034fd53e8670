-- ===== src/Mula/Rescheduling.antt =====
-- mula/scheduler/schedulers/schedulers/boefje.py: process_rescheduling for one due schedule. What it
-- submits to the pool of threads is the result. `consumes` of a plugin is a list.
pub mod Reschedulable
use nl_kat_coordination.Prelude.{
  ℕ, String, List, [], ◌∷◌, Option, none, some, Bool, true, false, not, any_of, str_eq,
  if◌then◌else◌,
}
use nl_kat_coordination.Mula.Models.{BoefjeTask, Schedule}
use nl_kat_coordination.Mula.Database.{
  Action, Error, Result, ok, err, integrity, validation_error, external_service, pure, raise, ◌>>=◌,
  ◌>>◌,
}
use nl_kat_coordination.Mula.ScheduleStore
use nl_kat_coordination.Mula.Boefje.{Plugin, Ooi, Services, has_boefje_permission_to_run}

-- `oois[org][reference]`: the last object that octopoes returned with the key
unfoldable pub find_object : String → List Ooi → Option Ooi
find_object key [] = none
find_object key (o ∷ os) = elim (find_object key os) [
  | some later ↦ some later
  | none ↦ if str_eq o.primary_key key then some o else none
]

-- `if boefje_task.input_ooi:` is false for None and for an empty text.
unfoldable pub given_input : Option String → Option String
given_input none = none
given_input (some key) = if str_eq key "" then none else some key

pub data Verdict : Type 0 where
  skips disables : Verdict
  reschedules : Plugin → Verdict

object_verdict : Plugin → Option Ooi → Verdict
object_verdict plugin none = disables
object_verdict plugin (some ooi) =
    if not (any_of (str_eq ooi.object_type) plugin.consumes)
    then disables
    else if not (has_boefje_permission_to_run plugin (some ooi))
    then disables
    else reschedules plugin

input_verdict : Plugin → List Ooi → Option String → Verdict
unfolding object_verdict
input_verdict plugin objects none = reschedules plugin
input_verdict plugin objects (some key) = object_verdict plugin (find_object key objects)

unfoldable pub verdict : List Ooi → Option String → Option Plugin → Verdict
unfolding input_verdict
verdict objects input none = disables
verdict objects input (some plugin) =
    if not plugin.enabled
    then disables
    else if not (str_eq plugin.type "boefje")
    then skips
    else input_verdict plugin objects input

-- `except (StorageError, ValidationError, ExternalServiceError): continue`
abbrev pub is_continued : Error → Bool
is_continued (integrity c) = true
is_continued validation_error = true
is_continued external_service = true
is_continued _ = false

module _ {A : Type 0} where
  continued : Result (Option A) → Result (Option A)
  continued (ok a) = ok a
  continued (err e) = if is_continued e then ok none else err e

-- `objects` is what get_objects answered for each organisation: none for one whose read timed out.
module _ (svc : Services) (objects : String → Option (List Ooi)) (new_id : Schedule → ℕ) where
  carry_out : Schedule → Option String → Verdict → Action (Option BoefjeTask)
  carry_out s input skips = pure none
  carry_out s input disables = do
    ScheduleStore.update_schedule (record s { enabled = false })
    pure none
  carry_out s input (reschedules plugin) = pure (
      some (record {
        id = new_id s;
        boefje = plugin.boefje;
        input_ooi = input;
        organization = s.organisation;
        deduplication_key = none;
      }))

  with_plugin :
      Schedule → List Ooi → Option String → Result (Option Plugin) → Action (Option BoefjeTask)
  unfolding carry_out
  with_plugin s found input (err e) = raise e
  with_plugin s found input (ok plugin) = carry_out s input (verdict found input plugin)

  with_objects : Schedule → BoefjeTask → Option (List Ooi) → Action (Option BoefjeTask)
  unfolding with_plugin
  with_objects s b none = pure none
  with_objects s b (some found) =
      with_plugin s found (given_input b.input_ooi) (svc.plugin b.boefje.id s.organisation)

  -- The body of the second loop, for a schedule of the task `b`
  unfoldable pub reschedule : Schedule → BoefjeTask → Action (Option BoefjeTask)
  unfolding with_objects continued
  reschedule s b db =
      let (r, db') = with_objects s b (objects b.organization) db in (continued r, db')

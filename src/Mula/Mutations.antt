-- ===== src/Mula/Mutations.antt =====
-- mula/scheduler/schedulers/schedulers/boefje.py: process_mutations, and the message that it gets
-- from octopoes/octopoes/events/manager.py. What is submitted to the pool of threads is the result:
-- each task with its create_schedule, for push_boefje_task in any order.
pub mod Submitted
use nl_kat_coordination.Prelude.{
  ℕ, String, List, [], ◌∷◌, Option, none, some, Bool, true, false, ◌&&◌, not, any_of, if◌then◌else◌,
}
use nl_kat_coordination.Mula.Models.{TaskStatus, BoefjeTask, Task}
use nl_kat_coordination.Mula.Database.{Action, Result, ok, err, pure, ◌>>=◌, ◌>>◌}
use nl_kat_coordination.Mula.PqStore
use nl_kat_coordination.Mula.TaskStore
use nl_kat_coordination.Mula.BoefjeQueue.{lift}
use nl_kat_coordination.Mula.Boefje.{RunOn, Plugin, ScanProfile, Ooi, has_boefje_permission_to_run}

pub data MutationOperationType : Type 0 where
  create update delete : MutationOperationType

pub record ScanProfileMutation : Type 0 where
  pub operation : MutationOperationType
  pub primary_key : String
  pub value : Option Ooi
  pub client_id : String

-- A ScanProfileDBEvent of octopoes: the object's reference with its class, and the new profile, which
-- is not read on a delete
pub record ScanProfileEvent : Type 0 where
  pub operation_type : MutationOperationType
  pub reference : String
  pub class_name : String
  pub new_data : ScanProfile
  pub client : String

value_of : ScanProfileEvent → MutationOperationType → Option Ooi
value_of event delete = none
value_of event _ = some (record {
  primary_key = event.reference;
  object_type = event.class_name;
  scan_profile = some event.new_data;
})

-- EventManager._publish, from `mutation = ScanProfileMutation(…)`
unfoldable pub published : ScanProfileEvent → ScanProfileMutation
unfolding value_of
published event = record {
  operation = event.operation_type;
  primary_key = event.reference;
  value = value_of event event.operation_type;
  client_id = event.client;
}

-- `RunOn.CREATE in boefje.run_on`, or the same for UPDATE
abbrev pub is_run_on : MutationOperationType → RunOn → Bool
is_run_on create RunOn.on_create = true
is_run_on update RunOn.on_update = true
is_run_on _ _ = false

-- create_schedule and run_task of a boefje
unfoldable pub run_type : MutationOperationType → Option (List RunOn) → Bool × Bool
run_type operation none = (true, true)
run_type operation (some []) = (true, true)
run_type operation (some (r ∷ rs)) = (false, any_of (is_run_on operation) (r ∷ rs))

module _ (new_id : Plugin → ℕ) where
  submitted_task : Ooi → String → Plugin → BoefjeTask
  submitted_task ooi client_id boefje = record {
    id = new_id boefje;
    boefje = boefje.boefje;
    input_ooi = some ooi.primary_key;
    organization = client_id;
    deduplication_key = none;
  }

  -- The loop over boefjes
  unfoldable pub tasks_of_mutation :
      MutationOperationType → Ooi → String → List Plugin → List (BoefjeTask × Bool)
  unfolding submitted_task run_type
  tasks_of_mutation operation ooi client_id [] = []
  tasks_of_mutation operation ooi client_id (boefje ∷ rest) =
      let later = tasks_of_mutation operation ooi client_id rest in
      if has_boefje_permission_to_run boefje (some ooi) && (run_type operation boefje.run_on).1
      then (submitted_task ooi client_id boefje, (run_type operation boefje.run_on).0) ∷ later
      else later

-- The loop over the queued items of a deleted object
unfoldable pub cancel_items : List Task → Action (Unit {0})
cancel_items [] = pure tt
cancel_items (item ∷ items) = do
  found ← TaskStore.get_task item.id
  elim found [
    | none ↦ pure tt
    | some task ↦ TaskStore.update_task (record task { status = TaskStatus.cancelled })
  ]
  cancel_items items

-- `boefjes` is katalogus.get_boefjes_by_type_and_org_id, `has_input` the filter on data.input_ooi.
module _ (scheduler_id : String) (boefjes : String → String → Result (List Plugin))
    (has_input : String → Task → Bool) (new_id : Plugin → ℕ) where
  with_value : MutationOperationType → String → Option Ooi → Action (List (BoefjeTask × Bool))
  unfolding cancel_items tasks_of_mutation
  with_value operation client_id none = pure []
  with_value delete client_id (some ooi) = do
    items ← PqStore.get_items scheduler_id (some (has_input ooi.primary_key))
    cancel_items items.0
    pure []
  with_value operation client_id (some ooi) = do
    found ← lift (boefjes ooi.object_type client_id)
    pure (tasks_of_mutation new_id operation ooi client_id found)

  unfoldable pub process_mutations : ScanProfileMutation → Action (List (BoefjeTask × Bool))
  unfolding with_value
  process_mutations mutation = with_value mutation.operation mutation.client_id mutation.value

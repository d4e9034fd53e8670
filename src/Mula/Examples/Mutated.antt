-- ===== src/Mula/Examples/Mutated.antt =====
-- Mutations of the scan profile of one object.
use nl_kat_coordination.Prelude.{◌∷◌, [], some, true, Memᴰ, ◌≡◌, refl}
use nl_kat_coordination.Mula.Models.{TaskStatus, BoefjeTask}
use nl_kat_coordination.Mula.Database.{ok}
use nl_kat_coordination.Mula.Boefje.{Plugin, has_boefje_permission_to_run, RunOn}
use nl_kat_coordination.Mula.Mutations.{
  MutationOperationType, ScanProfileEvent, published, run_type, tasks_of_mutation,
  process_mutations,
}
use nl_kat_coordination.Mula.Mutations.Submitted.{
  IsSubmitted, tasks_of_mutation-IsSubmitted, deletion_ignored,
}
use nl_kat_coordination.Mula.Queue.Examples.{boefje_task}
use nl_kat_coordination.Mula.Examples.{plugin, ooi, holding, with_status}

abbrev on_update_only : Plugin
on_update_only = record plugin { run_on = some (RunOn.on_update ∷ []) }

abbrev submitted : BoefjeTask
submitted = record (boefje_task 9 "org-a") { input_ooi = some "Host|a" }

program : Unit {0}
unfolding tasks_of_mutation has_boefje_permission_to_run run_type
program = tt

-- A boefje that runs on updates only is skipped when the object is created.
created_object :
    tasks_of_mutation
      (λ b. 9)
      MutationOperationType.create
      ooi
      "org-a"
      (on_update_only ∷ plugin ∷ [])
    ≡ (submitted, true) ∷ []
unfolding program
created_object = refl

tasks_of_mutation_example :
    IsSubmitted MutationOperationType.create ooi "org-a"
      (on_update_only ∷ plugin ∷ [])
      submitted
      true
unfolding program
tasks_of_mutation_example =
    tasks_of_mutation-IsSubmitted (λ b. 9) MutationOperationType.create ooi "org-a"
      (on_update_only ∷ plugin ∷ []) submitted true (Memᴰ.head refl)

abbrev deletion : ScanProfileEvent
deletion = record {
  operation_type = MutationOperationType.delete;
  reference = "Host|a";
  class_name = "Host";
  new_data = record { level = some 2 };
  client = "org-a";
}

deletion_ignored_example :
    process_mutations "boefje"
      (λ t o. ok (plugin ∷ []))
      (λ o t. true)
      (λ b. 9)
      (published deletion)
      (holding (with_status TaskStatus.queued))
    ≡ (ok [], holding (with_status TaskStatus.queued))
deletion_ignored_example =
    deletion_ignored "boefje" (λ t o. ok (plugin ∷ [])) (λ o t. true) (λ b. 9) deletion
      (holding (with_status TaskStatus.queued)) refl

-- ===== src/Mula/Examples/Rescheduled.antt =====
-- A due schedule of one boefje and object.
use nl_kat_coordination.Prelude.{List, [], ◌∷◌, Option, none, some, ◌≡◌, refl}
use nl_kat_coordination.Mula.Models.{TaskStatus, BoefjeTask}
use nl_kat_coordination.Mula.Database.{ok}
use nl_kat_coordination.Mula.Boefje.{Plugin, Ooi, has_boefje_permission_to_run}
use nl_kat_coordination.Mula.Rescheduling.{given_input, find_object, verdict, reschedule}
use nl_kat_coordination.Mula.Rescheduling.Reschedulable.{
  IsReschedulable, reschedule-IsReschedulable,
}
use nl_kat_coordination.Mula.Queue.Examples.{boefje_task}
use nl_kat_coordination.Mula.Examples.{plugin, ooi, services, schedule, holding, with_status}

abbrev again : BoefjeTask
again = record (boefje_task 9 "org-a") { input_ooi = some "Host|a" }

program : Unit {0}
unfolding reschedule verdict find_object given_input has_boefje_permission_to_run
program = tt

rescheduled :
    reschedule services
      (λ org. some (ooi ∷ []))
      (λ s. 9)
      schedule
      (boefje_task 1 "org-a")
      (holding (with_status TaskStatus.completed))
    ≡ (ok (some again), holding (with_status TaskStatus.completed))
unfolding program
rescheduled = refl

reschedule_example :
    (found : List Ooi) × (o : Option Plugin) × (p : Plugin) × (some (ooi ∷ []) ≡ some found)
    × (ok (some plugin) ≡ ok o)
    × IsReschedulable found (given_input (some "Host|a")) o p
    × (again ≡ (record {
      id = 9;
      boefje = p.boefje;
      input_ooi = given_input (some "Host|a");
      organization = "org-a";
      deduplication_key = none;
    }))
    × ((reschedule services
          (λ org. some (ooi ∷ []))
          (λ s. 9)
          schedule
          (boefje_task 1 "org-a")
          (holding (with_status TaskStatus.completed))).1
        ≡ holding (with_status TaskStatus.completed))
unfolding program
reschedule_example =
    reschedule-IsReschedulable services (λ org. some (ooi ∷ [])) (λ s. 9) schedule
      (boefje_task 1 "org-a") (holding (with_status TaskStatus.completed)) again refl

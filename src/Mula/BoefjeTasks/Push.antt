-- ===== src/Mula/BoefjeTasks/Push.antt =====
-- When push_boefje_task creates no task.
use nl_kat_coordination.Prelude.{
  String, Option, none, some, Bool, true, false, ◌≡◌, Bool-cases, inl, inr,
}
use nl_kat_coordination.Mula.Models.{
  TaskStatus, is_active, BoefjeTask, BoefjeMeta, Task, Hasher, boefje_hash,
}
use nl_kat_coordination.Mula.Database.{Db, Result-cases, ok, err, external_service, attribute_error}
use nl_kat_coordination.Mula.TaskStore
use nl_kat_coordination.Mula.Scheduler.{Scheduler, Env}
use nl_kat_coordination.Mula.Boefje.{
  Plugin, Services, has_boefje_task_started_running, has_boefje_task_grace_period_passed,
}
use nl_kat_coordination.Mula.BoefjeTasks.{
  push_if_allowed, push_boefje_task, push_after, is_boefje_in_other_orgs, in_other_orgs,
}

module _ (h : Hasher) (sch : Scheduler) (env : Env) (svc : Services) (b : BoefjeTask)
    (create_schedule : Bool) (db : Db) where
  cancelled-running :
      (t : Task) (m : Option BoefjeMeta)
      → t.status ≡ TaskStatus.cancelled
      → has_boefje_task_started_running env (some t) m ≡ ok true
  unfolding has_boefje_task_started_running
  cancelled-running t m e = rw e

  if_allowed-cancelled :
      (t : Task)
      → t.status ≡ TaskStatus.cancelled
      → (push_if_allowed h sch env svc b create_schedule (some t) db).1 ≡ db
  unfolding push_if_allowed
  if_allowed-cancelled t e = elim (Result-cases (svc.last_run b)) [
    | inr (x, k) ↦ rw k
    | inl (m, k) ↦ elim (Result-cases (svc.plugin b.boefje.id b.organization)) [
      | inr (x, l) ↦ rw (k, l)
      | inl (p, l) ↦ elim (Bool-cases (has_boefje_task_grace_period_passed env p (some t) m)) [
        | inr n ↦ rw (k, l, n)
        | inl n ↦ rw (k, l, n, cancelled-running t m e)
      ]
    ]
  ]

  -- Once the latest task with the hash is CANCELLED, no push of the same boefje, object and organisation
  -- creates a task, at any time and whatever the services answer.
  pub push_boefje_task-cancelled :
      (t : Task)
      → TaskStore.get_latest_task_by_hash (boefje_hash h b) db ≡ some t
      → t.status ≡ TaskStatus.cancelled
      → (push_boefje_task h sch env svc b create_schedule db).1 ≡ db
  unfolding push_boefje_task
  push_boefje_task-cancelled t found e = rw (found, push_after, inactive) (if_allowed-cancelled t e)
    where
      inactive : is_active t ≡ false
      inactive = rw e

  -- For a boefje with an object, where no earlier task or run is known and Katalogus answers for the
  -- plugin but not for the configurations, push_boefje_task raises AttributeError, which its handler does not catch, and
  -- pushes nothing.
  pub push_boefje_task-unanswered :
      (ooi : String) (plugin : Option Plugin)
      → TaskStore.get_latest_task_by_hash (boefje_hash h b) db ≡ none
      → svc.last_run b ≡ ok none
      → svc.plugin b.boefje.id b.organization ≡ ok plugin
      → b.input_ooi ≡ some ooi
      → svc.configs b ≡ err external_service
      → push_boefje_task h sch env svc b create_schedule db ≡ (err attribute_error, db)
  unfolding push_boefje_task push_if_allowed is_boefje_in_other_orgs
      has_boefje_task_grace_period_passed has_boefje_task_started_running
  push_boefje_task-unanswered ooi plugin new never found input failed =
      rw (new, push_after, never, found, input, in_other_orgs, failed)

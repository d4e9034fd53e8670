-- ===== src/Mula/BoefjeQueue/Interval.antt =====
-- The interval of a boefje and the deadline of its schedules.
use nl_kat_coordination.Prelude.{ℕ, Option, some, true, ◌≡◌, arith, inl, inr}
use nl_kat_coordination.Mula.Models.{BoefjeTask, boefje_data, Schedule}
use nl_kat_coordination.Mula.Database.{Result-cases, ok}
use nl_kat_coordination.Mula.Scheduler
use nl_kat_coordination.Mula.Scheduler.{Scheduler, Env}
use nl_kat_coordination.Mula.Boefje.{Plugin, Services}
use nl_kat_coordination.Mula.BoefjeQueue.{
  calculate_deadline, deadline_of, deadline_for, with_cron, with_interval,
}

forgets_deadline :
    (sch : Scheduler) (env : Env) (s : Schedule) (i : Option ℕ)
    → sch.auto_calculate_deadline ≡ true
    → Scheduler.calculate_deadline sch env (with_interval env i s)
      ≡ Scheduler.calculate_deadline sch env s
unfolding Scheduler.calculate_deadline with_interval
forgets_deadline sch env s i auto = ground arith

deadline_of_any :
    (sch : Scheduler) (env : Env) (s : Schedule) (p : Plugin) (i : Option ℕ)
    → sch.auto_calculate_deadline ≡ true
    → deadline_of sch env s (some (record p { interval = i })) ≡ deadline_of sch env s (some p)
unfolding deadline_of
deadline_of_any sch env s p i auto = elim (Result-cases (with_cron env p.cron s)) [
  | inl (s', e) ↦
      rw (e, forgets_deadline sch env s' i auto, forgets_deadline sch env s' p.interval auto)
  | inr (x, e) ↦ rw e
]

-- For a scheduler that calculates deadlines, as the boefje scheduler does, the deadline of a schedule
-- does not depend on the interval of its boefje: any other interval gives the same result.
pub interval_ignored :
    (sch : Scheduler) (env : Env) (svc : Services) (s : Schedule) (b : BoefjeTask) (p : Plugin)
    (i : Option ℕ)
    → sch.auto_calculate_deadline ≡ true
    → s.body ≡ some (boefje_data b)
    → svc.plugin b.boefje.id s.organisation ≡ ok (some p)
    → calculate_deadline sch env
        (record svc { plugin = λ boefje org. ok (some (record p { interval = i })) })
        s
      ≡ calculate_deadline sch env svc s
unfolding calculate_deadline
interval_ignored sch env svc s b p i auto body found =
    rw (body, deadline_for, found, deadline_of_any sch env s p i auto)

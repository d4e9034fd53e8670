-- ===== src/Mula/BoefjeTasks/OtherOrgs.antt =====
-- The tasks of is_boefje_in_other_orgs.
use nl_kat_coordination.Prelude.{
  String, List, [], ◌∷◌, some, true, false, ◌≡◌, refl, arith, Memᴰ, Bool-cases, Option-cases, inl,
  inr, str_eq,
}
use nl_kat_coordination.Mula.Models.{TaskStatus, boefje_data, Task, Hasher, BoefjeTask}
use nl_kat_coordination.Mula.Scheduler.{Scheduler, Env}
use nl_kat_coordination.Mula.Boefje.{Plugin, Ooi, Services}
use nl_kat_coordination.Mula.Boefje.Permission.{IsPermitted, IsPermitted-of_test}
use nl_kat_coordination.Mula.BoefjeTasks.{find_ooi, may_run_in, other_task, task_for, tasks_in_orgs}

-- A task that the boefje scheduler may create beside that of `b`: it is for one of the organisations
-- with the same configuration, other than that of `b`, where the plugin is permitted to run on the object.
pub record IsDuplicate (b : BoefjeTask) (plugin : Plugin) (orgs : List (String × Ooi))
    (duplicates : List String) (t : Task) : Type 0 where
  pub configured : Memᴰ t.organisation duplicates
  pub other : str_eq t.organisation b.organization ≡ false
  pub ooi : Ooi
  pub known : find_ooi t.organisation orgs ≡ some ooi
  pub permitted : IsPermitted plugin (some ooi)
  pub pending : t.status ≡ TaskStatus.pending
  pub body : BoefjeTask
  pub has_body : t.body ≡ boefje_data body
  pub same_input : body.input_ooi ≡ b.input_ooi
  pub shared_key : body.deduplication_key ≡ some b.id

module _ (h : Hasher) (sch : Scheduler) (env : Env) (svc : Services) (b : BoefjeTask)
    (plugin : Plugin) (orgs : List (String × Ooi)) where
  IsDuplicate-of_test :
      (org : String) (rest : List String)
      → may_run_in h sch env svc b plugin orgs org ≡ true
      → IsDuplicate b plugin orgs (org ∷ rest) (other_task h sch env svc b plugin.boefje org)
  unfolding may_run_in other_task task_for
  IsDuplicate-of_test org rest e = elim (Option-cases (find_ooi org orgs)) [
    | inl n ↦ ground (arith, n, e)
    | inr (ooi, k) ↦ record {
      configured = Memᴰ.head refl;
      other = ground (arith, e);
      ooi = ooi;
      known = k;
      permitted = IsPermitted-of_test plugin (some ooi) (ground (arith, e, k));
      pending = refl;
      body = _;
      has_body = refl;
      same_input = refl;
      shared_key = refl;
    }
  ]

  later :
      {org : String} {rest : List String} {t : Task}
      → IsDuplicate b plugin orgs rest t
      → IsDuplicate b plugin orgs (org ∷ rest) t
  later d = record {
    configured = Memᴰ.tail d.configured;
    other = d.other;
    ooi = d.ooi;
    known = d.known;
    permitted = d.permitted;
    pending = d.pending;
    body = d.body;
    has_body = d.has_body;
    same_input = d.same_input;
    shared_key = d.shared_key;
  }

  head_or_tail :
      {org : String} {rest : List String} {t u : Task} {us : List Task}
      → Memᴰ t (u ∷ us)
      → IsDuplicate b plugin orgs (org ∷ rest) u
      → (Memᴰ t us → IsDuplicate b plugin orgs (org ∷ rest) t)
      → IsDuplicate b plugin orgs (org ∷ rest) t
  head_or_tail (Memᴰ.head k) d f = rw k d
  head_or_tail (Memᴰ.tail k) d f = f k

  -- Every task that is_boefje_in_other_orgs makes for the duplicates of a configuration is for one of their
  -- organisations, other than that of the task at hand, where the plugin of the task's own organisation
  -- is permitted to run on the object as that organisation knows it. It has the input of the task at
  -- hand and that task's id as its deduplication key.
  pub tasks_in_orgs-IsDuplicate :
      (duplicates : List String) (t : Task)
      → Memᴰ t (tasks_in_orgs h sch env svc b plugin orgs duplicates)
      → IsDuplicate b plugin orgs duplicates t
  unfolding tasks_in_orgs
  tasks_in_orgs-IsDuplicate [] t m = elim m [ ]
  tasks_in_orgs-IsDuplicate (org ∷ rest) t m =
      elim (Bool-cases (may_run_in h sch env svc b plugin orgs org)) [
        | inl e ↦
            head_or_tail (rw e at m) (IsDuplicate-of_test org rest e)
              (λ k. later (tasks_in_orgs-IsDuplicate rest t k))
        | inr e ↦ later (tasks_in_orgs-IsDuplicate rest t (rw e at m))
      ]

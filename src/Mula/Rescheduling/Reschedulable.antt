-- ===== src/Mula/Rescheduling/Reschedulable.antt =====
-- When a due schedule leads to a new task.
use nl_kat_coordination.Prelude.{
  ℕ, String, List, Option, none, some, true, false, any_of, str_eq, ◌≡◌, ◌≢◌, refl, subst, arith,
  inl, inr, ◌⊎◌, Option-cases, Bool-cases,
}
use nl_kat_coordination.Mula.Models.{BoefjeTask, Schedule}
use nl_kat_coordination.Mula.Database.{Db, Result, Result-cases, ok}
use nl_kat_coordination.Mula.ScheduleStore
use nl_kat_coordination.Mula.Boefje.{Plugin, Ooi, Services, has_boefje_permission_to_run}
use nl_kat_coordination.Mula.Boefje.Permission.{IsPermitted, IsPermitted-of_test}
use nl_kat_coordination.Mula.Rescheduling.{
  Verdict, skips, disables, reschedules, find_object, given_input, object_verdict, input_verdict,
  verdict, with_objects, with_plugin, carry_out, continued, reschedule,
}

-- The plugin is an enabled boefje, and the object of the task, if it has one, was found, is of a type
-- that the boefje consumes, and is cleared for it.
pub record IsReschedulable (objects : List Ooi) (input : Option String) (found : Option Plugin)
    (plugin : Plugin) : Type 0 where
  pub exists : found ≡ some plugin
  pub enabled : plugin.enabled ≡ true
  pub boefje : str_eq plugin.type "boefje" ≡ true
  pub object :
      (input ≡ none)
      ⊎ ((key : String) × (ooi : Ooi) × (input ≡ some key)
          × (find_object key objects ≡ some ooi)
          × (any_of (str_eq ooi.object_type) plugin.consumes ≡ true)
          × IsPermitted plugin (some ooi))

object-of_verdict :
    (objects : List Ooi) (input : Option String) (q p : Plugin)
    → input_verdict q objects input ≡ reschedules p
    → (q ≡ p)
      × ((input ≡ none)
          ⊎ ((key : String) × (ooi : Ooi) × (input ≡ some key)
              × (find_object key objects ≡ some ooi)
              × (any_of (str_eq ooi.object_type) q.consumes ≡ true)
              × IsPermitted q (some ooi)))
unfolding input_verdict object_verdict
object-of_verdict objects none q p e = (ground (arith, e), inl refl)
object-of_verdict objects (some key) q p e = elim (Option-cases (find_object key objects)) [
  | inl n ↦ absurd (ground (arith, rw n at e))
  | inr (o, n) ↦ elim (Bool-cases (any_of (str_eq o.object_type) q.consumes)) [
    | inr c ↦ absurd (ground (arith, rw (n, c) at e))
    | inl c ↦ elim (Bool-cases (has_boefje_permission_to_run q (some o))) [
      | inr d ↦ absurd (ground (arith, rw (n, c, d) at e))
      | inl d ↦ (
        ground (arith, rw (n, c, d) at e),
        inr (key, o, refl, n, c, IsPermitted-of_test q (some o) d),
      )
    ]
  ]
]

pub verdict-IsReschedulable :
    (objects : List Ooi) (input : Option String) (found : Option Plugin) (plugin : Plugin)
    → verdict objects input found ≡ reschedules plugin
    → IsReschedulable objects input found plugin
unfolding verdict
verdict-IsReschedulable objects input none plugin e = absurd (ground (arith, e))
verdict-IsReschedulable objects input (some q) plugin e = elim (Bool-cases q.enabled) [
  | inr n ↦ absurd (ground (arith, rw n at e))
  | inl n ↦ elim (Bool-cases (str_eq q.type "boefje")) [
    | inr t ↦ absurd (ground (arith, rw (n, t) at e))
    | inl t ↦
        let (same, object) = object-of_verdict objects input q plugin (ground (arith, n, t, e)) in
        subst (IsReschedulable objects input (some q)) same
          (record { exists = refl; enabled = n; boefje = t; object = object })
  ]
]

Verdict-cases : (v : Verdict) → (v ≡ skips) ⊎ (v ≡ disables) ⊎ ((p : Plugin) × (v ≡ reschedules p))
Verdict-cases skips = inl refl
Verdict-cases disables = inr (inl refl)
Verdict-cases (reschedules p) = inr (inr (p, refl))

module _ (svc : Services) (objects : String → Option (List Ooi)) (new_id : Schedule → ℕ)
    (s : Schedule) (b : BoefjeTask) (db : Db) where
  abbrev pub outcome : Result (Option BoefjeTask) × Db
  outcome = reschedule svc objects new_id s b db

  disabled_no_task :
      (t : BoefjeTask)
      → continued (carry_out svc objects new_id s (given_input b.input_ooi) disables db).0
        ≢ ok (some t)
  unfolding carry_out continued
  disabled_no_task t e =
      elim (Result-cases (ScheduleStore.update_schedule (record s { enabled = false }) db).0) [
        | inl (u, k) ↦ absurd (ground (arith, rw k at e))
        | inr (x, k) ↦ absurd (ground (arith, rw k at e))
      ]

  -- A due schedule leads to a new task only if its plugin is found and is an enabled boefje, and its
  -- object, where it has one, was found, is of a type that the boefje consumes, and is cleared for it.
  -- The task is then for that boefje, object and organisation, and no row changes.
  pub reschedule-IsReschedulable :
      (t : BoefjeTask)
      → outcome.0 ≡ ok (some t)
      → (found : List Ooi) × (o : Option Plugin) × (plugin : Plugin) × (objects b.organization
          ≡ some found)
        × (svc.plugin b.boefje.id s.organisation ≡ ok o)
        × IsReschedulable found (given_input b.input_ooi) o plugin
        × (t ≡ (record {
          id = new_id s;
          boefje = plugin.boefje;
          input_ooi = given_input b.input_ooi;
          organization = s.organisation;
          deduplication_key = none;
        }))
        × (outcome.1 ≡ db)
  unfolding reschedule with_objects with_plugin continued
  reschedule-IsReschedulable t e = elim (Option-cases (objects b.organization)) [
    | inl n ↦ absurd (ground (arith, rw n at e))
    | inr (found, n) ↦ elim (Result-cases (svc.plugin b.boefje.id s.organisation)) [
      | inr (x, k) ↦ absurd (ground (arith, rw (n, k) at e))
      | inl (o, k) ↦ elim (Verdict-cases (verdict found (given_input b.input_ooi) o)) [
        | inl v ↦ absurd (ground (arith, rw (n, k, v, carry_out) at e))
        | inr (inl v) ↦ absurd (disabled_no_task t (rw (n, k, v) at e))
        | inr (inr (p, v)) ↦ (
          found,
          o,
          p,
          n,
          k,
          verdict-IsReschedulable found (given_input b.input_ooi) o p v,
          ground (arith, rw (n, k, v, carry_out) at e),
          rw (n, k, v, carry_out) refl,
        )
      ]
    ]
  ]

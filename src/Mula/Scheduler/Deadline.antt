-- ===== src/Mula/Scheduler/Deadline.antt =====
-- The deadline that a scheduler gives to a schedule.
use nl_kat_coordination.Prelude.{
  ℕ, ◌+◌, ◌≤◌, Option, none, some, true, false, ltb, ◌≡◌, refl, arith, ◌⊎◌, inl, inr, Bool-cases,
  Option-cases,
}
use nl_kat_coordination.Mula.Models.{Schedule}
use nl_kat_coordination.Mula.Database.{ok}
use nl_kat_coordination.Mula.Scheduler.{Scheduler, Env, calculate_deadline, jitter_range_seconds}

-- A schedule without a cron expression keeps all but its deadline. A scheduler that calculates
-- deadlines sets one behind the grace period and at most five hours after it; one that does not lets
-- a deadline stand only if it has not passed.
pub calculate_deadline_bounds :
    (sch : Scheduler) (env : Env) (s : Schedule)
    → env.jitter ≤ jitter_range_seconds
    → s.schedule ≡ none
    → (d : Option ℕ) × (calculate_deadline sch env s ≡ ok (record s { deadline_at = d }))
      × ((sch.auto_calculate_deadline ≡ true)
            × ((t : ℕ) × (d ≡ some t)
                × (env.now + env.grace_period ≤ t)
                × (t ≤ env.now + env.grace_period + jitter_range_seconds))
          ⊎ (sch.auto_calculate_deadline ≡ false)
            × ((d ≡ none) ⊎ ((t : ℕ) × (d ≡ some t) × (s.deadline_at ≡ some t) × (env.now ≤ t))))
unfolding calculate_deadline
calculate_deadline_bounds sch env s j e = elim (Bool-cases sch.auto_calculate_deadline) [
  | inl a ↦
      let t = env.now + env.grace_period + env.jitter in
      (some t, ground arith, inl (a, (t, refl, omega arith, omega arith)))
  | inr a ↦ elim (Option-cases s.deadline_at) [
    | inl n ↦ (none, ground arith, inr (a, inl refl))
    | inr (t, n) ↦ elim (Bool-cases (ltb t env.now)) [
      | inl past ↦ (none, ground arith, inr (a, inl refl))
      | inr left ↦ (some t, ground arith, inr (a, inr (t, refl, n, ground arith)))
    ]
  ]
]

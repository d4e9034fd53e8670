-- ===== src/Mula/Rankers.antt =====
-- mula/scheduler/schedulers/rankers/*.py. Times are whole seconds, and the decay, which the code
-- computes in floating point and truncates, is computed exactly and rounded down.
use nl_kat_coordination.Prelude.{
  ℕ, ◌+◌, ◌-◌, ◌*◌, ◌/◌, ◌≤◌, ◌<◌, Option, none, some, true, ℤ, pos, negsuc, leb_ℤ, ltb, leb, ◌≡◌,
  arith, if◌then◌else◌,
}
use nl_kat_coordination.Mula.Models.{Task, NormalizerTask}

abbrev pub max_priority : ℕ
max_priority = 1000

-- `MAX_DAYS * (60 * 60 * 24)`
abbrev pub max_days_in_seconds : ℕ
max_days_in_seconds = 604800

-- `int(3 + (max_priority - 3) * (1 - since / max_days_in_seconds))` for since < max_days_in_seconds
unfoldable pub decay : ℕ → ℕ
decay since = 3 + (max_priority - 3) * (max_days_in_seconds - since) / max_days_in_seconds

-- BoefjeRanker.rank; `modified_at` is that of the latest task, if there is one.
unfoldable pub boefje_rank : ℕ → ℕ → Option ℕ → ℤ
unfolding decay
boefje_rank now grace_period none = pos 2
boefje_rank now grace_period (some modified_at) =
    if ltb now (modified_at + grace_period)
    then negsuc 0
    else if leb max_days_in_seconds (now - (modified_at + grace_period))
    then pos 3
    else pos (decay (now - (modified_at + grace_period)))

-- BoefjeRankerTimeBased.rank, of a task
unfoldable pub time_based_rank : Task → ℤ
time_based_rank t = pos t.created_at

-- NormalizerRanker.rank; none where `ended_at` is None, which has no `timestamp`.
unfoldable pub normalizer_rank : NormalizerTask → Option ℤ
normalizer_rank n = elim n.boefje_meta.ended_at [ none ↦ none | some t ↦ some (pos t) ]

decay_bounds : (s : ℕ) → s < 604800 → (3 ≤ decay s) × (decay s ≤ 1000)
unfolding decay
decay_bounds s h = omega arith

decay_mono : (s t : ℕ) → s ≤ t → decay t ≤ decay s
unfolding decay
decay_mono s t h = omega arith

-- A task that ran before gets -1 within the grace period and from 3 to 1000 after it, and the longer
-- ago it ran, the smaller the number is, which is the more urgent one.
pub boefje_rank_bounds :
    (now now' grace modified : ℕ)
    → modified + grace ≤ now
    → now ≤ now'
    → (leb_ℤ (pos 3) (boefje_rank now grace (some modified)) ≡ true)
      × (leb_ℤ (boefje_rank now grace (some modified)) (pos 1000) ≡ true)
      × (leb_ℤ (boefje_rank now' grace (some modified)) (boefje_rank now grace (some modified))
          ≡ true)
unfolding boefje_rank
boefje_rank_bounds now now' grace modified h k =
    let s = now - (modified + grace) in
    let t = now' - (modified + grace) in
    ground (arith, decay_bounds s, decay_bounds t, decay_mono s t)

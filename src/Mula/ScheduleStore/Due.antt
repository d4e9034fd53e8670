-- ===== src/Mula/ScheduleStore/Due.antt =====
-- Which schedules are due.
use nl_kat_coordination.Prelude.{
  ℕ, ◌<◌, String, Option, none, some, true, false, ◌&&◌, ◌≡◌, ◌↔◌, refl, arith, Memᴰ, mem-keep,
  mem-keep_of, mem-sort_by, mem_of_sort_by, any_of, option_eq, str_eq_iff,
}
use nl_kat_coordination.Mula.Models.{Schedule, is_active}
use nl_kat_coordination.Mula.Database.{Db}
use nl_kat_coordination.Mula.ScheduleStore.{
  is_due, active_task_exists, by_deadline, deadline_le, get_due_schedules,
}

-- An enabled schedule of the scheduler whose deadline has passed and that no active task is from.
pub record IsDue (sid : String) (now : ℕ) (db : Db) (s : Schedule) : Type 0 where
  pub stored : Memᴰ s db.schedules
  pub owner : s.scheduler_id ≡ sid
  pub enabled : s.enabled ≡ true
  pub deadline : ℕ
  pub set : s.deadline_at ≡ some deadline
  pub past : deadline < now
  pub idle : any_of (λ t. option_eq t.schedule_id (some s.id) && is_active t) db.tasks ≡ false

module _ (sid : String) (now : ℕ) (db : Db) (s : Schedule) where
  IsDue-of_test : Memᴰ s db.schedules → is_due sid now db.tasks s ≡ true → IsDue sid now db s
  unfolding is_due active_task_exists
  IsDue-of_test m h = deadline_cases s.deadline_at refl
    where
      deadline_cases : (d : Option ℕ) → s.deadline_at ≡ d → IsDue sid now db s
      deadline_cases none e = absurd (ground (arith, e, h))
      deadline_cases (some d) e = record {
        stored = m;
        owner = ground (arith, h, str_eq_iff s.scheduler_id sid);
        enabled = ground (arith, h);
        deadline = d;
        set = e;
        past = ground (arith, h, e);
        idle = ground (arith, h);
      }

  test_of_due : IsDue sid now db s → is_due sid now db.tasks s ≡ true
  unfolding is_due active_task_exists
  test_of_due d =
      ground (arith, d.set, d.past, d.enabled, d.idle, d.owner, str_eq_iff s.scheduler_id sid)

  -- With no limit, get_due_schedules returns exactly the enabled schedules of the scheduler whose
  -- deadline has passed and that have no active task.
  pub get_due_schedules_iff : Memᴰ s (get_due_schedules sid now none db) ↔ IsDue sid now db s
  unfolding get_due_schedules by_deadline
  get_due_schedules_iff = (
    λ m.
        let (stored, h) =
          mem-keep (is_due sid now db.tasks) s db.schedules
            (mem-sort_by (λ a b. deadline_le a.deadline_at b.deadline_at) _ m) in
        IsDue-of_test stored h,
    λ d.
        mem_of_sort_by (λ a b. deadline_le a.deadline_at b.deadline_at)
          (mem-keep_of (is_due sid now db.tasks) d.stored (test_of_due d)),
  )

-- ===== src/Mula/Examples.antt =====
-- Runs of the stores and of the boefje scheduler on small tables, and the theorems about them there.
pub mod Mutated
pub mod Normalized
pub mod Rescheduled
use nl_kat_coordination.Prelude.{
  ℕ, ◌+◌, ◌*◌, ◌≤◌, String, List, [], ◌∷◌, map, Option, none, some, true, false, leb, ◌≡◌, ◌↔◌,
  refl, arith, pos, leb_ℤ, Memᴰ, ◌⊎◌, length,
}
use nl_kat_coordination.Mula.Models.{TaskStatus, boefje_data, Task, Schedule, boefje_hash}
use nl_kat_coordination.Mula.Database.{Db, ok, err, attribute_error, external_service, insert_task}
use nl_kat_coordination.Mula.PqStore
use nl_kat_coordination.Mula.Queue
use nl_kat_coordination.Mula.Paging.{get_page, max_limit, page_bound, page_limit}
use nl_kat_coordination.Mula.Paging.Counts.{get_page-count}
use nl_kat_coordination.Mula.TaskStore
use nl_kat_coordination.Mula.ScheduleStore.{get_due_schedules}
use nl_kat_coordination.Mula.ScheduleStore.Due.{IsDue, get_due_schedules_iff}
use nl_kat_coordination.Mula.Rankers.{time_based_rank, boefje_rank, boefje_rank_bounds}
use nl_kat_coordination.Mula.Scheduler
use nl_kat_coordination.Mula.Scheduler.{
  Scheduler, Env, wait_for_space, gives_up, jitter_range_seconds,
}
use nl_kat_coordination.Mula.Scheduler.Waiting.{wait_for_space_ends}
use nl_kat_coordination.Mula.Scheduler.Deadline.{calculate_deadline_bounds}
use nl_kat_coordination.Mula.Boefje.{
  Plugin, Ooi, Services, has_boefje_permission_to_run, has_boefje_task_stalled,
  has_boefje_task_grace_period_passed, has_boefje_task_started_running,
}
use nl_kat_coordination.Mula.Boefje.Permission.{IsPermitted, has_boefje_permission_to_run_iff}
use nl_kat_coordination.Mula.BoefjeQueue.{calculate_deadline, push_with_timeout, push_item_to_queue}
use nl_kat_coordination.Mula.BoefjeQueue.Interval.{interval_ignored}
use nl_kat_coordination.Mula.BoefjeTasks.{is_boefje_in_other_orgs, tasks_in_orgs, push_boefje_task}
use nl_kat_coordination.Mula.BoefjeTasks.Push.{
  push_boefje_task-cancelled, push_boefje_task-unanswered,
}
use nl_kat_coordination.Mula.BoefjeTasks.OtherOrgs.{IsDuplicate, tasks_in_orgs-IsDuplicate}
use nl_kat_coordination.Mula.Queue.Examples.{hasher, boefje, boefje_task, queue, row}

abbrev pub env : Env
env = record {
  now = 1000;
  grace_period = 100;
  jitter = 50;
  new_id = 90;
  next_run = λ cron. some 5000;
}

abbrev pub scheduler : Scheduler
scheduler = record {
  scheduler_id = "boefje";
  create_schedule = true;
  auto_calculate_deadline = true;
  queue = queue;
}

abbrev pub plugin : Plugin
plugin = record {
  id = "dns";
  type = "boefje";
  enabled = true;
  boefje = boefje;
  scan_level = some 1;
  consumes = "Host" ∷ [];
  cron = none;
  interval = some 5;
  run_on = none;
}

abbrev pub ooi : Ooi
ooi = record {
  primary_key = "Host|a";
  object_type = "Host";
  scan_profile = some (record { level = some 2 });
}

abbrev pub services : Services
services = record {
  plugin = λ id org. ok (some plugin);
  last_run = λ b. ok none;
  configs = λ b. ok (("org-a" ∷ "org-b" ∷ []) ∷ []);
  object_clients = λ o orgs. ok (("org-b", ooi) ∷ []);
  task_uuid = λ org. 77;
  schedule_uuid = λ t. 88;
}

abbrev failing : Services
failing = record services { configs = λ b. err external_service }

abbrev pub schedule : Schedule
schedule = record {
  id = 5;
  scheduler_id = "boefje";
  organisation = "org-a";
  hash = some "Host|a-dns-org-a";
  body = some (boefje_data (boefje_task 1 "org-a"));
  enabled = true;
  schedule = none;
  deadline_at = some 900;
  created_at = 10;
  modified_at = 10;
}

abbrev pub with_status : TaskStatus → Task
with_status s = record (row 1 "org-a" 7 990) { status = s }

abbrev pub holding : Task → Db
holding t = record { tasks = t ∷ []; schedules = schedule ∷ [] }

unfoldable pub program : Unit {0}
unfolding push_boefje_task tasks_in_orgs has_boefje_permission_to_run has_boefje_task_stalled
    boefje_hash TaskStore.get_latest_task_by_hash calculate_deadline Scheduler.calculate_deadline
    get_due_schedules get_page wait_for_space has_boefje_task_grace_period_passed
    has_boefje_task_started_running is_boefje_in_other_orgs push_with_timeout Scheduler.is_space
    Queue.qsize push_item_to_queue Scheduler.push_item_to_queue Queue.push Queue.push_valid
    Queue.get_item_by_identifier PqStore.get_item_by_hash insert_task Scheduler.post_push
    time_based_rank
program = tt

-- The boefje has never run: one task for org-a and, with the same key, one for org-b.
push_new :
    map {B = ℕ × String}
      (λ t. (t.id, t.organisation))
      (push_boefje_task hasher scheduler env services
        (boefje_task 1 "org-a")
        false
        (record { tasks = []; schedules = [] })).1.tasks
    ≡ (77, "org-b") ∷ (1, "org-a") ∷ []
unfolding program
push_new = refl

calculate_deadline_example :
    (d : Option ℕ) × (Scheduler.calculate_deadline scheduler env schedule
      ≡ ok (record schedule { deadline_at = d }))
    × ((true ≡ true) × ((t : ℕ) × (d ≡ some t) × (1100 ≤ t) × (t ≤ 1100 + jitter_range_seconds))
        ⊎ (true ≡ false)
          × ((d ≡ none) ⊎ ((t : ℕ) × (d ≡ some t) × (some 900 ≡ some t) × (1000 ≤ t))))
calculate_deadline_example = calculate_deadline_bounds scheduler env schedule (omega arith) refl

interval_ignored_example :
    calculate_deadline scheduler env
      (record services { plugin = λ id org. ok (some (record plugin { interval = some 60 })) })
      schedule
    ≡ calculate_deadline scheduler env services schedule
interval_ignored_example =
    interval_ignored scheduler env services schedule (boefje_task 1 "org-a") plugin (some 60) refl
      refl refl

boefje_rank_bounds_example :
    (leb_ℤ (pos 3) (boefje_rank 1000 100 (some 500)) ≡ true)
    × (leb_ℤ (boefje_rank 1000 100 (some 500)) (pos 1000) ≡ true)
    × (leb_ℤ (boefje_rank 2000 100 (some 500)) (boefje_rank 1000 100 (some 500)) ≡ true)
boefje_rank_bounds_example = boefje_rank_bounds 1000 2000 100 500 (omega arith) (omega arith)

wait_for_space_example :
    ((t : ℕ) × (wait_for_space 4 (leb 5) (some 3) 0 ≡ some t)
      × (t ≤ 3)
      × ((gives_up (some 3) t ≡ true) ⊎ (leb 5 t ≡ true)))
    × (((t : ℕ) × (wait_for_space 6 (leb 5) none 0 ≡ some t)
          × (t ≤ 5)
          × (gives_up none t ≡ false)
          × (leb 5 t ≡ true))
        ⊎ ((k : ℕ) → k ≤ 5 → leb 5 k ≡ false))
wait_for_space_example = wait_for_space_ends (leb 5) 3 5

get_due_schedules_example :
    Memᴰ schedule
      (get_due_schedules "boefje" 1000 none (holding (with_status TaskStatus.completed)))
    ↔ IsDue "boefje" 1000 (holding (with_status TaskStatus.completed)) schedule
get_due_schedules_example =
    get_due_schedules_iff "boefje" 1000 (holding (with_status TaskStatus.completed)) schedule

has_boefje_permission_to_run_example :
    (has_boefje_permission_to_run plugin (some ooi) ≡ true) ↔ IsPermitted plugin (some ooi)
has_boefje_permission_to_run_example = has_boefje_permission_to_run_iff plugin (some ooi)

push_boefje_task-cancelled_example :
    (push_boefje_task hasher scheduler env services
      (boefje_task 1 "org-a")
      true
      (holding (with_status TaskStatus.cancelled))).1
    ≡ holding (with_status TaskStatus.cancelled)
unfolding program
push_boefje_task-cancelled_example =
    push_boefje_task-cancelled hasher scheduler env services (boefje_task 1 "org-a") true
      (holding (with_status TaskStatus.cancelled)) (with_status TaskStatus.cancelled) refl refl

push_boefje_task-unanswered_example :
    push_boefje_task hasher scheduler env failing
      (boefje_task 1 "org-a")
      true
      (record { tasks = []; schedules = [] })
    ≡ (err attribute_error, record { tasks = []; schedules = [] })
unfolding program
push_boefje_task-unanswered_example =
    push_boefje_task-unanswered hasher scheduler env failing (boefje_task 1 "org-a") true
      (record { tasks = []; schedules = [] }) "Host|a" (some plugin) refl refl refl refl refl

abbrev first_duplicate : List Task → Task
first_duplicate [] = with_status TaskStatus.failed
first_duplicate (t ∷ ts) = t

tasks_in_orgs_example :
    IsDuplicate (boefje_task 1 "org-a") plugin (("org-b", ooi) ∷ []) ("org-a" ∷ "org-b" ∷ []) (
      first_duplicate (
        tasks_in_orgs hasher scheduler env services
          (boefje_task 1 "org-a")
          plugin
          (("org-b", ooi) ∷ [])
          ("org-a" ∷ "org-b" ∷ [])))
unfolding program
tasks_in_orgs_example =
    tasks_in_orgs-IsDuplicate hasher scheduler env services (boefje_task 1 "org-a") plugin
      (("org-b", ooi) ∷ []) ("org-a" ∷ "org-b" ∷ []) _ (Memᴰ.head refl)

get_page_example :
    (length (get_page (λ n. n) (4 ∷ 6 ∷ 5 ∷ []) (pos 0) (pos 1) (pos 1) true).items ≤ max_limit)
    × (length (get_page (λ n. n) (4 ∷ 6 ∷ 5 ∷ []) (pos 0) (pos 1) (pos 1) true).items ≤ 1)
    × ((get_page (λ n. n) (4 ∷ 6 ∷ 5 ∷ []) (pos 0) (pos 1) (pos 1) true).count ≤ 3)
    × (((get_page (λ n. n) (4 ∷ 6 ∷ 5 ∷ []) (pos 0) (pos 1) (pos 1) true).is_partial_count ≡ false)
          × ((get_page (λ n. n) (4 ∷ 6 ∷ 5 ∷ []) (pos 0) (pos 1) (pos 1) true).count ≡ 3)
        ⊎ ((get_page (λ n. n) (4 ∷ 6 ∷ 5 ∷ []) (pos 0) (pos 1) (pos 1) true).is_partial_count
            ≡ true)
          × (true ≡ true)
          × ((get_page (λ n. n) (4 ∷ 6 ∷ 5 ∷ []) (pos 0) (pos 1) (pos 1) true).count
              ≡ 0 + page_bound (pos 1) * page_limit (pos 1) + 1))
get_page_example = get_page-count (λ n. n) (4 ∷ 6 ∷ 5 ∷ []) (pos 0) (pos 1) (pos 1) true

-- ===== src/Mula/Scheduler.antt =====
-- mula/scheduler/schedulers/scheduler.py: what every scheduler does around its queue. What the code
-- reads of its surroundings in one call is an argument: the time, a random delay, a new UUID.
pub mod Deadline
pub mod Waiting
use nl_kat_coordination.Prelude.{
  ℕ, zero, suc, ◌+◌, ◌-◌, ◌≤◌, ◌<◌, String, List, [], ◌∷◌, Option, none, some, Bool, true, false,
  ◌&&◌, ◌||◌, not, ltb, leb, ◌==◌, is_some, if◌then◌else◌,
}
use nl_kat_coordination.Mula.Models.{
  TaskStatus, ItemType, boefje_item, normalizer_item, report_item, Task, Schedule, Hasher,
}
use nl_kat_coordination.Mula.Database.{
  Db, Action, Error, Result, ok, err, validation_error, not_allowed, queue_full, pure, raise, ◌>>=◌,
  ◌>>◌,
}
use nl_kat_coordination.Mula.PqStore
use nl_kat_coordination.Mula.TaskStore
use nl_kat_coordination.Mula.ScheduleStore
use nl_kat_coordination.Mula.Queue
use nl_kat_coordination.Mula.Queue.{PriorityQueue, Pushed}

pub record Scheduler : Type 0 where
  pub scheduler_id : String
  pub create_schedule : Bool
  pub auto_calculate_deadline : Bool
  pub queue : PriorityQueue

-- `next_run` is utils/cron.py over croniter: none where the expression is not valid.
pub record Env : Type 0 where
  pub now : ℕ
  pub grace_period : ℕ
  pub jitter : ℕ
  pub new_id : ℕ
  pub next_run : String → Option ℕ

-- `random.uniform(0, jitter_range_seconds)`
abbrev pub jitter_range_seconds : ℕ
jitter_range_seconds = 18000

unfoldable pub calculate_default_deadline : Env → ℕ
calculate_default_deadline env = env.now + env.grace_period + env.jitter

cron_deadline : Schedule → Option ℕ → Result Schedule
cron_deadline s none = err validation_error
cron_deadline s (some d) = ok (record s { deadline_at = some d })

-- The deadline of a schedule with no cron and no automatic deadline
expire : ℕ → Schedule → Option ℕ → Schedule
expire now s none = s
expire now s (some d) = if ltb d now then record s { deadline_at = none } else s

deadline_by : Scheduler → Env → Schedule → Option String → Result Schedule
deadline_by sch env s (some cron) = cron_deadline s (env.next_run cron)
deadline_by sch env s none =
    if sch.auto_calculate_deadline
    then ok (record s { deadline_at = some (calculate_default_deadline env) })
    else ok (expire env.now s s.deadline_at)

unfoldable pub calculate_deadline : Scheduler → Env → Schedule → Result Schedule
unfolding cron_deadline expire deadline_by calculate_default_deadline
calculate_deadline sch env s = deadline_by sch env s s.schedule

-- is_space_on_queue: a maxsize of 0 is unlimited (and None would raise: the settings give a number).
unfoldable pub is_space : PriorityQueue → Db → Bool
is_space q db = elim q.maxsize [ none ↦ true | some m ↦ m == 0 || ltb (Queue.qsize q db) m ]

-- The loop of push_item_to_queue_with_timeout: `space tries` is what is_space_on_queue answers after
-- that many waits, and `none` for max_tries stands for -1. The result is `tries`; none: out of fuel.
unfoldable pub wait_for_space : ℕ → (ℕ → Bool) → Option ℕ → ℕ → Option ℕ
wait_for_space zero space max_tries tries = none
wait_for_space (suc fuel) space max_tries tries =
    let rest = wait_for_space fuel space max_tries (suc tries) in
    if not (space tries) && elim max_tries [ none ↦ true | some m ↦ ltb tries m ]
    then rest
    else some tries

-- `if tries >= max_tries and max_tries != -1: raise QueueFullError()`
unfoldable pub gives_up : Option ℕ → ℕ → Bool
gives_up none tries = false
gives_up (some m) tries = leb m tries

abbrev pub item_type_name : ItemType → String
item_type_name boefje_item = "boefje"
item_type_name normalizer_item = "normalizer"
item_type_name report_item = "report"

-- The assignments before the push: `type` gets a default, `status` is QUEUED.
unfoldable pub prepare : Scheduler → Pushed → Pushed
prepare sch p = record {
  task = record p.task {
    type = if is_some p.task.type then p.task.type else some (item_type_name sch.queue.item_type);
    status = TaskStatus.queued;
  };
  set = record p.set { type = if is_some p.task.type then p.set.type else true; status = true };
}

new_schedule : Scheduler → Env → Task → Schedule
new_schedule sch env item = record {
  id = env.new_id;
  scheduler_id = sch.scheduler_id;
  organisation = item.organisation;
  hash = item.hash;
  body = some item.body;
  enabled = true;
  schedule = none;
  deadline_at = none;
  created_at = env.now;
  modified_at = env.now;
}

-- Schedule.model_post_init, of a row that is read. A row that is stored has a valid expression.
unfoldable pub model_post_init : Env → Schedule → Schedule
model_post_init env s = elim s.deadline_at [
  | some d ↦ s
  | none ↦ elim s.schedule [ none ↦ s | some cron ↦ record s { deadline_at = env.next_run cron } ]
]

find_schedule : Task → Option ℕ → Action (Option Schedule)
find_schedule item (some id) = ScheduleStore.get_schedule id
find_schedule item none = ScheduleStore.get_schedule_by_hash item.hash

found_or_created : Scheduler → Env → Task → Option Schedule → Action Schedule
unfolding new_schedule model_post_init
found_or_created sch env item none = ScheduleStore.create_schedule (new_schedule sch env item)
found_or_created sch env item (some s) = pure (model_post_init env s)

-- `deadline` is the method calculate_deadline of the scheduler's class.
attach_schedule : (Schedule → Result Schedule) → Task → Schedule → Action Task
attach_schedule deadline item s =
    if s.enabled
    then (do
      updated ← (λ db. (deadline s, db))
      ScheduleStore.update_schedule updated
      TaskStore.update_task (record item { schedule_id = some s.id })
      pure (record item { schedule_id = some s.id }))
    else pure item

unfoldable pub post_push :
    Scheduler → Env → (Schedule → Result Schedule) → Task → Bool → Action Task
unfolding find_schedule found_or_created attach_schedule
post_push sch env deadline item create_schedule =
    if sch.create_schedule && create_schedule
    then (do
      found ← find_schedule item item.schedule_id
      s ← found_or_created sch env item found
      attach_schedule deadline item s)
    else pure item

module _ (h : Hasher) where
  -- Scheduler.push_item_to_queue
  unfoldable pub push_item_to_queue :
      Scheduler → Env → (Schedule → Result Schedule) → Pushed → Bool → Action Task
  unfolding prepare
  push_item_to_queue sch env deadline p create_schedule = do
    item ← Queue.push h sch.queue (prepare sch p)
    post_push sch env deadline item create_schedule

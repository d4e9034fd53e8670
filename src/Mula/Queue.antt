-- ===== src/Mula/Queue.antt =====
-- mula/scheduler/schedulers/queue/pq.py: PriorityQueue over the store. A pushed task comes with the
-- set of the fields that its maker gave (pydantic's `model_fields_set`), which decides what an
-- update of a task on the queue writes. The lock makes each operation one step.
pub mod Rejections
pub mod Outcomes
pub mod Bounds
pub mod Unique
pub mod Dispatch
pub mod Pop
pub mod Waiting
pub mod LostUpdate
pub mod Examples
use nl_kat_coordination.Prelude.{
  ℕ, zero, suc, String, List, [], ◌∷◌, map, Option, none, some, Bool, true, false, ◌&&◌, ◌||◌, not,
  leb, is_some, ℤ, pos, negsuc, leb_ℤ, eq_ℤ, if◌then◌else◌,
}
use nl_kat_coordination.Mula.Models.{
  TaskStatus, TaskData, boefje_data, normalizer_data, report_data, ItemType, boefje_item,
  normalizer_item, report_item, Task, Hasher, boefje_hash, normalizer_hash, report_hash, body_eq,
}
use nl_kat_coordination.Mula.Database.{
  Db, Action, Error, Result, ok, err, integrity, ix_tasks_active_per_schedule, invalid_item,
  not_allowed, queue_full, pure, raise, gets, ◌>>=◌, ◌>>◌, insert_task,
}
use nl_kat_coordination.Mula.PqStore

pub record PriorityQueue : Type 0 where
  pub pq_id : String
  pub maxsize : Option ℕ
  pub item_type : ItemType
  pub allow_replace : Bool
  pub allow_updates : Bool
  pub allow_priority_updates : Bool

-- The fields that have a default; the other fields are always set.
pub record FieldsSet : Type 0 where
  pub id : Bool
  pub schedule_id : Bool
  pub priority : Bool
  pub status : Bool
  pub type : Bool
  pub hash : Bool
  pub body : Bool
  pub created_at : Bool
  pub modified_at : Bool

pub record Pushed : Type 0 where
  pub task : Task
  pub set : FieldsSet

-- `item_on_queue.model_copy(update=task.model_dump(exclude_unset=True))`
unfoldable pub patch : Pushed → Task → Task
patch p old = record {
  id = if p.set.id then p.task.id else old.id;
  scheduler_id = p.task.scheduler_id;
  schedule_id = if p.set.schedule_id then p.task.schedule_id else old.schedule_id;
  organisation = p.task.organisation;
  priority = if p.set.priority then p.task.priority else old.priority;
  status = if p.set.status then p.task.status else old.status;
  type = if p.set.type then p.task.type else old.type;
  hash = if p.set.hash then p.task.hash else old.hash;
  body = if p.set.body then p.task.body else old.body;
  created_at = if p.set.created_at then p.task.created_at else old.created_at;
  modified_at = if p.set.modified_at then p.task.modified_at else old.modified_at;
}

-- `not task.priority` holds for None and for 0.
abbrev pub truthy_priority : Option ℤ → Bool
truthy_priority none = false
truthy_priority (some (pos zero)) = false
truthy_priority (some (pos (suc n))) = true
truthy_priority (some (negsuc n)) = true

-- `task.priority > 1`
abbrev pub above_one : Option ℤ → Bool
above_one none = false
above_one (some p) = not (leb_ℤ p (pos 1))

abbrev pub priority_eq : Option ℤ → Option ℤ → Bool
priority_eq none none = true
priority_eq (some a) (some b) = eq_ℤ a b
priority_eq _ _ = false

module _ (h : Hasher) where
  -- `self.item_type(**task.data).hash`; none where the data does not validate.
  abbrev pub create_hash : ItemType → TaskData → Option String
  create_hash boefje_item (boefje_data b) = some (boefje_hash h b)
  create_hash normalizer_item (normalizer_data n) = some (normalizer_hash h n)
  create_hash report_item (report_data r) = some (report_hash h r)
  create_hash _ _ = none

full_at : String → Option ℕ → Db → Bool
full_at pq_id none db = false
full_at pq_id (some zero) db = false
full_at pq_id (some (suc m)) db = leb (suc m) (PqStore.qsize pq_id db)

unfoldable pub full : PriorityQueue → Db → Bool
unfolding full_at
full q db = full_at q.pq_id q.maxsize db

abbrev pub any_queued_update : PriorityQueue → Task → Task → Bool
any_queued_update q task item =
    q.allow_replace
    || (q.allow_updates && not (body_eq task.body item.body))
    || (q.allow_priority_updates && not (priority_eq task.priority item.priority))

-- The end of push: the item on the queue takes the fields of the task.
unfoldable pub update_item : PriorityQueue → Pushed → Task → Action Task
update_item q p item = do PqStore.update q.pq_id (patch p item); pure (patch p item)

-- `self.pq_store.pop(…)` or `pop_boefje(…)` gave the items; they become DISPATCHED.
unfoldable pub dispatch_items : PriorityQueue → ℕ → List Task → Action (List Task)
dispatch_items q now [] = pure []
dispatch_items q now (t ∷ ts) = do
  PqStore.bulk_update_status q.pq_id (map (λ u. u.id) (t ∷ ts)) TaskStatus.dispatched now
  pure (t ∷ ts)

unfoldable pub pop : PriorityQueue → ℕ → Option ℕ → Option (Task → Bool) → Action (List Task)
pop q now limit filters = do items ← PqStore.pop q.pq_id limit filters; dispatch_items q now items

-- BoefjePQ.pop of schedulers/boefje.py
unfoldable pub pop_boefje : PriorityQueue → ℕ → Option ℕ → Option (Task → Bool) → Action (List Task)
pop_boefje q now limit filters = do
  items ← PqStore.pop_boefje q.pq_id limit filters
  dispatch_items q now items

module _ (h : Hasher) where
  unfoldable pub get_item_by_identifier : PriorityQueue → Task → Db → Option Task
  get_item_by_identifier q task db = elim (create_hash h q.item_type task.body) [
    | none ↦ none
    | some hash ↦ PqStore.get_item_by_hash q.pq_id hash db
  ]

  -- is_item_on_queue; the data of the task validates
  unfoldable pub is_item_on_queue : PriorityQueue → Task → Db → Bool
  unfolding get_item_by_identifier
  is_item_on_queue q task db = is_some (get_item_by_identifier q task db)

  -- `task.hash = self.create_hash(task)`, `task.status = QUEUED`
  unfoldable pub as_queued : PriorityQueue → Pushed → Pushed
  as_queued q p = record {
    task = record p.task {
      hash = create_hash h q.item_type p.task.body;
      status = TaskStatus.queued;
    };
    set = record p.set { hash = true; status = true };
  }

  -- The second half of the handler of IntegrityError.
  after_collision : PriorityQueue → Pushed → Option Task → Action Task
  after_collision q p none = insert_task p.task
  after_collision q p (some item) = update_item q p item

  -- `except IntegrityError`: only a collision on the active task of a schedule is handled.
  on_insert : PriorityQueue → Pushed → Result Task → Action Task
  unfolding after_collision
  on_insert q p (ok task) = pure task
  on_insert q p (err (integrity ix_tasks_active_per_schedule)) = do
    found ← PqStore.get_active_task_by_schedule p.task.schedule_id
    after_collision q p found
  on_insert q p (err e) = raise e

  unfoldable pub insert_item : PriorityQueue → Pushed → Action Task
  unfolding on_insert as_queued
  insert_item q p db =
      let (r, db') = insert_task (as_queued q p).task db in on_insert q (as_queued q p) r db'

  unfoldable pub push_valid : PriorityQueue → Pushed → Option Task → Action Task
  unfolding insert_item
  push_valid q p none = insert_item q p
  push_valid q p (some item) =
      if any_queued_update q p.task item then update_item q p item else raise not_allowed

  unfoldable pub push : PriorityQueue → Pushed → Action Task
  unfolding full
  push q p db =
      if not (is_some (create_hash h q.item_type p.task.body))
      then (err invalid_item, db)
      else if not (truthy_priority p.task.priority)
      then (err invalid_item, db)
      else if full q db && above_one p.task.priority
      then (err queue_full, db)
      else push_valid q p (get_item_by_identifier q p.task db) db

unfoldable pub peek : PriorityQueue → ℕ → Action (Option Task)
peek q index = PqStore.peek q.pq_id index

unfoldable pub remove : PriorityQueue → Task → Action (Unit {0})
remove q task = PqStore.remove q.pq_id task.id

unfoldable pub clear : PriorityQueue → Action (Unit {0})
clear q = PqStore.clear q.pq_id

unfoldable pub empty : PriorityQueue → Db → Bool
empty q db = PqStore.empty q.pq_id db

unfoldable pub qsize : PriorityQueue → Db → ℕ
qsize q db = PqStore.qsize q.pq_id db

unfoldable pub is_item_on_queue_by_hash : PriorityQueue → String → Db → Bool
is_item_on_queue_by_hash q hash db = is_some (PqStore.get_item_by_hash q.pq_id hash db)

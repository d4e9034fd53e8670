-- ===== src/Mula/Queue/Examples.antt =====
-- Runs of the queue on small tables, and the theorems about it at those tables.
use nl_kat_coordination.Prelude.{
  map, sort_by, ℕ, ◌≤◌, String, List, [], ◌∷◌, none, some, true, false, ◌≡◌, ◌≢◌, refl, ap, arith,
  pos, Memᴰ, ◌⊎◌,
}
use nl_kat_coordination.Mula.Models.{
  TaskStatus, Boefje, BoefjeTask, boefje_data, boefje_item, Task, Hasher, boefje_hash,
}
use nl_kat_coordination.Mula.Database.{
  Db, ok, err, queue_full, invalid_item, not_allowed, insert_task, unique_active,
}
use nl_kat_coordination.Mula.Database.Consistent.{IsConsistent}
use nl_kat_coordination.Mula.PqStore
use nl_kat_coordination.Mula.PqStore.{is_listed, with_status}
use Prim.Native.String.{◌++◌}
use nl_kat_coordination.Mula.Queue
use nl_kat_coordination.Mula.Ordering.{order_by, precedes}
use nl_kat_coordination.Mula.Queue.Waiting.{PopRequest, waiting, served, popped}
use nl_kat_coordination.Mula.Queue.Waiting.Refined.{popped-served}
use nl_kat_coordination.Mula.Queue.{PriorityQueue, FieldsSet, Pushed, push, pop}
use nl_kat_coordination.Mula.Queue.Rejections.{push-IsAtomic}
use nl_kat_coordination.Mula.Queue.Bounds.{push_within}
use nl_kat_coordination.Mula.Queue.Unique.{IsUnique, push-IsUnique}
use nl_kat_coordination.Mula.Queue.Dispatch.{ids_of}
use nl_kat_coordination.Mula.Queue.LostUpdate.{update_lost}
use nl_kat_coordination.Mula.Queue.Pop.{IsBest, pop-IsBest, pop_dispatches, pop_once}

abbrev pub hasher : Hasher
hasher = record { hash_bytes = λ s. s; uuid_text = λ n. "uuid" }

abbrev pub boefje : Boefje
boefje = record { id = "dns"; name = none; version = none; oci_image = none }

abbrev pub boefje_task : ℕ → String → BoefjeTask
boefje_task id org = record {
  id = id;
  boefje = boefje;
  input_ooi = some "Host|a";
  organization = org;
  deduplication_key = none;
}

abbrev pub task : ℕ → String → ℕ → ℕ → Task
task id org priority created = record {
  id = id;
  scheduler_id = "boefje";
  schedule_id = none;
  organisation = org;
  priority = some (pos priority);
  status = TaskStatus.pending;
  type = some "boefje";
  hash = none;
  body = boefje_data (boefje_task id org);
  created_at = created;
  modified_at = created;
}

-- All fields that `push_boefje_task` gives, and the two that push_item_to_queue assigns.
abbrev given : FieldsSet
given = record {
  id = true;
  schedule_id = false;
  priority = true;
  status = true;
  type = true;
  hash = true;
  body = true;
  created_at = false;
  modified_at = false;
}

abbrev pushed : Task → Pushed
pushed t = record { task = t; set = given }

abbrev pub queue : PriorityQueue
queue = record {
  pq_id = "boefje";
  maxsize = some 2;
  item_type = boefje_item;
  allow_replace = false;
  allow_updates = false;
  allow_priority_updates = false;
}

abbrev empty_db : Db
empty_db = record { tasks = []; schedules = [] }

-- One name for all that a run computes with.
program : Unit {0}
unfolding push pop Queue.push_valid Queue.get_item_by_identifier Queue.dispatch_items boefje_hash
    PqStore.get_item_by_hash PqStore.pop PqStore.bulk_update_status insert_task order_by precedes
    unique_active sort_by
program = tt

abbrev pub row : ℕ → String → ℕ → ℕ → Task
row id org priority created = record (task id org priority created) {
  status = TaskStatus.queued;
  hash = some ("Host|a-dns-" ++ org);
}

abbrev pub one_queued : Db
one_queued = record { tasks = row 1 "org-a" 7 100 ∷ []; schedules = [] }

abbrev pub two_queued : Db
two_queued = record { tasks = row 1 "org-a" 7 100 ∷ row 2 "org-b" 3 200 ∷ []; schedules = [] }

push_on_one :
    (push hasher queue (pushed (task 2 "org-b" 3 200)) one_queued)
    ≡ (ok (row 2 "org-b" 3 200), two_queued)
unfolding program
push_on_one = refl

push_on_full :
    push hasher queue (pushed (task 3 "org-c" 2 300)) two_queued ≡ (err queue_full, two_queued)
unfolding program
push_on_full = refl

-- Priority 1, that of a user's request, passes the maximum size.
push_of_user :
    PqStore.qsize "boefje" (push hasher queue (pushed (task 3 "org-c" 1 300)) two_queued).1 ≡ 3
unfolding program
push_of_user = refl

push_again :
    push hasher queue (pushed (task 3 "org-a" 1 300)) one_queued ≡ (err not_allowed, one_queued)
unfolding program
push_again = refl

push_no_priority :
    push hasher queue (pushed (task 3 "org-a" 0 300)) one_queued ≡ (err invalid_item, one_queued)
unfolding program
push_no_priority = refl

pop_one : (pop queue 500 (some 1) none two_queued).0 ≡ ok (row 2 "org-b" 3 200 ∷ [])
unfolding program
pop_one = refl

pop_next :
    (pop queue 600 none none (pop queue 500 (some 1) none two_queued).1).0
    ≡ ok (row 1 "org-a" 7 100 ∷ [])
unfolding program
pop_next = refl

two_queued-IsConsistent : IsConsistent two_queued
unfolding unique_active
two_queued-IsConsistent = record { ids = λ id. ground arith; active = refl }

one_queued-IsUnique : IsUnique "boefje" one_queued
unfolding unique_active
one_queued-IsUnique = record {
  consistent = record { ids = λ id. ground arith; active = refl };
  hashes = λ hash. ground arith;
}

push-IsAtomic_example :
    (push hasher queue (pushed (task 3 "org-c" 2 300)) two_queued).1 ≡ two_queued
push-IsAtomic_example =
    push-IsAtomic hasher queue (pushed (task 3 "org-c" 2 300)) two_queued queue_full
      (ap (λ r. r.0) push_on_full)

push_within_example :
    PqStore.qsize "boefje" (push hasher queue (pushed (task 2 "org-b" 3 200)) one_queued).1 ≤ 2
push_within_example =
    push_within hasher queue (pushed (task 2 "org-b" 3 200)) one_queued 1 refl refl
      (ap (λ r. r.0) push_on_one)

push-IsUnique_example :
    IsUnique "boefje" (push hasher queue (pushed (task 2 "org-b" 3 200)) one_queued).1
push-IsUnique_example =
    push-IsUnique hasher queue (pushed (task 2 "org-b" 3 200)) one_queued refl refl refl
      one_queued-IsUnique

pop-IsBest_example :
    (items : List Task) × ((pop queue 500 (some 1) none two_queued).0 ≡ ok items)
    × IsBest "boefje" (some 1) none two_queued items
pop-IsBest_example = pop-IsBest queue 500 (some 1) none two_queued two_queued-IsConsistent

pop_dispatches_example :
    Memᴰ (row 1 "org-a" 7 100) (row 2 "org-b" 3 200 ∷ [])
      × Memᴰ
          (with_status TaskStatus.dispatched 500 (row 1 "org-a" 7 100))
          (pop queue 500 (some 1) none two_queued).1.tasks
    ⊎ (is_listed (ids_of (row 2 "org-b" 3 200 ∷ [])) 1 ≡ false)
      × Memᴰ (row 1 "org-a" 7 100) (pop queue 500 (some 1) none two_queued).1.tasks
pop_dispatches_example =
    pop_dispatches queue 500 (some 1) none two_queued two_queued-IsConsistent
      (row 2 "org-b" 3 200 ∷ []) (row 1 "org-a" 7 100) pop_one (Memᴰ.head refl)

pop_once_example : ◌≢◌ {A = ℕ} 2 1
pop_once_example =
    pop_once queue 500 600 (some 1) none none none two_queued (row 2 "org-b" 3 200 ∷ [])
      (row 1 "org-a" 7 100 ∷ []) (row 2 "org-b" 3 200) (row 1 "org-a" 7 100) two_queued-IsConsistent
      pop_one pop_next (Memᴰ.head refl) (Memᴰ.head refl)

update_lost_example :
    Queue.update_item queue (pushed (task 2 "org-a" 1 200)) (row 1 "org-a" 7 100) one_queued
    ≡ (ok (Queue.patch (pushed (task 2 "org-a" 1 200)) (row 1 "org-a" 7 100)), one_queued)
update_lost_example =
    update_lost queue (pushed (task 2 "org-a" 1 200)) (row 1 "org-a" 7 100) one_queued refl refl
      one_queued-IsUnique.consistent.active

abbrev two_pops : List PopRequest
two_pops =
    record { now = 500; limit = some 1; filters = none }
    ∷ record { now = 600; limit = none; filters = none }
    ∷ []

-- The first pop takes the task with the better priority, the second the other.
served_test :
    served two_pops (waiting "boefje" two_queued)
    ≡ (row 2 "org-b" 3 200 ∷ []) ∷ (row 1 "org-a" 7 100 ∷ []) ∷ []
unfolding program served
served_test = refl

popped-served_example :
    popped queue two_pops two_queued ≡ map ok (served two_pops (waiting "boefje" two_queued))
popped-served_example = popped-served queue two_pops two_queued two_queued-IsConsistent

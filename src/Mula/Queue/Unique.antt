-- ===== src/Mula/Queue/Unique.antt =====
-- The queue holds at most one task for each hash.
use nl_kat_coordination.Prelude.{
  ◌≤◌, String, List, [], ◌∷◌, map, none, some, Bool, true, false, ◌&&◌, ◌≡◌, refl, arith, ◌==◌,
  count_of, count_of-append, count_of-map-le, count_of-map_mono, length, keep, option_str_eq,
  str_eq_iff, Bool-cases, inl, inr, ◌⊎◌, if◌then◌else◌,
}
use nl_kat_coordination.Mula.Models.{Task, Hasher}
use nl_kat_coordination.Mula.Database.{Db, insert_task, write_tasks}
use nl_kat_coordination.Mula.Database.Consistent.{
  IsConsistent, insert_task-IsConsistent, write_tasks-IsConsistent, set_columns-cases,
}
use nl_kat_coordination.Mula.PqStore
use nl_kat_coordination.Mula.PqStore.{is_queued, latest}
use nl_kat_coordination.Mula.Queue.{
  PriorityQueue, Pushed, update_item, patch, as_queued, push, create_hash, get_item_by_identifier,
  any_queued_update,
}
use nl_kat_coordination.Mula.Queue.Outcomes.{
  Outcome, kept, inserted, merged, replaced, push-Outcome,
}

abbrev pub has_hash : String → String → Task → Bool
has_hash sid hash t = is_queued sid t && option_str_eq t.hash (some hash)

-- The constraints of the table, and one QUEUED row at most for each hash.
pub record IsUnique (sid : String) (db : Db) : Type 0 where
  pub consistent : IsConsistent db
  pub hashes : (hash : String) → count_of (has_hash sid hash) db.tasks ≤ 1

latest-none : (ts : List Task) → latest ts ≡ none → length ts ≡ 0
unfolding latest
latest-none [] h = refl
latest-none (t ∷ ts) h = ground arith

absent-count :
    (h : Hasher) (q : PriorityQueue) (t : Task) (db : Db) (hash : String)
    → create_hash h q.item_type t.body ≡ some hash
    → get_item_by_identifier h q t db ≡ none
    → count_of (has_hash q.pq_id hash) db.tasks ≡ 0
unfolding get_item_by_identifier PqStore.get_item_by_hash
absent-count h q t db hash e absent =
    latest-none (keep (has_hash q.pq_id hash) db.tasks) (rw (e, get_item_by_identifier) at absent)

-- What `update` does to one row.
abbrev pub replace_row : String → Task → Task → Task
replace_row sid item x = if is_queued sid x && x.id == item.id then item else x

-- A row that has `hash` after an update had it before, or it is the row that was written.
replace_row_cases :
    (sid hash : String) (item x : Task)
    → has_hash sid hash (replace_row sid item x) ≡ true
    → (has_hash sid hash x ≡ true) ⊎ (x.id == item.id) ≡ true
replace_row_cases sid hash item x e = ground arith

replace_row_other :
    (sid hash : String) (item x : Task)
    → has_hash sid hash item ≡ false
    → has_hash sid hash (replace_row sid item x) ≡ true
    → has_hash sid hash x ≡ true
replace_row_other sid hash item x other e = ground arith

module _ (sid : String) (item : Task) (db : Db) (u : IsUnique sid db) where
  update-hashes :
      (key hash : String)
      → item.hash ≡ some key
      → count_of (has_hash sid key) db.tasks ≡ 0
      → count_of (has_hash sid hash) (map (replace_row sid item) db.tasks) ≤ 1
  update-hashes key hash e absent = elim (Bool-cases (has_hash sid hash item)) [
    | inl same ↦ ground (
      arith,
      str_eq_iff key hash,
      u.consistent.ids item.id,
      count_of-map-le (replace_row sid item) (has_hash sid hash) (has_hash sid hash)
          (λ x. x.id == item.id) (replace_row_cases sid hash item) db.tasks,
    )
    | inr other ↦ ground (
      arith,
      u.hashes hash,
      count_of-map_mono (replace_row sid item) (has_hash sid hash)
          (λ x. replace_row_other sid hash item x other) db.tasks,
    )
  ]

  replace_row-id : (x : Task) → (replace_row sid item x).id ≡ x.id
  replace_row-id x = ground arith

  update-IsUnique :
      (key : String)
      → item.hash ≡ some key
      → count_of (has_hash sid key) db.tasks ≡ 0
      → IsUnique sid (PqStore.update sid item db).1
  unfolding PqStore.update
  update-IsUnique key e absent =
      elim (set_columns-cases (λ t. is_queued sid t && t.id == item.id) item db) [
        | inl k ↦ rw k u
        | inr k ↦ rw k record {
          consistent =
              write_tasks-IsConsistent (replace_row sid item) db replace_row-id u.consistent;
          hashes = λ hash.
              unfold write_tasks in ground (arith, u.hashes hash, update-hashes key hash e absent);
        }
      ]

module _ (h : Hasher) (q : PriorityQueue) (p : Pushed) (db : Db) (u : IsUnique q.pq_id db) where
  -- The row that `as_queued` makes has the hash of its data, and no QUEUED row had it before.
  insert-hashes :
      (key : String)
      → create_hash h q.item_type p.task.body ≡ some key
      → get_item_by_identifier h q p.task db ≡ none
      → (hash : String)
      → count_of (has_hash q.pq_id hash) (insert_task (as_queued h q p).task db).1.tasks ≤ 1
  unfolding insert_task as_queued
  insert-hashes key e absent hash = ground (
    arith,
    u.hashes hash,
    absent-count h q p.task db key e absent,
    str_eq_iff key hash,
    count_of-append (has_hash q.pq_id hash) db.tasks ((as_queued h q p).task ∷ []),
  )

  db-update_item :
      (p' : Pushed) (item : Task)
      → (update_item q p' item db).1 ≡ (PqStore.update q.pq_id (patch p' item) db).1
  unfolding update_item
  db-update_item p' item = ground arith

  hash-patch :
      (key : String) (item : Task)
      → create_hash h q.item_type p.task.body ≡ some key
      → (patch (as_queued h q p) item).hash ≡ some key
  unfolding patch as_queued
  hash-patch key item e = e

  Outcome-IsUnique :
      {after : Db}
      → ((item : Task) → any_queued_update q p.task item ≡ false)
      → Outcome h q p db after
      → IsUnique q.pq_id after
  Outcome-IsUnique never (kept e) = rw e u
  Outcome-IsUnique never (inserted key k absent e) = rw e (record {
    consistent = insert_task-IsConsistent (as_queued h q p).task db u.consistent;
    hashes = insert-hashes key k absent;
  })
  Outcome-IsUnique never (merged key k absent item e) =
      rw (e, db-update_item)
        (update-IsUnique q.pq_id (patch (as_queued h q p) item) db u key (hash-patch key item k)
          (absent-count h q p.task db key k absent))
  Outcome-IsUnique never (replaced item _ allowed e) = cc (never item)

-- On a queue that allows no replacement and no updates, as every scheduler makes it, a push keeps
-- at most one QUEUED task for each hash in the queue, one row for each id and one active task for
-- each schedule. That holds on every branch, errors and collisions on a schedule included.
pub push-IsUnique :
    (h : Hasher) (q : PriorityQueue) (p : Pushed) (db : Db)
    → q.allow_replace ≡ false
    → q.allow_updates ≡ false
    → q.allow_priority_updates ≡ false
    → IsUnique q.pq_id db
    → IsUnique q.pq_id (push h q p db).1
push-IsUnique h q p db r w y u =
    Outcome-IsUnique h q p db u (λ item. ground arith) (push-Outcome h q p db)

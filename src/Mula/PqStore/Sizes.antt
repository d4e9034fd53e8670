-- ===== src/Mula/PqStore/Sizes.antt =====
-- How the statements of the store change the number of QUEUED rows of a scheduler.
use nl_kat_coordination.Prelude.{
  ◌+◌, ◌≤◌, String, [], ◌∷◌, true, ◌&&◌, ◌≡◌, arith, ◌==◌, count_of-append, count_of-map_mono,
  if◌then◌else◌,
}
use nl_kat_coordination.Mula.Models.{Task}
use nl_kat_coordination.Mula.Database.{set_columns, write_tasks, Db, insert_task}
use nl_kat_coordination.Mula.PqStore
use nl_kat_coordination.Mula.PqStore.{is_queued, qsize}

pub qsize-insert_task :
    (sid : String) (t : Task) (db : Db) → qsize sid (insert_task t db).1 ≤ qsize sid db + 1
unfolding insert_task
qsize-insert_task sid t db = ground (arith, count_of-append (is_queued sid) db.tasks (t ∷ []))

replace_queued :
    (sid : String) (item x : Task)
    → is_queued sid (if is_queued sid x && x.id == item.id then item else x) ≡ true
    → is_queued sid x ≡ true
replace_queued sid item x h = ground arith

pub qsize-update :
    (sid : String) (item : Task) (db : Db) → qsize sid (PqStore.update sid item db).1 ≤ qsize sid db
unfolding PqStore.update set_columns write_tasks
qsize-update sid item db = ground (
  arith,
  count_of-map_mono (λ x. if is_queued sid x && x.id == item.id then item else x) (is_queued sid)
      (replace_queued sid item) db.tasks,
)

-- ===== src/Mula/Queue/Dispatch.antt =====
-- Popped tasks become DISPATCHED: the statement never meets a constraint, and a dispatched task is
-- no longer selected.
use nl_kat_coordination.Prelude.{
  ℕ, String, List, [], ◌∷◌, map, true, ◌&&◌, ◌≡◌, refl, subst, arith, Memᴰ, inl, inr, ◌==◌, ==_iff,
  All, All-intro, any_of, any_of-map_exists, eq_of_count_of, Bool-cases, str_eq, if◌then◌else◌,
}
use nl_kat_coordination.Mula.Models.{Task, TaskStatus, is_active}
use nl_kat_coordination.Mula.Database.{Db, ok, collides, unique_active}
use nl_kat_coordination.Mula.Database.Consistent.{IsConsistent}
use nl_kat_coordination.Mula.PqStore
use nl_kat_coordination.Mula.PqStore.{is_queued, is_listed, with_status}
use nl_kat_coordination.Mula.Queue.{PriorityQueue, dispatch_items}

-- A change of rows that moves no row into or out of the index.
abbrev pub KeepsActive : (Task → Task) → Task → Type 0
KeepsActive f t = (is_active (f t) ≡ is_active t) × ((f t).schedule_id ≡ t.schedule_id)

any_of-collides-map :
    (f : Task → Task) (t : Task) (ts : List Task)
    → KeepsActive f t
    → All (KeepsActive f) ts
    → any_of (collides (f t)) (map f ts) ≡ any_of (collides t) ts
any_of-collides-map f t [] k h = refl
any_of-collides-map f t (u ∷ us) k h = rw (k.0, k.1, h.0.0, h.0.1, any_of-collides-map f t us k h.1)

pub unique_active-map :
    (f : Task → Task) (ts : List Task)
    → All (KeepsActive f) ts
    → unique_active (map f ts) ≡ unique_active ts
unfolding unique_active
unique_active-map f [] h = refl
unique_active-map f (t ∷ ts) h = rw (any_of-collides-map f t ts h.0 h.1, unique_active-map f ts h.1)

abbrev pub ids_of : List Task → List ℕ
ids_of items = map (λ u. u.id) items

-- The row of a popped task after the statement of `bulk_update_status`.
abbrev pub mark : String → List Task → ℕ → Task → Task
mark sid items now t =
    if str_eq t.scheduler_id sid && is_listed (ids_of items) t.id
    then with_status TaskStatus.dispatched now t
    else t

module _ (sid : String) (items : List Task) (db : Db) (c : IsConsistent db)
    (waiting : (t : Task) → Memᴰ t items → Memᴰ t db.tasks × (is_queued sid t ≡ true)) where
  -- The listed ids are those of QUEUED rows.
  listed-queued :
      (t : Task) → Memᴰ t db.tasks → is_listed (ids_of items) t.id ≡ true → is_queued sid t ≡ true
  listed-queued t m e =
      let (u, n, k) = any_of-map_exists (λ u. u.id) (λ i. i == t.id) items e in
      let (stored, queued) = waiting u n in
      subst (λ v. is_queued sid v ≡ true)
        (eq_of_count_of (λ v. v.id == t.id) stored m k ((==_iff t.id t.id).1 refl) (c.ids t.id))
        queued

  pub mark-KeepsActive : (now : ℕ) → All (KeepsActive (mark sid items now)) db.tasks
  mark-KeepsActive now = All-intro db.tasks (λ t m.
      elim (Bool-cases (is_listed (ids_of items) t.id)) [
        | inl e ↦ ground (arith, listed-queued t m e)
        | inr e ↦ ground arith
      ])

map-mark_nil : (sid : String) (now : ℕ) (ts : List Task) → map (mark sid [] now) ts ≡ ts
map-mark_nil sid now [] = refl
map-mark_nil sid now (t ∷ ts) = ground (arith, map-mark_nil sid now ts)

pub dispatch_items_lem :
    (q : PriorityQueue) (now : ℕ) (items : List Task) (db : Db)
    → IsConsistent db
    → ((t : Task) → Memᴰ t items → Memᴰ t db.tasks × (is_queued q.pq_id t ≡ true))
    → dispatch_items q now items db
      ≡ (ok items, record db { tasks = map (mark q.pq_id items now) db.tasks })
unfolding dispatch_items PqStore.bulk_update_status
dispatch_items_lem q now [] db c w = rw map-mark_nil
dispatch_items_lem q now (t ∷ ts) db c w = rw (
  unique_active-map (mark q.pq_id (t ∷ ts) now) db.tasks
      (mark-KeepsActive q.pq_id (t ∷ ts) db c w now),
  c.active,
)

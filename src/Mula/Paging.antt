-- ===== src/Mula/Paging.antt =====
-- The end of get_tasks and get_schedules (storage/stores/task.py, schedule.py): the page of the rows
-- that a query selects, newest first, and their count. Offset, limit and max_pages are any integers.
pub mod Counts
use Prim.Native.Nat.{min, max}
use nl_kat_coordination.Prelude.{
  sort_by, ℕ, ◌+◌, ◌*◌, List, [], ◌∷◌, Bool, true, false, ℤ, pos, negsuc, ◌==◌, leb, take, drop,
  length, if◌then◌else◌,
}

abbrev pub max_limit : ℕ
max_limit = 500

-- `max(n, 0)`
abbrev pub at_least_zero : ℤ → ℕ
at_least_zero (pos n) = n
at_least_zero (negsuc n) = 0

-- `min(max(limit, 0), MAX_LIMIT)`
unfoldable pub page_limit : ℤ → ℕ
page_limit limit = min (at_least_zero limit) max_limit

-- `min(max(max_pages, 1), 20)`
unfoldable pub page_bound : ℤ → ℕ
page_bound max_pages = min (max (at_least_zero max_pages) 1) 20

pub record Page {ℓ} (A : Type ℓ) : Type ℓ where
  pub items : List A
  pub count : ℕ
  pub is_partial_count : Bool

module _ {ℓ} {A : Type ℓ} (created_at : A → ℕ) where
  -- `.order_by(created_at.desc())`
  unfoldable pub newest_first : List A → List A
  newest_first rows = sort_by (λ a b. leb (created_at b) (created_at a)) rows

  -- `rows` are the rows that pass the filters of the query.
  unfoldable pub get_page : List A → ℤ → ℤ → ℤ → Bool → Page A
  unfolding page_limit page_bound newest_first
  get_page rows offset limit max_pages allow_partial_count =
      let o = at_least_zero offset in
      let l = page_limit limit in
      let bound = o + page_bound max_pages * l + 1 in
      let items = take l (drop o (newest_first rows)) in
      if l == 0
      then record { items = []; count = length rows; is_partial_count = false }
      else if allow_partial_count
      then record {
        items = items;
        count = length (take bound rows);
        is_partial_count = length (take bound rows) == bound;
      }
      else record { items = items; count = length rows; is_partial_count = false }

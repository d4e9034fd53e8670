-- ===== src/Mula/Queue/Waiting.antt =====
-- What the pops of mula/scheduler/schedulers/queue/pq.py promise: a queue is the list of the tasks
-- that wait, and a pop takes the first of those that pass its filters. Other rows of the table, the
-- statuses and the times are forgotten.
pub mod Refined
use nl_kat_coordination.Prelude.{
  ℕ, List, [], ◌∷◌, ◌++◌, map, keep, Option, none, some, Bool, not, String,
}
use nl_kat_coordination.Mula.Models.{Task}
use nl_kat_coordination.Mula.Database.{Db, Result}
use nl_kat_coordination.Mula.Ordering.{order_by}
use nl_kat_coordination.Mula.PqStore.{is_queued, passes, limit_to, is_listed}
use nl_kat_coordination.Mula.Queue.{PriorityQueue, pop}

pub record PopRequest : Type 0 where
  pub now : ℕ
  pub limit : Option ℕ
  pub filters : Option (Task → Bool)

-- The rows that wait
abbrev pub waiting : String → Db → List Task
waiting sid db = keep (is_queued sid) db.tasks

abbrev pub first_tasks : PopRequest → List Task → List Task
first_tasks r queue = limit_to r.limit (order_by (keep (passes r.filters) queue))

abbrev pub without_tasks : List Task → List Task → List Task
without_tasks items queue = keep (λ t. not (is_listed (map (λ u. u.id) items) t.id)) queue

-- The answers to pops, one after another
unfoldable pub served : List PopRequest → List Task → List (List Task)
served [] queue = []
served (r ∷ rs) queue = first_tasks r queue ∷ served rs (without_tasks (first_tasks r queue) queue)

-- The same of the tables
unfoldable pub popped : PriorityQueue → List PopRequest → Db → List (Result (List Task))
popped q [] db = []
popped q (r ∷ rs) db =
    (pop q r.now r.limit r.filters db).0 ∷ popped q rs (pop q r.now r.limit r.filters db).1

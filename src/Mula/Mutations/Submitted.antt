-- ===== src/Mula/Mutations/Submitted.antt =====
-- What a mutation submits.
use nl_kat_coordination.Prelude.{
  ℕ, String, List, [], ◌∷◌, some, none, Option, Bool, true, false, any_of, any_of_exists, ◌&&◌, ◌≡◌,
  refl, sym, subst, arith, Memᴰ, Bool-cases, inl, inr,
}
use nl_kat_coordination.Mula.Models.{BoefjeTask, Task}
use nl_kat_coordination.Mula.Database.{Db, Result, ok}
use nl_kat_coordination.Mula.Boefje.{RunOn, Plugin, Ooi, has_boefje_permission_to_run}
use nl_kat_coordination.Mula.Boefje.Permission.{IsPermitted, IsPermitted-of_test}
use nl_kat_coordination.Mula.Mutations.{
  MutationOperationType, create, update, delete, is_run_on, ScanProfileEvent, published, run_type,
  submitted_task, tasks_of_mutation, process_mutations,
}

-- A boefje without run_on runs on each mutation, with a schedule. One with run_on runs on the creation
-- or the update of an object where it lists that, without a schedule, and never on a deletion.
pub data RunsOn : MutationOperationType → Option (List RunOn) → Bool → Type 0 where
  with_schedule : {operation : MutationOperationType} → RunsOn operation none true
  with_empty : {operation : MutationOperationType} → RunsOn operation (some []) true
  on_creation : {rs : List RunOn} → Memᴰ RunOn.on_create rs → RunsOn create (some rs) false
  on_updating : {rs : List RunOn} → Memᴰ RunOn.on_update rs → RunsOn update (some rs) false

RunOn-member :
    (operation : MutationOperationType) (rs : List RunOn)
    → any_of (is_run_on operation) rs ≡ true
    → RunsOn operation (some rs) false
RunOn-member operation rs h =
    let (r, m, e) = any_of_exists (is_run_on operation) rs h in listed operation r m e
  where
    listed :
        (op : MutationOperationType) (r : RunOn)
        → Memᴰ r rs
        → is_run_on op r ≡ true
        → RunsOn op (some rs) false
    listed create RunOn.on_create m e = on_creation m
    listed create RunOn.on_update m e = absurd (ground (arith, e))
    listed update RunOn.on_create m e = absurd (ground (arith, e))
    listed update RunOn.on_update m e = on_updating m
    listed delete RunOn.on_create m e = absurd (ground (arith, e))
    listed delete RunOn.on_update m e = absurd (ground (arith, e))

run_type-RunsOn :
    (operation : MutationOperationType) (run_on : Option (List RunOn))
    → (run_type operation run_on).1 ≡ true
    → RunsOn operation run_on (run_type operation run_on).0
unfolding run_type
run_type-RunsOn operation none h = with_schedule
run_type-RunsOn operation (some []) h = with_empty
run_type-RunsOn operation (some (r ∷ rs)) h = RunOn-member operation (r ∷ rs) h

-- A boefje of the list that is permitted to run on the object and that runs on the operation, and
-- the task for it.
pub record IsSubmitted (operation : MutationOperationType) (ooi : Ooi) (client_id : String)
    (boefjes : List Plugin) (task : BoefjeTask) (create_schedule : Bool) : Type 0 where
  pub boefje : Plugin
  pub listed : Memᴰ boefje boefjes
  pub permitted : IsPermitted boefje (some ooi)
  pub runs : RunsOn operation boefje.run_on create_schedule
  pub same_boefje : task.boefje ≡ boefje.boefje
  pub input : task.input_ooi ≡ some ooi.primary_key
  pub organization : task.organization ≡ client_id

module _ (new_id : Plugin → ℕ) (operation : MutationOperationType) (ooi : Ooi)
    (client_id : String) where
  IsSubmitted-later :
      {b : Plugin} {bs : List Plugin} {t : BoefjeTask} {c : Bool}
      → IsSubmitted operation ooi client_id bs t c
      → IsSubmitted operation ooi client_id (b ∷ bs) t c
  IsSubmitted-later s = record {
    boefje = s.boefje;
    listed = Memᴰ.tail s.listed;
    permitted = s.permitted;
    runs = s.runs;
    same_boefje = s.same_boefje;
    input = s.input;
    organization = s.organization;
  }

  IsSubmitted-head :
      (b : Plugin) (bs : List Plugin)
      → (has_boefje_permission_to_run b (some ooi) && (run_type operation b.run_on).1) ≡ true
      → IsSubmitted operation ooi client_id
          (b ∷ bs)
          (submitted_task new_id ooi client_id b)
          (run_type operation b.run_on).0
  unfolding submitted_task
  IsSubmitted-head b bs h = record {
    boefje = b;
    listed = Memᴰ.head refl;
    permitted = IsPermitted-of_test b (some ooi) (ground (arith, h));
    runs = run_type-RunsOn operation b.run_on (ground (arith, h));
    same_boefje = refl;
    input = refl;
    organization = refl;
  }

  head_or_later :
      {b : Plugin} {bs : List Plugin} {t u : BoefjeTask} {c d : Bool}
      {rest : List (BoefjeTask × Bool)}
      → Memᴰ (t, c) ((u, d) ∷ rest)
      → IsSubmitted operation ooi client_id (b ∷ bs) u d
      → (Memᴰ (t, c) rest → IsSubmitted operation ooi client_id (b ∷ bs) t c)
      → IsSubmitted operation ooi client_id (b ∷ bs) t c
  head_or_later {b = b} {bs = bs} (Memᴰ.head e) s f =
      subst (λ (z : BoefjeTask × Bool). IsSubmitted operation ooi client_id (b ∷ bs) z.0 z.1)
        (sym e) s
  head_or_later (Memᴰ.tail m) s f = f m

  -- Every task that a mutation submits is for a boefje of the catalogue that is permitted to run on the
  -- object. The boefje has no run_on and the task's schedule is created, or the mutation creates or updates
  -- an object and run_on lists that, and no schedule is created.
  pub tasks_of_mutation-IsSubmitted :
      (boefjes : List Plugin) (t : BoefjeTask) (c : Bool)
      → Memᴰ (t, c) (tasks_of_mutation new_id operation ooi client_id boefjes)
      → IsSubmitted operation ooi client_id boefjes t c
  unfolding tasks_of_mutation
  tasks_of_mutation-IsSubmitted [] t c m = elim m [ ]
  tasks_of_mutation-IsSubmitted (b ∷ bs) t c m =
      elim (Bool-cases
        (has_boefje_permission_to_run b (some ooi) && (run_type operation b.run_on).1)) [
          | inl e ↦
              head_or_later (rw e at m) (IsSubmitted-head b bs e)
                (λ k. IsSubmitted-later (tasks_of_mutation-IsSubmitted bs t c k))
          | inr e ↦ IsSubmitted-later (tasks_of_mutation-IsSubmitted bs t c (rw e at m))
        ]

-- The mutation that octopoes publishes when a scan profile is deleted cancels no task: process_mutations
-- submits nothing and changes nothing.
pub deletion_ignored :
    (scheduler_id : String) (boefjes : String → String → Result (List Plugin))
    (has_input : String → Task → Bool) (new_id : Plugin → ℕ) (event : ScanProfileEvent) (db : Db)
    → event.operation_type ≡ delete
    → process_mutations scheduler_id boefjes has_input new_id (published event) db ≡ (ok [], db)
unfolding process_mutations published
deletion_ignored scheduler_id boefjes has_input new_id event db e = rw e refl

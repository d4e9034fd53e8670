-- ===== src/Octopoes/Collection/Runs.antt =====
-- What holds of every state that the requests and events of octopoes reach.
use nl_kat_coordination.Prelude.{
  ℕ, zero, suc, String, List, [], ◌∷◌, ◌++◌, any_of, true, false, ◌≡◌, refl, ap, arith, ◌∙◌, inl,
  inr, Bool-cases,
}
use nl_kat_coordination.Octopoes.Session.{
  Store, Event, Session, Outcome, written, failed, commit, unchanged, ◌then◌,
}
use nl_kat_coordination.Octopoes.Repositories.{get_object}
use nl_kat_coordination.Octopoes.Bits.{Environment}
use nl_kat_coordination.Octopoes.Handlers.{process_event}
use nl_kat_coordination.Octopoes.Requests.{Request, serve}
use nl_kat_coordination.Octopoes.Collection.{stores, supports, mentions}
use nl_kat_coordination.Octopoes.Collection.Keyed.{commit-apply_all}
use nl_kat_coordination.Octopoes.Collection.Reachable.{
  State, committed, Step, IsRegularStep, Run, IsRegular, is_allowed, IsSound, Step-IsSound, handled,
}

abbrev pub initial : State
initial = record {
  store = record { objects = []; origins = []; parameters = []; profiles = [] };
  events = [];
  pending = unchanged;
}

module _ (env : Environment) where
  pub initial-IsSound : IsSound env initial
  unfolding get_object
  initial-IsSound = record {
    nothing_pending = refl;
    keyed = λ o p m n e. elim m [ ];
    unaffirmed_bits = record { unaffirmed = λ o m. elim m [ ] };
    collected_objects = record { collected = λ r h. absurd (ground (arith, h)) };
  }

  -- Requests and events in any order, of which no handler raises and no affirmation has the id of a bit
  -- as its method, keep this: the session of the worker is empty, under every id there is one origin,
  -- no stored affirmation has a bit's id as its method, and an object that is stored has a supporting
  -- origin or is mentioned by a waiting event.
  pub Run-IsSound :
      {a b : State} (run : Run env a b) → IsRegular env run → IsSound env a → IsSound env b
  unfolding IsRegular
  Run-IsSound Run.done g i = i
  Run-IsSound (Run.next {a = a} {b = b} t r) g i = Run-IsSound r g.1 (Step-IsSound env a b t g.0 i)

  -- From an empty store, requests and events in any order, of which no handler raises and no affirmation
  -- has the id of a bit as its method: once every event is handled, each object that is stored is a
  -- result of an origin that counts for it, which is a declaration, an observation, or the inference
  -- from another object.
  pub Run-supported :
      {b : State} (r : String) (run : Run env initial b)
      → IsRegular env run
      → b.events ≡ []
      → stores b.store r ≡ true
      → any_of (supports r) b.store.origins ≡ true
  Run-supported {b = b} r run g e h =
      let k = (Run-IsSound run g initial-IsSound).collected_objects.collected r h in
      ground (arith, rw e at k)

  -- The event that mentions an object, among the waiting ones
  mentioning :
      (r : String) (events : List Event)
      → any_of (mentions r) events ≡ true
      → (before : List Event) × (e : Event) × (after : List Event) × (events ≡ before ++ e ∷ after)
        × (mentions r e ≡ true)
  mentioning r [] h = absurd (ground (arith, h))
  mentioning r (e ∷ es) h = elim (Bool-cases (mentions r e)) [
    | inl k ↦ ([], e, es, refl, k)
    | inr k ↦
        let (before, x, after, q, m) = mentioning r es (ground (arith, h, k)) in
        (e ∷ before, x, after, ap (λ z. e ∷ z) q, m)
  ]

  -- A handler of an event that mentions an object does not fail.
  mentioned-written :
      (s : Store) (e : Event) (r : String)
      → mentions r e ≡ true
      → (w : Session) × (process_event env s e ≡ written w)
  unfolding process_event mentions
  mentioned-written s (Event.deleted_origin old) r m = (_, refl)
  mentioned-written s (Event.updated_origin old new) r m = (_, refl)
  mentioned-written s (Event.created_object x) r m = absurd (ground (arith, m))
  mentioned-written s (Event.updated_object x y) r m = absurd (ground (arith, m))
  mentioned-written s (Event.deleted_object x) r m = absurd (ground (arith, m))
  mentioned-written s (Event.created_origin x) r m = absurd (ground (arith, m))
  mentioned-written s (Event.created_parameter x) r m = absurd (ground (arith, m))
  mentioned-written s (Event.updated_parameter x y) r m = absurd (ground (arith, m))
  mentioned-written s (Event.deleted_parameter x) r m = absurd (ground (arith, m))
  mentioned-written s (Event.created_profile x) r m = absurd (ground (arith, m))
  mentioned-written s (Event.updated_profile x y) r m = absurd (ground (arith, m))
  mentioned-written s (Event.deleted_profile x) r m = absurd (ground (arith, m))

  -- In a state that requests and events reach from an empty store, where no handler has raised and no
  -- affirmation had the id of a bit as its method, an object that is stored and that no origin supports
  -- is mentioned by a waiting event whose handler does not raise, and is not stored once that event is
  -- handled.
  pub unsupported-deleted :
      (a : State) (r : String) (run : Run env initial a)
      → IsRegular env run
      → stores a.store r ≡ true
      → any_of (supports r) a.store.origins ≡ false
      → (before : List Event) × (e : Event) × (after : List Event) × (w : Session) × (a.events
          ≡ before ++ e ∷ after)
        × (process_event env a.store e ≡ written w)
        × (stores (commit w a.store).0 r ≡ false)
  unsupported-deleted a r run g h n =
      let k = (Run-IsSound run g initial-IsSound).collected_objects.collected r h in
      let (before, e, after, q, m) = mentioning r a.events (ground (arith, k, n)) in
      let (w, p) = mentioned-written a.store e r m in
      let gone = handled env a.store e w r p m in
      (
        before,
        e,
        after,
        w,
        q,
        p,
        ap (λ z. stores z r) (commit-apply_all w a.store) ∙ ground (arith, gone, n),
      )

  -- A run in which no handler raises
  abbrev pub RegularRun : State → State → Type 0
  RegularRun a b = (run : Run env a b) × IsRegular env run

  -- The first event is handled, unless its handler raises.
  handle_by : State → Event → List Event → Outcome → State
  handle_by a e after (written w) = committed (a.pending then w) a.store after unchanged
  handle_by a e after (failed f w) = a

  handle_first : State → List Event → State
  unfolding handle_by process_event
  handle_first a [] = a
  handle_first a (e ∷ after) = handle_by a e after (process_event env a.store e)

  unfoldable pub drain : ℕ → State → State
  unfolding handle_first
  drain zero a = a
  drain (suc n) a = drain n (handle_first a a.events)

  run_of_one : {a b : State} (t : Step env a b) → IsRegularStep env t → RegularRun a b
  unfolding IsRegular
  run_of_one t g = (Run.next t Run.done, (g, tt))

  handle_by-Run :
      (s : Store) (e : Event) (after : List Event) (pending : Session) (o : Outcome)
      → process_event env s e ≡ o
      → RegularRun
          record { store = s; events = e ∷ after; pending = pending }
          (handle_by record { store = s; events = e ∷ after; pending = pending } e after o)
  unfolding handle_by IsRegular IsRegularStep
  handle_by-Run s e after pending (written w) p = run_of_one (Step.handle [] e after w p) tt
  handle_by-Run s e after pending (failed f w) p = (Run.done, tt)

  handle_first-Run :
      (s : Store) (events : List Event) (pending : Session)
      → RegularRun
          record { store = s; events = events; pending = pending }
          (handle_first record { store = s; events = events; pending = pending } events)
  unfolding handle_first IsRegular
  handle_first-Run s [] pending = (Run.done, tt)
  handle_first-Run s (e ∷ after) pending =
      handle_by-Run s e after pending (process_event env s e) refl

  appended :
      {a b c : State} (run : Run env a b) → IsRegular env run → RegularRun b c → RegularRun a c
  unfolding IsRegular
  appended Run.done g r = r
  appended (Run.next t q) g r = let (run, h) = appended q g.1 r in (Run.next t run, (g.0, h))

  pub Run-append : {a b c : State} → RegularRun a b → RegularRun b c → RegularRun a c
  Run-append (q, g) r = appended q g r

  pub drain-Run : (n : ℕ) (a : State) → RegularRun a (drain n a)
  unfolding drain IsRegular
  drain-Run zero a = (Run.done, tt)
  drain-Run (suc n) a =
      Run-append (handle_first-Run a.store a.events a.pending)
        (drain-Run n (handle_first a a.events))

  request_by : State → Outcome → State
  request_by a (written w) = committed w a.store a.events a.pending
  request_by a (failed f w) = a

  unfoldable pub requested : Request → State → State
  unfolding request_by serve
  requested q a = request_by a (serve a.store q)

  pub requested-Run :
      (q : Request) (a : State) → is_allowed env q ≡ true → RegularRun a (requested q a)
  unfolding requested request_by IsRegular IsRegularStep
  requested-Run q a h = by_outcome (serve a.store q) refl
    where
      by_outcome : (o : Outcome) → serve a.store q ≡ o → RegularRun a (request_by a o)
      by_outcome (written w) p = run_of_one (Step.request q w p) h
      by_outcome (failed f w) p = (Run.done, tt)

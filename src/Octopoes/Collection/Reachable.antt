-- ===== src/Octopoes/Collection/Reachable.antt =====
-- The requests of octopoes/octopoes/api/router.py and the events of octopoes/octopoes/tasks/tasks.py,
-- one after another in any order. A request has a session of its own. The events are handled by one
-- worker, which keeps its session (get_octopoes of octopoes/octopoes/core/app.py): what a handler that
-- raises has written stays in it and is committed with the next event.
use nl_kat_coordination.Prelude.{
  String, List, [], ◌∷◌, ◌++◌, map, any_of, any_of-append, Bool, true, false, ◌||◌, not, ◌≡◌, refl,
  ap, sym, subst, arith, inl, inr, Option-cases, str_eq_iff,
}
use nl_kat_coordination.Octopoes.Origins.{Ooi, OriginId, member, from_keys}
use nl_kat_coordination.Octopoes.Session.{
  Store, Event, Session, written, failed, held, unchanged, ◌then◌, Failure, commit, apply_all,
}
use nl_kat_coordination.Octopoes.Repositories.{get_object, get_origin, remove_ooi}
use nl_kat_coordination.Octopoes.Service.{counts}
use nl_kat_coordination.Octopoes.Bits.{Environment, bit_with}
use nl_kat_coordination.Octopoes.Handlers.{process_event}
use nl_kat_coordination.Octopoes.Requests.{Request, serve, observed, declared, affirmed}
use nl_kat_coordination.Octopoes.Collection.{
  stores, supports, mentions, IsCollected, IsLawful, IsKeyed, runs_affirmed,
}
use nl_kat_coordination.Octopoes.Collection.Ids.{member-minus}
use nl_kat_coordination.Octopoes.Collection.Committed.{commit-IsCollected}
use nl_kat_coordination.Octopoes.Collection.Keyed.{
  IsUnaffirmed, commit-IsKeyed, commit-IsUnaffirmed,
}
use nl_kat_coordination.Octopoes.Collection.Lawful.{
  unchanged-IsLawful, remove_origin-IsLawful, get_origin_lem,
}
use nl_kat_coordination.Octopoes.Collection.Saved.{save_origin-IsLawful}
use nl_kat_coordination.Octopoes.Collection.Outcomes.{IsLawfulOutcome}
use nl_kat_coordination.Octopoes.Collection.Handled.{process_event-IsLawful}
use nl_kat_coordination.Octopoes.Collection.Deleted.{on_delete_origin_iff, on_update_origin_iff}

-- The store, the events that wait, and what the session of the worker holds
pub record State : Type 0 where
  pub store : Store
  pub events : List Event
  pub pending : Session

-- What a commit leaves, with the events that were waiting
abbrev pub committed : Session → Store → List Event → Session → State
committed w s rest pending = record {
  store = (commit w s).0;
  events = rest ++ (commit w s).1;
  pending = pending;
}

-- The method of an affirmation is not the id of a bit.
unfoldable pub is_allowed : Environment → Request → Bool
unfolding bit_with
is_allowed env (Request.save_affirmation a) = not (runs_affirmed env (affirmed a))
is_allowed env _ = true

module _ (env : Environment) where
  -- A request that raises changes nothing. An event whose handler raises is lost.
  pub data Step : State → State → Type 0 where
    request :
        {s : Store} {events : List Event} {pending : Session} (q : Request) (w : Session)
        → serve s q ≡ written w
        → Step
            record { store = s; events = events; pending = pending }
            (committed w s events pending)
    handle :
        {s : Store} {pending : Session} (before : List Event) (e : Event) (after : List Event)
        (w : Session)
        → process_event env s e ≡ written w
        → Step
            record { store = s; events = before ++ e ∷ after; pending = pending }
            (committed (pending then w) s (before ++ after) unchanged)
    lose :
        {s : Store} {pending : Session} (before : List Event) (e : Event) (after : List Event)
        (f : Failure) (w : Session)
        → process_event env s e ≡ failed f w
        → Step
            record { store = s; events = before ++ e ∷ after; pending = pending }
            record { store = s; events = before ++ after; pending = pending then w }

  -- No handler raises, and no bit has the method of an affirmation.
  unfoldable pub IsRegularStep : {a b : State} → Step a b → Type 0
  IsRegularStep (request q w e) = is_allowed env q ≡ true
  IsRegularStep (handle before e after w p) = Unit
  IsRegularStep (lose before e after f w p) = ⊥

  pub data Run : State → State → Type 0 where
    done : {a : State} → Run a a
    next : {a b c : State} → Step a b → Run b c → Run a c

  unfoldable pub IsRegular : {a b : State} → Run a b → Type 0
  unfolding IsRegularStep
  IsRegular done = Unit
  IsRegular (next t r) = IsRegularStep t × IsRegular r

  pub record IsSound (a : State) : Type 0 where
    pub nothing_pending : a.pending ≡ unchanged
    pub keyed : IsKeyed a.store
    pub unaffirmed_bits : IsUnaffirmed env a.store
    pub collected_objects : IsCollected a.store a.events

  committed-IsSound :
      (s : Store) (ρ : OriginId → List String) (w : Session)
      → IsLawful env s ρ w
      → IsKeyed s
      → IsUnaffirmed env s
      → (told : String → Bool) (rest : List Event)
      → ((r : String)
          → stores s r ≡ true
          → (any_of (supports r) s.origins || (told r || any_of (mentions r) rest)) ≡ true)
      → ((r : String)
          → told r ≡ true
          → stores (apply_all w.operations s) r ≡ true
          → any_of (supports r) s.origins ≡ true)
      → IsSound (committed w s rest unchanged)
  committed-IsSound s ρ w law k u told rest c h = record {
    nothing_pending = refl;
    keyed = commit-IsKeyed w s k;
    unaffirmed_bits = commit-IsUnaffirmed env s ρ w law u;
    collected_objects = commit-IsCollected env s ρ w law told rest c h;
  }

  -- The objects that an event mentions are deleted when it is handled, or another origin has them.
  pub handled :
      (s : Store) (e : Event) (w : Session) (r : String)
      → process_event env s e ≡ written w
      → mentions r e ≡ true
      → stores (apply_all w.operations s) r ≡ true
      → any_of (supports r) s.origins ≡ true
  unfolding process_event mentions
  handled s (Event.deleted_origin old) w r e m h =
      let same = ap held e in
      let k = on_delete_origin_iff s old r in
      let h' = subst (λ (z : Session). stores (apply_all z.operations s) r ≡ true) (sym same) h in
      ground (arith, k, h', m)
  handled s (Event.updated_origin old new) w r e m h =
      let same = ap held e in
      let k = on_update_origin_iff s old new r in
      let h' = subst (λ (z : Session). stores (apply_all z.operations s) r ≡ true) (sym same) h in
      let gone = member-minus r old.result new.result in ground (arith, k, h', m, gone)
  handled s (Event.created_object x) w r e m h = absurd (ground (arith, m))
  handled s (Event.updated_object x y) w r e m h = absurd (ground (arith, m))
  handled s (Event.deleted_object x) w r e m h = absurd (ground (arith, m))
  handled s (Event.created_origin x) w r e m h = absurd (ground (arith, m))
  handled s (Event.created_parameter x) w r e m h = absurd (ground (arith, m))
  handled s (Event.updated_parameter x y) w r e m h = absurd (ground (arith, m))
  handled s (Event.deleted_parameter x) w r e m h = absurd (ground (arith, m))
  handled s (Event.created_profile x) w r e m h = absurd (ground (arith, m))
  handled s (Event.updated_profile x y) w r e m h = absurd (ground (arith, m))
  handled s (Event.deleted_profile x) w r e m h = absurd (ground (arith, m))

  handle-IsLawful :
      (s : Store) (e : Event) (w : Session)
      → IsKeyed s
      → IsUnaffirmed env s
      → process_event env s e ≡ written w
      → (ρ : OriginId → List String) × IsLawful env s ρ w
  handle-IsLawful s e w k u p =
      let (ρ, l) = process_event-IsLawful env s k u e in (ρ, subst (IsLawfulOutcome env s ρ) p l)

  results_of : List Ooi → OriginId → List String
  results_of oois k = from_keys (map (λ (x : Ooi). x.reference) oois)

  nothing : OriginId → List String
  nothing k = []

  remove_ooi-IsLawful : (s : Store) (r : String) → IsLawfulOutcome env s nothing (remove_ooi s r)
  unfolding remove_ooi
  remove_ooi-IsLawful s r = elim (Option-cases (get_object r s.objects)) [
    | inl n ↦ rw (remove_ooi, n) (unchanged-IsLawful env s nothing)
    | inr (ooi, n) ↦ rw (remove_ooi, n) record { lawful = (tt, tt) }
  ]

  affirmed_source :
      (s : Store) (r x : String) → member r (x ∷ []) ≡ true → stores s x ≡ true → stores s r ≡ true
  affirmed_source s r x m h =
      subst (λ z. stores s z ≡ true) (sym ((str_eq_iff r x).0 (ground (arith, m)))) h

  serve-IsLawful :
      (s : Store) (q : Request)
      → IsKeyed s
      → is_allowed env q ≡ true
      → (ρ : OriginId → List String) × IsLawfulOutcome env s ρ (serve s q)
  unfolding serve results_of counts nothing is_allowed
  serve-IsLawful s (Request.save_observation o) k a = (
    results_of o.result,
    save_origin-IsLawful env s (results_of o.result) k (observed o) o.result refl refl
        (λ r m q. ground arith),
  )
  serve-IsLawful s (Request.save_declaration d) k a = (
    results_of (d.ooi ∷ []),
    save_origin-IsLawful env s (results_of (d.ooi ∷ [])) k (declared d) (d.ooi ∷ []) refl refl
        (λ r m q. ground arith),
  )
  serve-IsLawful s (Request.save_affirmation d) k a = (
    results_of (d.ooi ∷ []),
    save_origin-IsLawful env s (results_of (d.ooi ∷ [])) k (affirmed d) (d.ooi ∷ []) refl
        (ground (arith, a)) (λ r m q. rw (affirmed_source s r d.ooi.reference m (q refl)) refl),
  )
  serve-IsLawful s (Request.delete_object r) k a = (nothing, remove_ooi-IsLawful s r)
  serve-IsLawful s (Request.delete_origin l) k a = elim (Option-cases (get_origin l s.origins)) [
    | inl n ↦ (nothing, rw (serve, n) (unchanged-IsLawful env s nothing))
    | inr (o, n) ↦ (
      nothing,
      rw (serve, n)
          (remove_origin-IsLawful env s nothing k o (get_origin_lem env s nothing l s.origins o n).0
            refl),
    )
  ]

  reorder :
      (s : Store) (before after : List Event) (e : Event)
      → IsCollected s (before ++ e ∷ after)
      → (r : String) → stores s r ≡ true
      → (any_of (supports r) s.origins || (mentions r e || any_of (mentions r) (before ++ after)))
        ≡ true
  reorder s before after e c r h =
      let k = c.collected r h in
      rw (any_of-append (mentions r) before after)
        (ground (arith, rw (any_of-append (mentions r) before (e ∷ after)) at k))

  pub Step-IsSound : (a b : State) (t : Step a b) → IsRegularStep t → IsSound a → IsSound b
  unfolding IsRegularStep
  Step-IsSound a b (request {s = s} {events = events} q w e) al i =
      let (ρ, l) = serve-IsLawful s q i.keyed al in
      subst (λ p. IsSound (committed w s events p)) (sym i.nothing_pending)
        (committed-IsSound s ρ w (subst (IsLawfulOutcome env s ρ) e l) i.keyed i.unaffirmed_bits
          (λ r. false) events i.collected_objects.collected (λ r f h. absurd (ground (arith, f))))
  Step-IsSound a b (handle {s = s} before e after w p) al i =
      let (ρ, l) = handle-IsLawful s e w i.keyed i.unaffirmed_bits p in
      subst (λ v. IsSound (committed (v then w) s (before ++ after) unchanged))
        (sym i.nothing_pending)
        (committed-IsSound s ρ w l i.keyed i.unaffirmed_bits (λ r. mentions r e) (before ++ after)
          (reorder s before after e i.collected_objects) (λ r. handled s e w r p))
  Step-IsSound a b (lose before e after f w p) al i = elim al [ ]

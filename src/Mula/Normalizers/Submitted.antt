-- ===== src/Mula/Normalizers/Submitted.antt =====
-- Which normalizers get a task for a raw file.
use nl_kat_coordination.Prelude.{
  ℕ, ◌≤◌, String, List, [], ◌∷◌, any_of, count_of, Option, some, Bool, false, ◌||◌, ◌&&◌, not, ◌≡◌,
  refl, ap, arith, ◌∙◌, Memᴰ, str_eq, str_eq_iff, inl, inr, ◌⊎◌, Bool-cases, if◌then◌else◌,
}
use nl_kat_coordination.Mula.Models.{NormalizerTask, Hasher}
use nl_kat_coordination.Mula.Database.{Db, Result, ok}
use nl_kat_coordination.Mula.Boefje.{Plugin}
use nl_kat_coordination.Mula.Normalizers.{
  RawData, has_raw_data_deschedule, has_raw_data_errors, set_normalizer, set_normalizers,
  find_normalizers, normalizer_tasks, process_raw_data, has_normalizer_permission_to_run,
}

abbrev pub is_of : String → Plugin → Bool
is_of i p = str_eq p.id i

any_of-set_normalizer :
    (i : String) (p : Plugin) (ps : List Plugin)
    → any_of (is_of i) (set_normalizer p ps) ≡ (is_of i p || any_of (is_of i) ps)
unfolding set_normalizer
any_of-set_normalizer i p [] = refl
any_of-set_normalizer i p (q ∷ qs) = ground (
  arith,
  any_of-set_normalizer i p qs,
  str_eq_iff q.id p.id,
  str_eq_iff q.id i,
  str_eq_iff p.id i,
)

count_of-set_normalizer :
    (i : String) (p : Plugin) (ps : List Plugin)
    → count_of (is_of i) (set_normalizer p ps)
      ≡ (if is_of i p && not (any_of (is_of i) ps) then 1 else count_of (is_of i) ps)
unfolding set_normalizer
count_of-set_normalizer i p [] = ground arith
count_of-set_normalizer i p (q ∷ qs) = ground (
  arith,
  count_of-set_normalizer i p qs,
  str_eq_iff q.id p.id,
  str_eq_iff q.id i,
  str_eq_iff p.id i,
)

mem-set_normalizer :
    (x p : Plugin) (ps : List Plugin) → Memᴰ x (set_normalizer p ps) → (x ≡ p) ⊎ Memᴰ x ps
unfolding set_normalizer
mem-set_normalizer x p [] (Memᴰ.head e) = inl e
mem-set_normalizer x p [] (Memᴰ.tail m) = elim m [ ]
mem-set_normalizer x p (q ∷ qs) m = elim (Bool-cases (str_eq q.id p.id)) [
  | inl k ↦ replaced (rw k at m)
  | inr k ↦ kept (mem-set_normalizer x p qs) (rw k at m)
]
  where
    replaced : Memᴰ x (p ∷ qs) → (x ≡ p) ⊎ Memᴰ x (q ∷ qs)
    replaced (Memᴰ.head e) = inl e
    replaced (Memᴰ.tail n) = inr (Memᴰ.tail n)

    later : (x ≡ p) ⊎ Memᴰ x qs → (x ≡ p) ⊎ Memᴰ x (q ∷ qs)
    later (inl e) = inl e
    later (inr n) = inr (Memᴰ.tail n)

    kept :
        (Memᴰ x (set_normalizer p qs) → (x ≡ p) ⊎ Memᴰ x qs)
        → Memᴰ x (q ∷ set_normalizer p qs)
        → (x ≡ p) ⊎ Memᴰ x (q ∷ qs)
    kept f (Memᴰ.head e) = inr (Memᴰ.head e)
    kept f (Memᴰ.tail n) = later (f n)

-- The dictionary has one normalizer under each id, and all agree on what is enabled.
record IsDictionary (enabled : String → Bool) (found : List Plugin) : Type 0 where
  unique : (i : String) → count_of (is_of i) found ≤ 1
  agrees : (p : Plugin) → Memᴰ p found → p.enabled ≡ enabled p.id

module _ (enabled : String → Bool) where
  set_normalizers-IsDictionary :
      (ps found : List Plugin)
      → ((p : Plugin) → Memᴰ p ps → p.enabled ≡ enabled p.id)
      → IsDictionary enabled found
      → IsDictionary enabled (set_normalizers ps found)
  unfolding set_normalizers
  set_normalizers-IsDictionary [] found f d = d
  set_normalizers-IsDictionary (p ∷ ps) found f d =
      set_normalizers-IsDictionary ps (set_normalizer p found) (λ q m. f q (Memᴰ.tail m))
        record {
          unique = λ i. ground (arith, count_of-set_normalizer i p found, d.unique i);
          agrees = λ q m. elim (mem-set_normalizer q p found m) [
            | inl e ↦ rw e (f p (Memᴰ.head refl))
            | inr n ↦ d.agrees q n
          ];
        }

  any_of-set_normalizers :
      (i : String) (ps found : List Plugin)
      → any_of (is_of i) (set_normalizers ps found)
        ≡ (any_of (is_of i) found || any_of (is_of i) ps)
  unfolding set_normalizers
  any_of-set_normalizers i [] found = ground arith
  any_of-set_normalizers i (p ∷ ps) found =
      ground (
        arith,
        any_of-set_normalizers i ps (set_normalizer p found),
        any_of-set_normalizer i p found,
      )

  module _ (h : Hasher) (normalizers : String → Option String → Result (List Plugin))
      (new_id : Plugin → ℕ) (organization : String) (catalogue : Option String → List Plugin) where
    abbrev Answers : List (Option String) → Type 0
    Answers ms =
        (m : Option String)
        → Memᴰ m ms
        → (normalizers organization m ≡ ok (catalogue m))
          × ((p : Plugin) → Memᴰ p (catalogue m) → p.enabled ≡ enabled p.id)

    find_normalizers-IsDictionary :
        (ms : List (Option String)) (found : List Plugin)
        → Answers ms
        → IsDictionary enabled found
        → (ps : List Plugin) × (find_normalizers h normalizers new_id organization ms found ≡ ok ps)
          × IsDictionary enabled ps
          × ((i : String)
              → any_of (is_of i) ps
                ≡ (any_of (is_of i) found || any_of (λ m. any_of (is_of i) (catalogue m)) ms))
    unfolding find_normalizers
    find_normalizers-IsDictionary [] found a d = (found, refl, d, λ i. ground arith)
    find_normalizers-IsDictionary (m ∷ ms) found a d =
        let (e, g) = a m (Memᴰ.head refl) in
        let next = set_normalizers (catalogue m) found in
        let (ps, k, d', f) =
          find_normalizers-IsDictionary ms next (λ n q. a n (Memᴰ.tail q))
            (set_normalizers-IsDictionary (catalogue m) found g d) in
        (ps, rw e k, d', λ i. ground (arith, f i, any_of-set_normalizers i (catalogue m) found))

    abbrev is_for : String → NormalizerTask → Bool
    is_for i t = str_eq t.normalizer_id i

    any_of-normalizer_tasks :
        (r : RawData) (i : String) (ps : List Plugin)
        → ((p : Plugin) → Memᴰ p ps → p.enabled ≡ enabled p.id)
        → any_of (is_for i) (normalizer_tasks h normalizers new_id r ps)
          ≡ (enabled i && any_of (is_of i) ps)
    unfolding normalizer_tasks has_normalizer_permission_to_run
    any_of-normalizer_tasks r i [] f = ground arith
    any_of-normalizer_tasks r i (p ∷ ps) f = ground (
      arith,
      any_of-normalizer_tasks r i ps (λ q m. f q (Memᴰ.tail m)),
      f p (Memᴰ.head refl),
      ap enabled,
      str_eq_iff p.id i,
    )

    count_of-normalizer_tasks :
        (r : RawData) (i : String) (ps : List Plugin)
        → count_of (is_for i) (normalizer_tasks h normalizers new_id r ps) ≤ count_of (is_of i) ps
    unfolding normalizer_tasks has_normalizer_permission_to_run
    count_of-normalizer_tasks r i [] = omega arith
    count_of-normalizer_tasks r i (p ∷ ps) = ground (arith, count_of-normalizer_tasks r i ps)

    -- Where the catalogue answers for each mime type of a raw file that is neither an error nor a
    -- request to deschedule, and agrees on which normalizers are enabled, process_raw_data changes no
    -- table and submits a task for exactly the enabled normalizers that it lists for one of the mime
    -- types, and one task for each.
    pub process_raw_data_iff :
        (r : RawData) (db : Db)
        → has_raw_data_deschedule r ≡ false
        → has_raw_data_errors r ≡ false
        → Answers r.mime_types
        → (tasks : List NormalizerTask) × (process_raw_data h normalizers new_id
              (some record { raw_data = r; organization = organization })
              db
            ≡ (ok tasks, db))
          × ((i : String)
              → (any_of (is_for i) tasks
                  ≡ (enabled i && any_of (λ m. any_of (is_of i) (catalogue m)) r.mime_types))
                × (count_of (is_for i) tasks ≤ 1))
    unfolding process_raw_data
    process_raw_data_iff r db n x a =
        let (ps, e, d, f) =
          find_normalizers-IsDictionary r.mime_types [] a
            record { unique = λ i. omega arith; agrees = λ p m. elim m [ ] } in
        (
          normalizer_tasks h normalizers new_id r ps,
          rw (n, x, e) refl,
          λ i. (
            any_of-normalizer_tasks r i ps d.agrees ∙ ap (λ z. enabled i && z) (f i),
            ground (arith, count_of-normalizer_tasks r i ps, d.unique i),
          ),
        )

-- ===== src/Mula/Scheduler/Waiting.antt =====
-- The wait for space on the queue.
use nl_kat_coordination.Prelude.{
  ℕ, zero, suc, ◌-◌, ◌≤◌, ◌<◌, Option, none, some, Bool, true, false, ltb, leb, ◌≡◌, ◌≢◌, ◌∙◌, sym,
  ap, refl, arith, inl, inr, ◌⊎◌, Bool-cases,
}
use mathlib.Core.Bool.{false≢true}
use nl_kat_coordination.Mula.Scheduler.{wait_for_space, gives_up}

module _ (space : ℕ → Bool) where
  -- The number of waits after which the loop ends: `m` at most, and fewer only if there is space.
  abbrev EndsBy : Option ℕ → ℕ → ℕ → ℕ → Type 0
  EndsBy limit m fuel tries =
      (t : ℕ) × (wait_for_space fuel space limit tries ≡ some t)
      × (t ≤ m)
      × ((t ≡ m) ⊎ (space t ≡ true))

  waits : (m fuel tries : ℕ) → tries ≤ m → m - tries < fuel → EndsBy (some m) m fuel tries
  unfolding wait_for_space
  waits m zero tries h k = elim k [ ]
  waits m (suc fuel) tries h k = elim (Bool-cases (space tries)) [
    | inl e ↦ (tries, rw e, h, inr e)
    | inr e ↦ elim (Bool-cases (ltb tries m)) [
      | inl more ↦ rw (e, more) (waits m fuel (suc tries) (ground arith) (ground arith))
      | inr last ↦ (tries, rw (e, last), h, inl (ground arith))
    ]
  ]

  waits_forever :
      (n fuel tries : ℕ)
      → space n ≡ true
      → tries ≤ n
      → n - tries < fuel
      → (t : ℕ) × (wait_for_space fuel space none tries ≡ some t) × (t ≤ n) × (space t ≡ true)
  unfolding wait_for_space
  waits_forever n zero tries s h k = elim k [ ]
  waits_forever n (suc fuel) tries s h k = elim (Bool-cases (space tries)) [
    | inl e ↦ (tries, rw e, h, e)
    | inr e ↦ rw e (waits_forever n fuel (suc tries) s (behind e) (ahead e))
  ]
    where
      differ : space tries ≡ false → tries ≢ n
      differ e same = false≢true (sym e ∙ ap space same ∙ s)

      behind : space tries ≡ false → suc tries ≤ n
      behind e = omega (arith, differ e)

      ahead : space tries ≡ false → n - suc tries < fuel
      ahead e = omega (arith, differ e)

-- Some check up to the `n`-th finds space, or none does.
free_or_full :
    (space : ℕ → Bool) (n : ℕ)
    → ((k : ℕ) × (k ≤ n) × (space k ≡ true)) ⊎ ((k : ℕ) → k ≤ n → space k ≡ false)
free_or_full space zero = elim (Bool-cases (space 0)) [
  | inl e ↦ inl (0, omega arith, e)
  | inr e ↦ inr (λ k h. ap space (omega (arith, h)) ∙ e)
]
free_or_full space (suc n) = elim (free_or_full space n) [
  | inl (k, h, e) ↦ inl (k, omega (arith, h), e)
  | inr f ↦ elim (Bool-cases (space (suc n))) [
    | inl e ↦ inl (suc n, omega arith, e)
    | inr e ↦ inr (λ k h. elim (Bool-cases (leb k n)) [
      | inl le ↦ f k (ground (arith, le))
      | inr gt ↦ ap space (ground (arith, gt, h)) ∙ e
    ])
  ]
]

-- With a maximum of `m` tries the loop ends after at most `m` waits, whatever the checks find, and the
-- push goes on only if the last check has found space. With no maximum, for every `n`, it ends within
-- `n` waits and with space found, or the checks up to the `n`-th have found none.
pub wait_for_space_ends :
    (space : ℕ → Bool) (m n : ℕ)
    → ((t : ℕ) × (wait_for_space (suc m) space (some m) 0 ≡ some t)
        × (t ≤ m)
        × ((gives_up (some m) t ≡ true) ⊎ (space t ≡ true)))
      × (((t : ℕ) × (wait_for_space (suc n) space none 0 ≡ some t)
            × (t ≤ n)
            × (gives_up none t ≡ false)
            × (space t ≡ true))
          ⊎ ((k : ℕ) → k ≤ n → space k ≡ false))
unfolding gives_up
wait_for_space_ends space m n =
    let (t, e, h, k) = waits space m (suc m) 0 (omega arith) (omega arith) in
    (
      (t, e, h, elim k [ inl same ↦ inl (ground (arith, same)) | inr free ↦ inr free ]),
      elim (free_or_full space n) [
        | inr full ↦ inr full
        | inl (c, b, s) ↦
            let (t', e', h', k') =
              waits_forever space c (suc n) 0 s (omega arith) (omega (arith, b)) in
            inl (t', e', omega (arith, h', b), refl, k')
      ],
    )

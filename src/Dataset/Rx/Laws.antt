-- ===== src/Dataset/Rx/Laws.antt =====
-- What the RandomX dataset's threads leave when they are done, and the state between two seeds.
use epic_miner.Common.{
  ℕ, ◌≡◌, refl, sym, subst, ◌∙◌, ◌≢◌, ◌⊎◌, inl, inr, arith, Option, none, some, ◌==◌, Bool-cases,
}
use epic_miner.Vector32.{V32, get_id}
use epic_miner.Dataset.{invalid_id}
use epic_miner.Dataset.Rx.{
  Phase, locked, cached, computed, RxDataset, rx_dataset, calculate_dataset, adjust_to_seed,
  acquire, init_cache, init_dataset, publish, Step, adjusts, acquires, caches, computes, publishes,
  reads, stops_reading, Reachable, starts, steps,
}

-- The running thread, or the last one, works for the seed that is stored.
abbrev Latest : Option Phase → ℕ → V32 → Option V32 → Option V32 → Type 0
Latest none ready seed ch ds = (ready ≡ get_id seed) × (ds ≡ some seed)
Latest (some locked) ready seed ch ds = Unit
Latest (some cached) ready seed ch ds = ch ≡ some seed
Latest (some computed) ready seed ch ds = ds ≡ some seed

abbrev IsSettling : RxDataset → Type 0
IsSettling d =
    (d.waiting ≢ 0) ⊎ ((d.loaded_id ≡ invalid_id) ⊎ Latest d.running d.ready_id d.seed d.ch d.ds)

abbrev IsNamed : RxDataset → Type 0
IsNamed d = (d.loaded_id ≡ invalid_id) ⊎ (d.loaded_id ≡ get_id d.seed)

abbrev IsSound : RxDataset → Type 0
IsSound d = IsSettling d × IsNamed d

-- A step that leaves the waiting threads and loaded_id as they are keeps what Latest keeps.
keep : {A B C D : Type 0} → (C → D) → A ⊎ (B ⊎ C) → A ⊎ (B ⊎ D)
keep f (inl a) = inl a
keep f (inr (inl b)) = inr (inl b)
keep f (inr (inr c)) = inr (inr (f c))

Step-IsSound : (d d' : RxDataset) → Step d d' → IsSound d → IsSound d'
unfolding adjust_to_seed calculate_dataset acquire init_cache init_dataset publish
Step-IsSound _ _ (adjusts d seed) (at, named) = elim (Bool-cases (d.loaded_id == get_id seed)) [
  | inl same ↦ rw (adjust_to_seed, same) (at, named)
  | inr new ↦ rw (adjust_to_seed, new) (inl (λ e. absurd (omega (arith, e))), inr refl)
]
Step-IsSound _ _ (acquires d others w r idle) (at, named) = (inr (inr tt), named)
Step-IsSound _ _ (caches d r) (at, named) = (inr (inr refl), named)
Step-IsSound _ _ (computes d r) (at, named) =
    (keep (λ latest. subst (λ x. Latest x d.ready_id d.seed d.ch d.ds) r latest) at, named)
Step-IsSound _ _ (publishes d r) (at, named) =
    (keep (λ latest. (refl, subst (λ x. Latest x d.ready_id d.seed d.ch d.ds) r latest)) at, named)
Step-IsSound _ _ (reads d r) (at, named) = (at, named)
Step-IsSound _ _ (stops_reading d) (at, named) = (at, named)

Reachable-IsSound : (memory : V32) (d : RxDataset) → Reachable memory d → IsSound d
unfolding rx_dataset
Reachable-IsSound memory _ starts = (inr (inl refl), inl refl)
Reachable-IsSound memory _ (steps d d' r s) = Step-IsSound d d' s (Reachable-IsSound memory d r)

-- In every state that the executor, the dataset threads and the miners reach, whichever thread the
-- lock was given to: once a dataset has been asked for and no thread waits or runs, the dataset is
-- that of the stored seed, whose id is in loaded_id and in ready_id.
pub Reachable-settled :
    (memory : V32) (d : RxDataset)
    → Reachable memory d
    → d.loaded_id ≢ invalid_id
    → d.waiting ≡ 0
    → d.running ≡ none
    → (d.ds ≡ some d.seed) × (d.loaded_id ≡ get_id d.seed) × (d.ready_id ≡ d.loaded_id)
Reachable-settled memory d r asked w idle =
    let (at, named) = Reachable-IsSound memory d r in
    elim at [
      | inl waits ↦ absurd (waits w)
      | inr (inl never) ↦ absurd (asked never)
      | inr (inr latest) ↦
          let (ready, ds) : (d.ready_id ≡ get_id d.seed) × (d.ds ≡ some d.seed) =
            subst (λ x. Latest x d.ready_id d.seed d.ch d.ds) idle latest in
          elim named [ inl never ↦ absurd (asked never) | inr id ↦ (ds, id, ready ∙ sym id) ]
    ]

adjust_to_seed_new :
    (d : RxDataset) (seed : V32)
    → d.loaded_id ≢ get_id seed
    → adjust_to_seed d seed ≡ calculate_dataset d seed
unfolding adjust_to_seed
adjust_to_seed_new d seed new = elim (Bool-cases (d.loaded_id == get_id seed)) [
  | inl same ↦ absurd (new (ground (arith, same)))
  | inr other ↦ rw (adjust_to_seed, other) refl
]

pub adjust_to_seed-loaded :
    (d : RxDataset) (seed : V32) → (adjust_to_seed d seed).loaded_id ≡ get_id seed
unfolding adjust_to_seed calculate_dataset
adjust_to_seed-loaded d seed = ground arith

asks :
    (memory : V32) (d : RxDataset) (seed : V32)
    → d.loaded_id ≢ get_id seed
    → Reachable memory d
    → Reachable memory (calculate_dataset d seed)
asks memory d seed new r =
    subst (Reachable memory) (adjust_to_seed_new d seed new) (steps d _ r (adjusts d seed))

-- For two seeds of different ids, neither the invalid one: a state is reached in which no thread
-- holds the lock, ready_id is the id of the second seed, and the dataset is that of the first. A
-- miner of the second seed's job then passes dataset_check_loop and gets the lock.
pub stale_dataset :
    (memory s1 s2 : V32)
    → invalid_id ≢ get_id s1
    → get_id s1 ≢ get_id s2
    → (d : RxDataset) × Reachable memory d
      × (d.running ≡ none)
      × (d.loaded_id ≡ get_id s2)
      × (d.ready_id ≡ get_id s2)
      × (d.ds ≡ some s1)
unfolding rx_dataset calculate_dataset acquire init_cache init_dataset publish
stale_dataset memory s1 s2 valid differ =
    let d1 = calculate_dataset (rx_dataset memory) s1 in
    let d2 = acquire d1 in
    let d3 = init_cache d2 in
    let d4 = calculate_dataset d3 s2 in
    let d5 = init_dataset d4 in
    let r1 = asks memory (rx_dataset memory) s1 valid starts in
    let r2 = steps d1 d2 r1 (acquires d1 0 refl refl refl) in
    let r3 = steps d2 d3 r2 (caches d2 refl) in
    let r4 = asks memory d3 s2 differ r3 in
    let r5 = steps d4 d5 r4 (computes d4 refl) in
    (publish d5, steps d5 (publish d5) r5 (publishes d5 refl), refl, refl, refl, refl)

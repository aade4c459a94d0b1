-- ===== src/Dataset/Pp/Overtaken.antt =====
-- Two dataset threads, of which the one that was started last is given the lock first.
use epic_miner.Common.{ℕ, ◌≡◌, refl, subst, ◌≢◌, [], ◌∷◌, arith, none, some}
use epic_miner.Dataset.{invalid_id}
use epic_miner.Dataset.Pp.{
  PpDataset, pp_dataset, calculate_dataset, adjust_to_block, acquire, create, publish, acquires,
  creates, publishes, Reachable, starts, adjusts, steps,
}

-- Two epochs that are asked for one after the other, neither of them the invalid id: if the thread of
-- the second is given the lock first, no thread is left in the end, loaded_id is the second epoch, and
-- the first is ready. A request for the second does nothing from then on.
pub overtaken_dataset :
    (f : ℕ → ℕ) (b1 b2 : ℕ)
    → f b1 ≢ f b2
    → f b1 ≢ invalid_id
    → (d : PpDataset) × Reachable f (f b2 ∷ f b1 ∷ []) d
      × (d.waiting ≡ [])
      × (d.running ≡ none)
      × (d.loaded_id ≡ f b2)
      × (d.ready_id ≡ f b1)
      × (d.dataset_ptr ≡ some (f b1))
      × (adjust_to_block f d b2 ≡ d)
unfolding adjust_to_block calculate_dataset acquire create publish
overtaken_dataset f b1 b2 differ valid =
    let first : PpDataset = record pp_dataset { loaded_id = f b1; waiting = f b1 ∷ [] } in
    let second : PpDataset = record pp_dataset { loaded_id = f b2; waiting = f b1 ∷ f b2 ∷ [] } in
    let is_first : adjust_to_block f pp_dataset b1 ≡ first = ground arith in
    let is_second : adjust_to_block f first b2 ≡ second = ground arith in
    let r1 : Reachable f (f b1 ∷ []) first =
      subst (λ d. Reachable f (f b1 ∷ []) d) is_first (adjusts [] pp_dataset b1 starts) in
    let r2 : Reachable f (f b2 ∷ f b1 ∷ []) second =
      subst (λ d. Reachable f (f b2 ∷ f b1 ∷ []) d) is_second (adjusts _ first b2 r1) in
    let a2 = acquire second (f b2) (f b1 ∷ []) in
    let c2 = create a2 (f b2) in
    let p2 = publish c2 (f b2) in
    let a1 = acquire p2 (f b1) [] in
    let c1 = create a1 (f b1) in
    let p1 = publish c1 (f b1) in
    let r3 = steps _ second a2 r2 (acquires second (f b2) (f b1 ∷ []) [] refl refl refl) in
    let r4 = steps _ a2 c2 r3 (creates a2 (f b2) refl) in
    let r5 = steps _ c2 p2 r4 (publishes c2 (f b2) refl) in
    let r6 = steps _ p2 a1 r5 (acquires p2 (f b1) [] [] refl refl refl) in
    let r7 = steps _ a1 c1 r6 (creates a1 (f b1) refl) in
    let r8 = steps _ c1 p1 r7 (publishes c1 (f b1) refl) in
    (p1, r8, refl, refl, refl, refl, refl, ground arith)

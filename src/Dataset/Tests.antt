-- ===== src/Dataset/Tests.antt =====
-- The theorems about the two datasets at short runs.
use epic_miner.Common.{ℕ, ◌/◌, ◌≡◌, ◌≢◌, refl, List, [], ◌∷◌, arith, none, some}
use epic_miner.Vector32.{V32, get_id, load_le}
use epic_miner.Dataset.{invalid_id}
use epic_miner.Dataset.Pp.{
  PpDataset, pp_dataset, adjust_to_block, calculate_dataset, acquire, create, publish, adjusts,
  acquires, creates, publishes, reads, Reachable, starts, steps,
}
use epic_miner.Dataset.Pp.Laws.{Asked, Reachable-ready}
use epic_miner.Dataset.Rx.{RxDataset}
use epic_miner.Dataset.Rx.Laws.{Reachable-settled, stale_dataset}
use epic_miner.Dataset.Rx

abbrev epoch : ℕ → ℕ
epoch block = block / 30_000

-- Block 60_000 is asked for, its dataset is made, and a miner takes the lock.
abbrev made : PpDataset
made = record pp_dataset { loaded_id = 2; ready_id = 2; dataset_ptr = some 2; readers = 1 }

made-Reachable : Reachable epoch (2 ∷ []) made
unfolding adjust_to_block calculate_dataset acquire create publish
made-Reachable =
    let d1 = adjust_to_block epoch pp_dataset 60_000 in
    let d2 = acquire d1 2 [] in
    let d3 = create d2 2 in
    let d4 = publish d3 2 in
    let r1 = adjusts [] pp_dataset 60_000 starts in
    let r2 = steps _ d1 d2 r1 (acquires d1 2 [] [] refl refl refl) in
    let r3 = steps _ d2 d3 r2 (creates d2 2 refl) in
    let r4 = steps _ d3 d4 r3 (publishes d3 2 refl) in steps _ d4 made r4 (reads d4 refl)

Reachable-ready_example :
    (made.readers ≢ 0 → made.ready_id ≢ invalid_id → made.dataset_ptr ≡ some made.ready_id)
    × (◌≢◌ {A = List ℕ} (2 ∷ []) []
        → made.waiting ≡ []
        → made.running ≡ none
        → Asked (2 ∷ []) made.ready_id
          × (made.ready_id ≢ invalid_id → made.dataset_ptr ≡ some made.ready_id))
Reachable-ready_example = Reachable-ready epoch (2 ∷ []) made made-Reachable

abbrev seed_of : ℕ → V32
seed_of b = record { bytes = b ∷ [] }

id1 : get_id (seed_of 1) ≡ 1
unfolding get_id load_le
id1 = refl

id2 : get_id (seed_of 2) ≡ 2
unfolding get_id load_le
id2 = refl

stale_dataset_example :
    (d : RxDataset) × Rx.Reachable (seed_of 0) d
    × (d.running ≡ none)
    × (d.loaded_id ≡ get_id (seed_of 2))
    × (d.ready_id ≡ get_id (seed_of 2))
    × (d.ds ≡ some (seed_of 1))
stale_dataset_example =
    stale_dataset (seed_of 0) (seed_of 1) (seed_of 2) (λ e. absurd (omega (arith, e, id1)))
      (λ e. absurd (omega (arith, e, id1, id2)))

abbrev rx_made : RxDataset
rx_made = record {
  loaded_id = 1;
  ready_id = 1;
  seed = seed_of 1;
  ch = some (seed_of 1);
  ds = some (seed_of 1);
  waiting = 0;
  running = none;
  readers = 0;
}

rx_made-Reachable : Rx.Reachable (seed_of 0) rx_made
unfolding Rx.rx_dataset Rx.adjust_to_seed Rx.calculate_dataset Rx.acquire Rx.init_cache
    Rx.init_dataset Rx.publish get_id load_le
rx_made-Reachable =
    let d0 = Rx.rx_dataset (seed_of 0) in
    let d1 = Rx.adjust_to_seed d0 (seed_of 1) in
    let d2 = Rx.acquire d1 in
    let d3 = Rx.init_cache d2 in
    let d4 = Rx.init_dataset d3 in
    let r1 = Rx.steps d0 d1 Rx.starts (Rx.adjusts d0 (seed_of 1)) in
    let r2 = Rx.steps d1 d2 r1 (Rx.acquires d1 0 refl refl refl) in
    let r3 = Rx.steps d2 d3 r2 (Rx.caches d2 refl) in
    let r4 = Rx.steps d3 d4 r3 (Rx.computes d3 refl) in
    Rx.steps d4 rx_made r4 (Rx.publishes d4 refl)

Reachable-settled_example :
    (rx_made.ds ≡ some rx_made.seed)
    × (rx_made.loaded_id ≡ get_id rx_made.seed)
    × (rx_made.ready_id ≡ rx_made.loaded_id)
Reachable-settled_example =
    Reachable-settled (seed_of 0) rx_made rx_made-Reachable (λ e. absurd (omega (arith, e))) refl
      refl

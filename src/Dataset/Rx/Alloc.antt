-- ===== src/Dataset/Rx/Alloc.antt =====
-- rx_dataset.hpp: the constructor's allocations, and the destructor. What randomx_alloc_dataset and
-- randomx_alloc_cache give for each of the two sets of flags is an argument; `none` is nullptr.
use epic_miner.Common.{ℕ, Bool, true, false, List, [], ◌∷◌, ◌++◌, Option, none, some, ◌≡◌, refl}

pub data Release : Type 0 where
  release_dataset : ℕ → Release
  release_cache : ℕ → Release

-- The two members, what was released, and whether both are there. Where randomx_alloc_dataset fails
-- the member `ch` is not written.
pub record Alloc : Type 0 where
  pub ds : Option ℕ
  pub ch : Option ℕ
  pub released : List Release
  pub done : Bool

pub try_alloc_dataset : Option ℕ → Option ℕ → Option ℕ → Alloc
try_alloc_dataset none cache memory = record { ds = none; ch = memory; released = []; done = false }
try_alloc_dataset (some d) none memory = record {
  ds = some d;
  ch = none;
  released = release_dataset d ∷ [];
  done = false;
}
try_alloc_dataset (some d) (some c) memory = record {
  ds = some d;
  ch = some c;
  released = [];
  done = true;
}

-- With large pages, then without; `done` is false where the program exits.
pub make_dataset : Option ℕ → Option ℕ → Option ℕ → Option ℕ → Option ℕ → Alloc
unfolding try_alloc_dataset
make_dataset large_ds large_ch small_ds small_ch memory =
    let large = try_alloc_dataset large_ds large_ch memory in
    let small = try_alloc_dataset small_ds small_ch large.ch in
    elim large.done [
      | true ↦ large
      | false ↦ record small { released = large.released ++ small.released }
    ]

abbrev release_of : Option ℕ → (ℕ → Release) → List Release
release_of none f = []
release_of (some ptr) f = f ptr ∷ []

-- The destructor; randomx releases no nullptr.
pub destroy_dataset : Alloc → List Release
destroy_dataset a = release_of a.ds release_dataset ++ release_of a.ch release_cache

-- What the two attempts allocate, in order; the second is made where the first fails.
abbrev allocations : Option ℕ → Option ℕ → List Release → List Release
allocations none ch later = later
allocations (some d) none later = release_dataset d ∷ later
allocations (some d) (some c) later = release_dataset d ∷ release_cache c ∷ []

-- Whatever randomx gives: what the constructor releases, and what the destructor releases where the
-- constructor has not ended the program, is each allocation once, in order.
make_dataset-balanced :
    (large_ds large_ch small_ds small_ch memory : Option ℕ)
    → let a = make_dataset large_ds large_ch small_ds small_ch memory in
      a.released ++ (elim a.done [ true ↦ destroy_dataset a | false ↦ [] ])
      ≡ allocations large_ds large_ch (allocations small_ds small_ch [])
unfolding make_dataset try_alloc_dataset destroy_dataset
make_dataset-balanced none large_ch none small_ch memory = refl
make_dataset-balanced none large_ch (some d) none memory = refl
make_dataset-balanced none large_ch (some d) (some c) memory = refl
make_dataset-balanced (some d) none none small_ch memory = refl
make_dataset-balanced (some d) none (some e) none memory = refl
make_dataset-balanced (some d) none (some e) (some c) memory = refl
make_dataset-balanced (some d) (some c) small_ds small_ch memory = refl

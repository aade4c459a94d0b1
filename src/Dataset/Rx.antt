-- ===== src/Dataset/Rx.antt =====
-- rx_dataset.*: adjust_to_seed, calculate_dataset and dataset_thd_main. The threads are not given the
-- seed: they read the member `seed`, once for the cache and again for ready_id. randomx's cache and
-- dataset are given by the seed that they are computed from; `waiting` counts the threads at the
-- lock; calculate_dataset's four writes are one step.
pub mod Laws
pub mod Alloc
use epic_miner.Common.{
  ℕ, suc, ◌+◌, ◌-◌, ◌≡◌, List, [], ◌∷◌, ◌++◌, Option, none, some, ◌==◌, if◌then◌else◌,
}
use epic_miner.Vector32.{V32, get_id}
use epic_miner.Dataset.{invalid_id}

-- Where the thread that holds mtx is: before randomx_init_cache, after it, and after the threads of
-- calculate_thd have ended.
pub data Phase : Type 0 where
  locked cached computed : Phase

-- `ch` and `ds` are the seeds of the cache and of the dataset.
pub record RxDataset : Type 0 where
  pub loaded_id : ℕ
  pub ready_id : ℕ
  pub seed : V32
  pub ch : Option V32
  pub ds : Option V32
  pub waiting : ℕ
  pub running : Option Phase
  pub readers : ℕ

-- rx_dataset(), where its allocations succeed; `seed` is what was in memory.
unfoldable pub rx_dataset : V32 → RxDataset
rx_dataset memory = record {
  loaded_id = invalid_id;
  ready_id = invalid_id;
  seed = memory;
  ch = none;
  ds = none;
  waiting = 0;
  running = none;
  readers = 0;
}

unfoldable pub calculate_dataset : RxDataset → V32 → RxDataset
calculate_dataset d seed = record d {
  loaded_id = get_id seed;
  ready_id = invalid_id;
  seed = seed;
  waiting = suc d.waiting;
}

unfoldable pub adjust_to_seed : RxDataset → V32 → RxDataset
unfolding calculate_dataset
adjust_to_seed d seed = if d.loaded_id == get_id seed then d else calculate_dataset d seed

unfoldable pub acquire : RxDataset → RxDataset
acquire d = record d { waiting = d.waiting - 1; running = some locked }

unfoldable pub init_cache : RxDataset → RxDataset
init_cache d = record d { running = some cached; ch = some d.seed }

unfoldable pub init_dataset : RxDataset → RxDataset
init_dataset d = record d { running = some computed; ds = d.ch }

unfoldable pub publish : RxDataset → RxDataset
publish d = record d { running = none; ready_id = get_id d.seed }

-- One step of the executor, of a dataset thread (any that waits may get the lock) or of a miner.
pub data Step : RxDataset → RxDataset → Type 0 where
  adjusts : (d : RxDataset) (seed : V32) → Step d (adjust_to_seed d seed)
  acquires :
      (d : RxDataset) (others : ℕ)
      → d.waiting ≡ suc others
      → d.running ≡ none
      → d.readers ≡ 0
      → Step d (acquire d)
  caches : (d : RxDataset) → d.running ≡ some locked → Step d (init_cache d)
  computes : (d : RxDataset) → d.running ≡ some cached → Step d (init_dataset d)
  publishes : (d : RxDataset) → d.running ≡ some computed → Step d (publish d)
  reads : (d : RxDataset) → d.running ≡ none → Step d (record d { readers = suc d.readers })
  stops_reading : (d : RxDataset) → Step d (record d { readers = d.readers - 1 })

pub data Reachable (memory : V32) : RxDataset → Type 0 where
  starts : Reachable memory (rx_dataset memory)
  steps : (d d' : RxDataset) → Reachable memory d → Step d d' → Reachable memory d'

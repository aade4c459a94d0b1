-- ===== src/Dataset/Pp.antt =====
-- pp_dataset.*: adjust_to_block, calculate_dataset and dataset_thd_main, and how a miner uses the
-- dataset. `waiting` are the epochs of the threads that are at the lock, in the order of their start; `running` is the
-- thread that holds mtx; `readers` counts the miners that hold it shared. The epoch of a block and
-- the epoch's context are ethash's: the context is given by its epoch.
pub mod Laws
pub mod Overtaken
use epic_miner.Common.{
  ℕ, suc, ◌-◌, ◌≡◌, ◌≢◌, List, [], ◌∷◌, ◌++◌, Option, none, some, ◌==◌, if◌then◌else◌,
}
use epic_miner.Dataset.{invalid_id}

-- Where dataset_thd_main is: before the context is created, and after.
pub data Phase : Type 0 where
  locked created : ℕ → Phase

pub record PpDataset : Type 0 where
  pub loaded_id : ℕ
  pub ready_id : ℕ
  pub dataset_ptr : Option ℕ
  pub waiting : List ℕ
  pub running : Option Phase
  pub readers : ℕ

-- pp_dataset()
abbrev pub pp_dataset : PpDataset
pp_dataset = record {
  loaded_id = invalid_id;
  ready_id = invalid_id;
  dataset_ptr = none;
  waiting = [];
  running = none;
  readers = 0;
}

unfoldable pub calculate_dataset : PpDataset → ℕ → PpDataset
calculate_dataset d epoch_num = record d {
  loaded_id = epoch_num;
  ready_id = invalid_id;
  waiting = d.waiting ++ epoch_num ∷ [];
}

-- With ethash::get_epoch_number.
unfoldable pub adjust_to_block : (ℕ → ℕ) → PpDataset → ℕ → PpDataset
unfolding calculate_dataset
adjust_to_block get_epoch_number d block_number =
    let epoch_num = get_epoch_number block_number in
    if d.loaded_id == epoch_num then d else calculate_dataset d epoch_num

-- dataset_thd_main from the lock on: the old context is destroyed, the new one created, the id set.
unfoldable pub acquire : PpDataset → ℕ → List ℕ → PpDataset
acquire d epoch_num others = record d {
  waiting = others;
  running = some (locked epoch_num);
  dataset_ptr = none;
}

unfoldable pub create : PpDataset → ℕ → PpDataset
create d epoch_num = record d { running = some (created epoch_num); dataset_ptr = some epoch_num }

unfoldable pub publish : PpDataset → ℕ → PpDataset
publish d epoch_num = record d { running = none; ready_id = epoch_num }

-- One step of a dataset thread or of a miner. The lock is given to any of the waiting threads: a
-- std::shared_timed_mutex promises no order.
pub data Step : PpDataset → PpDataset → Type 0 where
  acquires :
      (d : PpDataset) (e : ℕ) (before others : List ℕ)
      → d.waiting ≡ before ++ e ∷ others
      → d.running ≡ none
      → d.readers ≡ 0
      → Step d (acquire d e (before ++ others))
  creates : (d : PpDataset) (e : ℕ) → d.running ≡ some (locked e) → Step d (create d e)
  publishes : (d : PpDataset) (e : ℕ) → d.running ≡ some (created e) → Step d (publish d e)
  reads : (d : PpDataset) → d.running ≡ none → Step d (record d { readers = suc d.readers })
  stops_reading : (d : PpDataset) → Step d (record d { readers = d.readers - 1 })

-- The states that are reached, with the epochs that the executor has asked for, the last one first.
pub data Reachable (get_epoch_number : ℕ → ℕ) : List ℕ → PpDataset → Type 0 where
  starts : Reachable get_epoch_number [] pp_dataset
  adjusts :
      (asked : List ℕ) (d : PpDataset) (block_number : ℕ)
      → Reachable get_epoch_number asked d
      → Reachable get_epoch_number
          (get_epoch_number block_number ∷ asked)
          (adjust_to_block get_epoch_number d block_number)
  steps :
      (asked : List ℕ) (d d' : PpDataset)
      → Reachable get_epoch_number asked d
      → Step d d'
      → Reachable get_epoch_number asked d'

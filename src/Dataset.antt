-- ===== src/Dataset.antt =====
-- dataset.hpp, rx_dataset.*, pp_dataset.*: the two datasets, which one thread computes while miners
-- wait, as transition systems on the members that the threads share.
pub mod Work
pub mod Rx
pub mod Pp
mod Tests
use epic_miner.Common.{ℕ, ◌-◌, ◌^◌}

-- dataset::invalid_id
abbrev pub invalid_id : ℕ
invalid_id = 2 ^ 64 - 1

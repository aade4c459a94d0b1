-- ===== src/Miner/Record.antt =====
-- miner.hpp: hash_rec, the members of a miner that the executor reads, and record_hashes.
mod Tests
use epic_miner.Common.{ℕ, Bool, false, List, if◌then◌else◌}
use epic_miner.Common.Int.{ℤ, pos, ◌-ℤ◌}
use epic_miner.Job.{MinerType}
use epic_miner.Misc.RingBuffer.{RingBuffer, insert, fill, fresh}

-- A negative time says that the miner was idle.
pub record HashRec : Type 0 where
  pub time : ℤ
  pub hashes : ℤ

-- hashlog_t
abbrev pub hashlog_size : ℕ
hashlog_size = 8192

pub record Miner : Type 0 where
  pub thd_id : ℕ
  pub kind : MinerType
  pub is_hashing : Bool
  pub hash_count : ℕ
  pub hash_log : RingBuffer HashRec

-- The constructor; `memory` is what the log's slots held.
unfoldable pub new_miner : ℕ → MinerType → List HashRec → Miner
new_miner thd_id kind memory = record {
  thd_id = thd_id;
  kind = kind;
  is_hashing = false;
  hash_count = 0;
  hash_log = fill hashlog_size (record { time = pos 0; hashes = pos 0 }) (fresh memory);
}

pub record_hashes : ℕ → Miner → Miner
record_hashes time_now m =
    let time = if m.is_hashing then pos time_now else pos 0 -ℤ pos time_now in
    record m {
      hash_log = insert hashlog_size (record { time = time; hashes = pos m.hash_count }) m.hash_log;
    }

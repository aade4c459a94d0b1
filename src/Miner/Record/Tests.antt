-- ===== src/Miner/Record/Tests.antt =====
-- A record of an idle miner has a negative time.
use epic_miner.Common.{◌≡◌, refl, false, []}
use epic_miner.Common.Int.{pos, negsuc, ◌-ℤ◌}
use epic_miner.Job.{randomx_cpu_miner}
use epic_miner.Misc.RingBuffer.{insert}
use epic_miner.Miner.Record.{Miner, record_hashes, hashlog_size}

abbrev idle_miner : Miner
idle_miner = record {
  thd_id = 0;
  kind = randomx_cpu_miner;
  is_hashing = false;
  hash_count = 3;
  hash_log = record { pos = 0; slots = [] };
}

idle_runs :
    (record_hashes 50 idle_miner).hash_log
    ≡ insert hashlog_size (record { time = negsuc 49; hashes = pos 3 }) idle_miner.hash_log
unfolding record_hashes ◌-ℤ◌
idle_runs = refl

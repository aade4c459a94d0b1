-- ===== src/Job/Tests.antt =====
-- Runs of the names and flags of job.hpp.
use epic_miner.Common.{◌≡◌, refl, true, [], codes}
use epic_miner.Job.{PowType, is_active, randomx_cpu_miner, miner_type_to_str, pow_type_to_str}

names_run : miner_type_to_str randomx_cpu_miner ≡ codes "RandomX CPU"
unfolding miner_type_to_str
names_run = refl

pow_names_run : pow_type_to_str PowType.progpow ≡ codes "progpow"
unfolding pow_type_to_str
pow_names_run = refl

active_runs :
    is_active (record {
      id = [];
      blob = [];
      randomx_seed = record { bytes = [] };
      height = 1;
      blob_len = 76;
      nonce_pos = 72;
      target = 1;
      nonce = 0;
      pow = PowType.randomx;
    })
    ≡ true
unfolding is_active
active_runs = refl

-- ===== src/Job.antt =====
-- job.hpp: the jobs of the pool and of the miners, and the results. dataset.hpp's objects are named,
-- not copied: a job points at one of the executor's two datasets. `std::atomic` members are plain
-- fields, read and written by the steps of the modules that share them.
mod Tests
use epic_miner.Common.{ℕ, ◌-◌, ◌^◌, Bool, List, [], ◌∷◌, Option, none, some, ltb, codes}
use epic_miner.Vector32.{V32}

pub data PowType : Type 0 where
  idle randomx progpow cuckoo : PowType

unfoldable pub pow_type_to_str : PowType → List ℕ
pow_type_to_str PowType.randomx = codes "randomx"
pow_type_to_str PowType.progpow = codes "progpow"
pow_type_to_str PowType.cuckoo = codes "cuckoo"
pow_type_to_str PowType.idle = codes "idle"

pub data MinerType : Type 0 where
  randomx_cpu_miner progpow_cpu_miner progpow_gpu_miner : MinerType

abbrev pub all_miner_types : List MinerType
all_miner_types = randomx_cpu_miner ∷ progpow_cpu_miner ∷ progpow_gpu_miner ∷ []

pub miner_type_to_str : MinerType → List ℕ
miner_type_to_str randomx_cpu_miner = codes "RandomX CPU"
miner_type_to_str progpow_cpu_miner = codes "ProgPow CPU"
miner_type_to_str progpow_gpu_miner = codes "ProgPow GPU"

-- sizeof(jobid::data) and sizeof(pool_job::blob)
abbrev pub jobid_size : ℕ
jobid_size = 64

abbrev pub blob_size : ℕ
blob_size = 512

-- `id` holds the 64 bytes of jobid::data, `blob` the 512 of the header.
pub record PoolJob : Type 0 where
  pub id : List ℕ
  pub blob : List ℕ
  pub randomx_seed : V32
  pub height : ℕ
  pub blob_len : ℕ
  pub nonce_pos : ℕ
  pub target : ℕ
  pub nonce : ℕ
  pub pow : PowType

unfoldable pub reset : PoolJob → PoolJob
reset job = record job { nonce = 0; blob_len = 0 }

pub is_active : PoolJob → Bool
is_active job = ltb 0 job.blob_len

-- Which of the executor's datasets a `dataset*` points at.
pub data DatasetRef : Type 0 where
  randomx_dataset progpow_dataset : DatasetRef

-- `nonce` is a pointer to the counter in a pool's job, given by the pool's id; `ds` may be nullptr.
pub record MinerJob : Type 0 where
  pub id : List ℕ
  pub blob : List ℕ
  pub blob_len : ℕ
  pub nonce_pos : ℕ
  pub target : ℕ
  pub ds : Option DatasetRef
  pub dataset_id : ℕ
  pub height : ℕ
  pub nonce : Option ℕ
  pub pow : PowType

-- miner_job(): the fields that it does not set keep what is in memory.
unfoldable pub idle_miner_job : MinerJob → MinerJob
idle_miner_job memory = record memory { pow = PowType.idle; nonce = none; blob_len = 0; target = 0 }

-- miner_job(pool_job&, dataset*, uint64_t), for the job of pool `pool_id`.
unfoldable pub miner_job : PoolJob → ℕ → Option DatasetRef → ℕ → MinerJob
miner_job job pool_id ds dataset_id = record {
  id = job.id;
  blob = job.blob;
  blob_len = job.blob_len;
  nonce_pos = job.nonce_pos;
  target = job.target;
  ds = ds;
  dataset_id = dataset_id;
  height = job.height;
  nonce = some pool_id;
  pow = job.pow;
}

abbrev pub invalid_miner_id : ℕ
invalid_miner_id = 2 ^ 32 - 1

pub record MinerResult : Type 0 where
  pub id : List ℕ
  pub nonce : ℕ
  pub res_hash : V32
  pub miner_id : ℕ

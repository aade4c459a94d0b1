-- ===== src/Pool/Fill.antt =====
-- pool.cpp: process_pool_job up to its last statement, as a chain of stages over my_job. A stage that
-- fails leaves the job as far as it was filled, and the text for protocol_error.
pub mod Laws
pub mod Fields
pub mod Samples
mod Tests
use epic_miner.Common.{
  ℕ, zero, suc, ◌+◌, ◌-◌, ◌*◌, ◌/◌, ◌%◌, ◌^◌, Bool, true, false, ◌&&◌, ◌||◌, not, List, [], ◌∷◌,
  ◌++◌, Option, none, some, ltb, leb, ◌==◌, if◌then◌else◌, length, drop, codes, c_str, strcmp_eq,
}
use epic_miner.Json.{Value, Members, as_string, as_uint, get_object_member}
use epic_miner.Misc.Hex.{hex2bin}
use epic_miner.Vector32.{V32, load_le}
use epic_miner.Job.{PowType, PoolJob, reset, jobid_size, blob_size}

-- The members that the request needs, with the types that are checked first.
pub record JobParams : Type 0 where
  pub jobid : List ℕ
  pub blob : List ℕ
  pub target : List ℕ
  pub pow_algo : List ℕ
  pub seed_hash : Value
  pub height : ℕ

infixl 5 ◌>>=◌
abbrev ◌>>=◌ {ℓ κ} : {A : Type ℓ} {B : Type κ} → Option A → (A → Option B) → Option B
none >>= f = none
some a >>= f = f a

-- `none` is "PARSE error: Job error 1".
unfoldable pub read_params : Members → Option JobParams
read_params param = do
  jobid ← get_object_member param (codes "job_id")
  blob ← get_object_member param (codes "blob")
  target ← get_object_member param (codes "target")
  pow_algo ← get_object_member param (codes "pow_algo")
  height ← get_object_member param (codes "height")
  seed_hash ← get_object_member param (codes "seed_hash")
  jobid_s ← as_string jobid
  blob_s ← as_string blob
  target_s ← as_string target
  pow_algo_s ← as_string pow_algo
  height_n ← as_uint height
  some (record {
    jobid = jobid_s;
    blob = blob_s;
    target = target_s;
    pow_algo = pow_algo_s;
    seed_hash = seed_hash;
    height = height_n;
  })

pub data Filled : Type 0 where
  filled : PoolJob → Filled
  rejected : List ℕ → PoolJob → Filled

abbrev pub and_then : Filled → (PoolJob → Filled) → Filled
and_then (filled job) f = f job
and_then (rejected err job) f = rejected err job

pub set_pow : List ℕ → PoolJob → Filled
set_pow pow_algo job =
    if strcmp_eq pow_algo (codes "randomx")
    then filled (record job { pow = PowType.randomx })
    else if strcmp_eq pow_algo (codes "progpow")
    then filled (record job { pow = PowType.progpow })
    else if strcmp_eq pow_algo (codes "cuckoo")
    then filled (record job { pow = PowType.cuckoo })
    else rejected (codes "Unknown algorithm: " ++ c_str pow_algo) job

-- memcpy of the text and its terminating NUL.
pub set_id : List ℕ → PoolJob → Filled
set_id jobid job =
    if leb jobid_size (length jobid)
    then rejected (codes "PARSE error: Job error 3") job
    else filled (record job { id = jobid ++ 0 ∷ drop (length jobid + 1) job.id })

-- uint32_t work_len
pub work_len : List ℕ → ℕ
work_len blob = length blob / 2 % 2 ^ 32

pub set_blob : List ℕ → PoolJob → Filled
unfolding work_len
set_blob blob job =
    if ltb blob_size (work_len blob)
    then rejected (codes "PARSE error: Invalid job length.") job
    else let (done, out) = hex2bin blob (work_len blob * 2) job.blob in
      if done
      then filled (record job { blob = out })
      else rejected (codes "PARSE error: Job error 4") (record job { blob = out })

-- The bytes of a uint32_t in memory.
unfoldable pub store_le : ℕ → ℕ → List ℕ
store_le zero x = []
store_le (suc n) x = x % 256 ∷ store_le n (x / 256)

pub set_target : List ℕ → PoolJob → Filled
unfolding store_le
set_target target job =
    if ltb 8 (length target)
    then rejected (codes "PARSE error: Invalid target len") job
    else let (done, out) =
        hex2bin (target ++ drop (length target) (codes "00000000")) 8 (store_le 4 job.target) in
      let read = load_le 4 0 out in
      if not done || read == 0
      then rejected (codes "PARSE error: Invalid target") (record job { target = read })
      else filled (record job { target = read })

pub set_seed_text : List ℕ → PoolJob → Filled
set_seed_text seed_hash job =
    if not (length seed_hash == 64)
    then rejected (codes "PARSE error: Invalid seed_hash") job
    else let (done, out) = hex2bin seed_hash (length seed_hash) job.randomx_seed.bytes in
      let job' = record job { randomx_seed = record { bytes = out } } in
      if done then filled job' else rejected (codes "PARSE error: Invalid seed_hash") job'

pub set_seed : Value → PoolJob → Filled
unfolding set_seed_text
set_seed seed_hash job = elim (as_string seed_hash) [
  | none ↦ rejected (codes "PARSE error: Invalid seed_hash") job
  | some text ↦ set_seed_text text job
]

-- The last assignments; nonce_pos is uint32_t, and wraps.
pub start : ℕ → ℕ → PoolJob → PoolJob
start height len job = record job {
  height = height;
  nonce_pos = (len + 2 ^ 32 - 4) % 2 ^ 32;
  blob_len = len;
  nonce = 0;
}

pub fill_job : JobParams → PoolJob → Filled
unfolding work_len
fill_job p my_job = and_then (set_pow p.pow_algo (reset my_job)) λ job1.
    and_then (set_id p.jobid job1) λ job2. and_then (set_blob p.blob job2) λ job3.
      and_then (set_target p.target job3) λ job4.
        and_then (set_seed p.seed_hash job4) λ job5. filled (start p.height (work_len p.blob) job5)

-- ===== src/Miner/Loop.antt =====
-- rx_miner.cpp, pp_miner.cpp and miner.cpp: the hashing loops. The hash functions (randomx, keccak and
-- progpow) are parameters. `counter` is the nonce counter of the pool's job as a turn finds it: other
-- miners move it on between the turns.
pub mod Shares
pub mod Search
mod Tests
use epic_miner.Common.{
  ℕ, zero, suc, ◌+◌, ◌-◌, ◌*◌, ◌/◌, ◌%◌, ◌^◌, bit_or, Bool, true, false, ◌&&◌, not, List, [], ◌∷◌,
  ◌++◌, Option, none, some, ltb, leb, ◌==◌, if◌then◌else◌, length, take, drop,
}
use epic_miner.Vector32.{V32, load_le, bswap, get_work32}
use epic_miner.Job.{PowType, MinerJob, MinerResult, blob_size}
use epic_miner.Pool.Fill.{store_le}
use epic_miner.Miner.Nonces.{Turn, next_nonce}

-- What a loop changes: the miner's copy of the job, the nonce of the ProgPow loop, and what it shares
-- with the executor. `found` is result_q with what was already taken from it: the newest last.
pub record Worker : Type 0 where
  pub thd_id : ℕ
  pub job : MinerJob
  pub nonce_ctr : ℕ
  pub found : List MinerResult
  pub hash_count : ℕ
  pub is_hashing : Bool

-- A write of four bytes at `pos`.
pub put_nonce : List ℕ → ℕ → ℕ → List ℕ
unfolding store_le
put_nonce blob pos nonce = take pos blob ++ (store_le 4 nonce ++ drop (pos + 4) blob)

-- hash_count is an int64_t, far from its end.
pub record_hash : ℕ → ℕ → V32 → Worker → Worker
record_hash target nonce hash w =
    let w' = record w { hash_count = w.hash_count + 1 } in
    if ltb (get_work32 hash) target
    then record w' {
      found =
          w.found
          ++ record { id = w.job.id; nonce = nonce; res_hash = hash; miner_id = w.thd_id } ∷ [];
    }
    else w'

-- randomx_loop: *nonce_ptr = 0 before the loop. `none` is a write outside of the blob.
pub rx_begin : Worker → Option Worker
unfolding put_nonce
rx_begin w =
    let job = w.job in
    if leb (job.nonce_pos + 4) blob_size
    then some (record w {
      job = record job { blob = put_nonce job.blob job.nonce_pos 0 };
      is_hashing = true;
    })
    else none

module _ (calculate_hash : List ℕ → V32) where
  -- One turn of randomx_loop: the counter and the miner afterwards.
  pub rx_turn : ℕ → Worker → ℕ × Worker
  unfolding record_hash put_nonce
  rx_turn counter w =
      let job = w.job in
      let t = next_nonce (record { counter = counter; nonce = load_le 4 job.nonce_pos job.blob }) in
      let blob = put_nonce job.blob job.nonce_pos t.nonce in
      (
        t.counter,
        record_hash job.target t.nonce (calculate_hash (take job.blob_len blob))
            (record w { job = record job { blob = blob } }),
      )

-- What progpow_loop computes before it loops.
pub record Header : Type 0 where
  pub nonce_base : ℕ
  pub header_hash : List ℕ

module _ (keccak256 : List ℕ → List ℕ) where
  -- `blob_len - sizeof(uint64_t)` wraps below eight; `none` is a read outside of the blob.
  pub pp_begin : Worker → Option (Header × Worker)
  pp_begin w =
      let job = w.job in
      if leb 4 job.nonce_pos
        && (leb job.nonce_pos blob_size && (leb 8 job.blob_len && leb job.blob_len blob_size))
      then some (
        record {
          nonce_base = load_le 4 (job.nonce_pos - 4) job.blob * 2 ^ 32;
          header_hash = keccak256 (take (job.blob_len - 8) job.blob);
        },
        record w { nonce_ctr = 0; is_hashing = true },
      )
      else none

module _ (progpow_hash : ℕ → List ℕ → ℕ → V32) where
  pub pp_turn : Header → ℕ → Worker → ℕ × Worker
  unfolding record_hash
  pp_turn h counter w =
      let job = w.job in
      let t = next_nonce (record { counter = counter; nonce = w.nonce_ctr }) in
      (
        t.counter,
        record_hash job.target t.nonce
            (progpow_hash job.height h.header_hash (bit_or h.nonce_base t.nonce))
            (record w { nonce_ctr = t.nonce }),
      )

-- The loops go on while the current job is the one they began with; then is_hashing is cleared.
pub end_loop : Worker → Worker
end_loop w = record w { is_hashing = false }

-- What a miner sees each time it looks: the dataset's ready_id, and the executor's current job.
pub record Look : Type 0 where
  pub ready_id : ℕ
  pub current_job : ℕ

-- A turn of thread_main: the miner's loop over the job that it has copied, or idle_loop.
pub data MainTurn : Type 0 where
  hashes idles : MinerJob → MainTurn

abbrev pub same_pow : PowType → PowType → Bool
same_pow PowType.idle PowType.idle = true
same_pow PowType.randomx PowType.randomx = true
same_pow PowType.progpow PowType.progpow = true
same_pow PowType.cuckoo PowType.cuckoo = true
same_pow _ _ = false

-- thread_main of the miner for `own`, over what it sees of `run` and of the executor's current job at
-- the start of each turn; it ends where `run` is false.
pub thread_main : PowType → List (Bool × MinerJob) → List MainTurn
thread_main own [] = []
thread_main own ((run, job) ∷ looks) =
    let later = thread_main own looks in
    if run then (if same_pow job.pow own then hashes job else idles job) ∷ later else []

-- dataset_check_loop over what it sees; `none` is a loop that has not ended.
pub dataset_check_loop : ℕ → ℕ → List Look → Option Bool
dataset_check_loop dataset_id last_job [] = none
dataset_check_loop dataset_id last_job (l ∷ looks) =
    let later = dataset_check_loop dataset_id last_job looks in
    if l.ready_id == dataset_id
    then some true
    else if not (l.current_job == last_job)
    then some false
    else later

-- idle_loop: whether it has ended.
pub idle_loop : ℕ → List Look → Bool
idle_loop last_job [] = false
idle_loop last_job (l ∷ looks) =
    let later = idle_loop last_job looks in if l.current_job == last_job then later else true

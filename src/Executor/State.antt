-- ===== src/Executor/State.antt =====
-- executor.hpp and executor.cpp: the executor's members, and what it does on a new job, a lost
-- connection, a reply to a share and the timer. Printing is left out; the clocks are arguments, and
-- what is asked of a pool is a list of its actions.
pub mod Laws
pub mod Replies
use epic_miner.Common.{
  ℕ, zero, suc, ◌+◌, ◌-◌, ◌/◌, ◌%◌, ◌^◌, Bool, true, false, ◌&&◌, not, List, [], ◌∷◌, ◌++◌, Option,
  none, some, ltb, ◌==◌, if◌then◌else◌, map, length, get_elem?,
}
use epic_miner.Job.{PowType, MinerType, PoolJob, DatasetRef, MinerJob, idle_miner_job, miner_job}
use epic_miner.Vector32.{get_id}
use epic_miner.Dataset.Rx.{RxDataset, adjust_to_seed}
use epic_miner.Dataset.Pp.{PpDataset, adjust_to_block}
use epic_miner.Miner.Record.{Miner, record_hashes}
use epic_miner.Pool.State.{
  Pool, PoolState, idle, connecting, connected, has_job, Action, Reaction, check_call_timeouts,
  do_connect,
}
use epic_miner.Executor.Errors.{ErrorLog, log_error, SessionCounters, reset}

-- `miner_jobs` is the list with its front first; `current_job` points into it, by the place counted
-- from the back, which emplace_front does not change.
pub record Executor : Type 0 where
  pub pool_ctr : SessionCounters
  pub error_log : ErrorLog
  pub pools : List Pool
  pub randomx_dataset : RxDataset
  pub progpow_dataset : PpDataset
  pub miners : List Miner
  pub miner_jobs : List MinerJob
  pub current_job : ℕ

-- What a pointer into the list points at.
unfoldable pub job_at : List MinerJob → ℕ → Option MinerJob
job_at [] k = none
job_at (job ∷ older) k = let rest = job_at older k in if k == length older then some job else rest

unfoldable pub record_miner_hashes : ℕ → Executor → Executor
record_miner_hashes time_now ex = record ex { miners = map (record_hashes time_now) ex.miners }

-- emplace_front, and current_job set to the front.
unfoldable pub push_job : MinerJob → Executor → Executor
push_job job ex = record ex { miner_jobs = job ∷ ex.miner_jobs; current_job = length ex.miner_jobs }

-- `memory` is what the new job's memory held.
unfoldable pub push_idle_job : ℕ → MinerJob → Executor → Executor
unfolding record_miner_hashes push_job
push_idle_job time_now memory ex =
    push_job (idle_miner_job memory) (record (record_miner_hashes time_now ex) { pool_ctr = reset })

-- The job that the miners are given: its dataset, and the id they wait for.
pub job_for : (ℕ → ℕ) → ℕ → PoolJob → MinerJob
job_for get_epoch_number pool_id job = elim job.pow [
  | PowType.randomx ↦
      miner_job job pool_id (some DatasetRef.randomx_dataset) (get_id job.randomx_seed)
  | PowType.progpow ↦
      miner_job job pool_id (some DatasetRef.progpow_dataset) (get_epoch_number job.height)
  | _ ↦ miner_job job pool_id none 0
]

-- session_timestamp is set by the first job of a session.
pub begin_session : ℕ → SessionCounters → SessionCounters
begin_session now ctr =
    if ctr.session_timestamp == 0 then record ctr { session_timestamp = now } else ctr

unfoldable pub new_job : (ℕ → ℕ) → ℕ → ℕ → ℕ → PoolJob → Executor → Executor
unfolding record_miner_hashes begin_session push_job job_for
new_job get_epoch_number now_ms now_s pool_id job ex =
    let adjusted : Executor = record ex {
      randomx_dataset = adjust_to_seed ex.randomx_dataset job.randomx_seed;
      progpow_dataset = adjust_to_block get_epoch_number ex.progpow_dataset job.height;
    } in
    let recorded = record_miner_hashes now_ms adjusted in
    push_job (job_for get_epoch_number pool_id job)
      (record recorded { pool_ctr = begin_session now_s recorded.pool_ctr })

-- `none` is a read of pools out of bounds.
unfoldable pub on_pool_new_job : (ℕ → ℕ) → ℕ → ℕ → ℕ → Executor → Option Executor
unfolding new_job
on_pool_new_job get_epoch_number now_ms now_s pool_id ex = elim (get_elem? ex.pools pool_id) [
  | none ↦ none
  | some p ↦ some (new_job get_epoch_number now_ms now_s pool_id p.my_job ex)
]

abbrev pub is_idle : PowType → Bool
is_idle PowType.idle = true
is_idle PowType.randomx = false
is_idle PowType.progpow = false
is_idle PowType.cuckoo = false

-- `none` is a current_job that points nowhere.
pub on_pool_disconnect : ℕ → MinerJob → Executor → Option Executor
unfolding job_at push_idle_job
on_pool_disconnect time_now memory ex = elim (job_at ex.miner_jobs ex.current_job) [
  | none ↦ none
  | some job ↦ if is_idle job.pow then some ex else some (push_idle_job time_now memory ex)
]

-- 0xffffffff / target, the difficulty of a share.
pub difficulty : ℕ → ℕ
difficulty target = if ltb 0 target then (2 ^ 32 - 1) / target else 2 ^ 32 - 1

unfoldable pub accept_share : ℕ → SessionCounters → SessionCounters
unfolding difficulty
accept_share target ctr = record ctr {
  accepted_shares_cnt = (ctr.accepted_shares_cnt + 1) % 2 ^ 64;
  total_diff = (ctr.total_diff + difficulty target) % 2 ^ 64;
}

unfoldable pub reject_share : SessionCounters → SessionCounters
reject_share ctr = record ctr { rejected_shares_cnt = (ctr.rejected_shares_cnt + 1) % 2 ^ 64 }

-- `error` is nullptr or the server's message; `none` is the exception of miners.at.
unfoldable pub on_result_reply : ℕ → Option (List ℕ) → ℕ → ℕ → Executor → Option Executor
unfolding accept_share reject_share
on_result_reply target error miner_id now_s ex = elim (get_elem? ex.miners miner_id) [
  | none ↦ none
  | some m ↦ elim error [
    | none ↦ some (record ex { pool_ctr = accept_share target ex.pool_ctr })
    | some msg ↦ some (record ex {
      pool_ctr = reject_share ex.pool_ctr;
      error_log = log_error msg now_s ex.error_log;
    })
  ]
]

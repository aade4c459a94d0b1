-- ===== src/Executor/Tests.antt =====
-- The executor's handlers at a small state.
use epic_miner.Common.{
  ℕ, ◌+◌, ◌%◌, ◌^◌, ◌<◌, ◌≡◌, refl, true, false, List, [], ◌∷◌, arith, none, some, codes, length,
}
use epic_miner.Job.{PowType, MinerJob, randomx_cpu_miner}
use epic_miner.Miner.Record.{Miner}
use epic_miner.Dataset.Rx.{rx_dataset}
use epic_miner.Dataset.Pp.{pp_dataset}
use epic_miner.Pool.Samples.{sample_pool, zero_vector}
use epic_miner.Executor.Errors.{reset}
use epic_miner.Executor.Errors.Laws.{count_of, occurrences}
use epic_miner.Executor.State.{Executor, job_at, on_pool_disconnect, is_idle}
use epic_miner.Executor.State.Laws.{on_pool_disconnect_lem}
use epic_miner.Executor.State.Replies.{
  ShareReply, reply_all, accepted, rejections, credit, reply_all_lem,
}

abbrev mined : MinerJob
mined = record {
  id = [];
  blob = [];
  blob_len = 76;
  nonce_pos = 72;
  target = 1;
  ds = none;
  dataset_id = 0;
  height = 1;
  nonce = some 0;
  pow = PowType.randomx;
}

abbrev one_miner : Miner
one_miner = record {
  thd_id = 0;
  kind = randomx_cpu_miner;
  is_hashing = true;
  hash_count = 5;
  hash_log = record { pos = 0; slots = [] };
}

abbrev ex0 : Executor
ex0 = record {
  pool_ctr = reset;
  error_log = [];
  pools = sample_pool ∷ [];
  randomx_dataset = rx_dataset zero_vector;
  progpow_dataset = pp_dataset;
  miners = one_miner ∷ [];
  miner_jobs = mined ∷ [];
  current_job = 0;
}

abbrev epoch : ℕ → ℕ
epoch block = 23

points : job_at ex0.miner_jobs ex0.current_job ≡ some mined
unfolding job_at
points = refl

on_pool_disconnect_lem_example :
    (ex' : Executor) × (job' : MinerJob) × (on_pool_disconnect 500 mined ex0 ≡ some ex')
    × (job_at ex'.miner_jobs ex'.current_job ≡ some job')
    × (is_idle job'.pow ≡ true)
    × (on_pool_disconnect 600 mined ex' ≡ some ex')
    × (is_idle mined.pow ≡ false → ex'.pool_ctr ≡ reset)
    × ((k : ℕ) → k < 1 → job_at ex'.miner_jobs k ≡ job_at ex0.miner_jobs k)
on_pool_disconnect_lem_example = on_pool_disconnect_lem 500 600 mined mined ex0 mined points

abbrev share_replies : List ShareReply
share_replies =
    record { target = 65_535; error = none; miner_id = 0; now = 10 }
    ∷ record { target = 65_535; error = some (codes "stale"); miner_id = 0; now = 11 }
    ∷ []

reply_all_lem_example :
    (ex' : Executor) × (reply_all share_replies ex0 ≡ some ex')
    × (ex'.pool_ctr.accepted_shares_cnt ≡ (0 + accepted share_replies) % 2 ^ 64)
    × (ex'.pool_ctr.rejected_shares_cnt ≡ (0 + length (rejections share_replies)) % 2 ^ 64)
    × (ex'.pool_ctr.total_diff ≡ (0 + credit share_replies) % 2 ^ 64)
    × ((msg : List ℕ)
        → count_of msg ex'.error_log ≡ count_of msg [] + occurrences msg (rejections share_replies))
reply_all_lem_example =
    reply_all_lem share_replies ex0 (omega arith) ((omega arith), (omega arith), (omega arith))

abbrev errors : List (List ℕ × ℕ)
errors = (codes "stale", 1) ∷ (codes "low diff", 2) ∷ (codes "stale", 9) ∷ []

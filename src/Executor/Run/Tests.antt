-- ===== src/Executor/Run/Tests.antt =====
-- The start of the program, and its first heartbeat.
use epic_miner.Common.{ℕ, ◌≡◌, true, false, List, [], ◌∷◌, some, arith, map, codes, replicate}
use epic_miner.Job.{PowType, MinerJob, idle_miner_job}
use epic_miner.Miner.Record.{Miner}
use epic_miner.Pool.State.{Pool, PoolState, net_connect}
use epic_miner.Pool.Setup.{Setup}
use epic_miner.Pool.Samples.{sample_pool, zero_vector}
use epic_miner.Executor.State.{Executor, job_at}
use epic_miner.Executor.Heartbeat.{on_heartbeat}
use epic_miner.Executor.Run.{fresh_executor, run}
use epic_miner.Executor.Run.Laws.{run_lem}

abbrev memory : MinerJob
memory = record {
  id = [];
  blob = [];
  blob_len = 0;
  nonce_pos = 0;
  target = 0;
  ds = epic_miner.Common.none;
  dataset_id = 0;
  height = 0;
  nonce = epic_miner.Common.none;
  pow = PowType.idle;
}

run_lem_example :
    (ex : Executor) × (made : Setup) × (p : Pool) × (run true 20_000 memory [] sample_pool
        (fresh_executor zero_vector 0)
      ≡ some (ex, made))
    × (made.target ≡ some (codes "88.80.191.147", codes "3333"))
    × (ex.pools ≡ p ∷ [])
    × (p.state ≡ PoolState.idle)
    × (p.pool_id ≡ 0)
    × (p.tls ≡ false)
    × (map (λ (m : Miner). m.thd_id) ex.miners ≡ 0 ∷ 1 ∷ [])
    × (job_at ex.miner_jobs ex.current_job ≡ some (idle_miner_job memory))
    × ((on_heartbeat 20_001 20_001 20_001 20_001 ex).1 ≡ [] ∷ [])
    × ((on_heartbeat 20_001 20_001 20_001 20_001 ex).2 ≡ (net_connect ∷ []) ∷ [])
run_lem_example =
    run_lem true 20_000 20_001 20_001 20_001 20_001 0 zero_vector memory [] sample_pool
      (omega arith)

-- ===== src/Executor/Run/Laws.antt =====
-- What the executor is when its loop starts, and at the first heartbeat.
use epic_miner.Common.{
  ℕ, ◌-◌, ◌<◌, Bool, true, false, List, [], ◌∷◌, ◌≡◌, refl, some, ltb, map, arith, codes,
}
use epic_miner.Vector32.{V32}
use epic_miner.Job.{MinerJob, idle_miner_job}
use epic_miner.Miner.Record.{Miner, HashRec, new_miner}
use epic_miner.Net.Address.{strrchr, host_of, set_hostname}
use epic_miner.Pool.State.{Pool, PoolState, net_connect, do_connect}
use epic_miner.Pool.Setup.{new_pool, Setup, choose_net, finish_init, init_pool}
use epic_miner.Executor.State.{Executor, job_at, push_idle_job, push_job, record_miner_hashes}
use epic_miner.Executor.Heartbeat.{check_pool, check_pools, any_busy, connect_first, on_heartbeat}
use epic_miner.Executor.Run.{fresh_executor, add_miners, add_pool, run}

-- run makes one idle pool without TLS, with the id 0, its place, and the host and port of its address;
-- the miners' ids are their places; and the current job is an idle one. The first heartbeat, at any
-- time later than ten seconds after the clock's zero, makes that pool, and nothing else, connect.
pub run_lem :
    (no_openssl : Bool) (now t1 t2 t3 t4 current : ℕ) (seed : V32) (job : MinerJob)
    (log : List HashRec) (memory : Pool)
    → 10000 < t2
    → (ex : Executor) × (made : Setup) × (p : Pool) × (run no_openssl now job log memory
          (fresh_executor seed current)
        ≡ some (ex, made))
      × (made.target ≡ some (codes "88.80.191.147", codes "3333"))
      × (ex.pools ≡ p ∷ [])
      × (p.state ≡ PoolState.idle)
      × (p.pool_id ≡ 0)
      × (p.tls ≡ false)
      × (map (λ (m : Miner). m.thd_id) ex.miners ≡ 0 ∷ 1 ∷ [])
      × (job_at ex.miner_jobs ex.current_job ≡ some (idle_miner_job job))
      × ((on_heartbeat t1 t2 t3 t4 ex).1 ≡ [] ∷ [])
      × ((on_heartbeat t1 t2 t3 t4 ex).2 ≡ (net_connect ∷ []) ∷ [])
unfolding run fresh_executor add_miners add_pool push_idle_job push_job record_miner_hashes new_pool
    init_pool choose_net finish_init set_hostname strrchr host_of new_miner job_at on_heartbeat
    check_pools check_pool any_busy connect_first do_connect
run_lem true now t1 t2 t3 t4 current seed job log memory late =
    let due : ltb 10000 (t2 - 0) ≡ true = ground arith in
    (_, _, _, refl, refl, refl, refl, refl, refl, refl, refl, refl, rw (due) refl)
run_lem false now t1 t2 t3 t4 current seed job log memory late =
    let due : ltb 10000 (t2 - 0) ≡ true = ground arith in
    (_, _, _, refl, refl, refl, refl, refl, refl, refl, refl, refl, rw (due) refl)

-- ===== src/Executor/Run.antt =====
-- executor.cpp: run, from its start to uv_run.
pub mod Laws
mod Tests
use epic_miner.Common.{
  ℕ, Bool, false, List, [], ◌∷◌, ◌++◌, Option, none, some, set, get_elem?, codes,
}
use epic_miner.Job.{MinerJob, randomx_cpu_miner, progpow_cpu_miner}
use epic_miner.Vector32.{V32}
use epic_miner.Dataset.Rx.{rx_dataset}
use epic_miner.Dataset.Pp.{pp_dataset}
use epic_miner.Executor.Errors.{reset}
use epic_miner.Miner.Record.{Miner, HashRec, new_miner}
use epic_miner.Pool.State.{Pool, Action}
use epic_miner.Pool.Setup.{new_pool, Setup, init_pool}
use epic_miner.Executor.State.{Executor, push_idle_job}

-- executor(): the members' own constructors. A pointer that is not set points at no job yet.
pub fresh_executor : V32 → ℕ → Executor
fresh_executor seed_memory current_job = record {
  pool_ctr = reset;
  error_log = [];
  pools = [];
  randomx_dataset = rx_dataset seed_memory;
  progpow_dataset = pp_dataset;
  miners = [];
  miner_jobs = [];
  current_job = current_job;
}

-- The two miners, on what their logs' memory holds.
pub add_miners : List HashRec → Executor → Executor
add_miners memory ex = record ex {
  miners =
      ex.miners ++ new_miner 0 randomx_cpu_miner memory ∷ new_miner 1 progpow_cpu_miner memory ∷ [];
}

abbrev pub pool_address : List ℕ
pool_address = codes "88.80.191.147:3333"

-- The pool that is added, and init_pool of the first one; `none` is a reading of pools[0] where there
-- is none, which does not happen. The result of init_pool is ignored.
pub add_pool : Bool → Pool → Executor → Option (Executor × Setup)
add_pool no_openssl memory ex =
    let pools = ex.pools ++ new_pool 0 memory ∷ [] in
    elim (get_elem? pools 0) [
      | none ↦ none
      | some p ↦
          let made =
            init_pool no_openssl pool_address false [] (codes "user") (codes "pass") [] p in
          some (record ex { pools = set pools 0 made.reaction.0 }, made)
    ]

unfoldable pub run :
    Bool → ℕ → MinerJob → List HashRec → Pool → Executor → Option (Executor × Setup)
unfolding add_miners add_pool
run no_openssl time_now job_memory log_memory pool_memory ex =
    add_pool no_openssl pool_memory (add_miners log_memory (push_idle_job time_now job_memory ex))

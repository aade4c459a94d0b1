-- ===== src/Program/Session.antt =====
-- executor.hpp and executor.cpp with pool.cpp: the executor and the pool that it owns, on a share that
-- a miner has found and on a message of the server. `none` is undefined behaviour or an exception of
-- one of the two, or a reading of pools[0] where there is no pool.
pub mod Laws
pub mod Jobs
pub mod Known
pub mod Served
mod Tests
use epic_miner.Common.{ℕ, Bool, List, [], ◌∷◌, Option, none, some, set, get_elem?}
use epic_miner.Json.{Members}
use epic_miner.Job.{MinerJob, MinerResult}
use epic_miner.Executor.State.{Executor}
use epic_miner.Pool.State.{
  Pool, Action, log_error, on_pool_new_job, on_pool_disconnect, on_result_reply, net_connect,
  net_shutdown, socket_write, send_formatted, do_send_result,
}
use epic_miner.Pool.Messages.{process_json_doc}

-- The clocks, and what new memory holds, while a handler runs.
pub record Now : Type 0 where
  pub ms : ℕ
  pub s : ℕ
  pub memory : MinerJob

-- The call of the executor that a pool makes; the others are the network's.
pub called : (ℕ → ℕ) → Now → Action → Executor → Option Executor
called get_epoch_number now (log_error err) ex =
    some (record ex { error_log = epic_miner.Executor.Errors.log_error err now.s ex.error_log })
called get_epoch_number now (on_pool_new_job id) ex =
    epic_miner.Executor.State.on_pool_new_job get_epoch_number now.ms now.s id ex
called get_epoch_number now (on_pool_disconnect id) ex =
    epic_miner.Executor.State.on_pool_disconnect now.ms now.memory ex
called get_epoch_number now (on_result_reply target err rtt miner_id) ex =
    epic_miner.Executor.State.on_result_reply target err miner_id now.s ex
called get_epoch_number now net_connect ex = some ex
called get_epoch_number now net_shutdown ex = some ex
called get_epoch_number now (socket_write text) ex = some ex
called get_epoch_number now (send_formatted text) ex = some ex

pub all_called : (ℕ → ℕ) → Now → List Action → Executor → Option Executor
unfolding called
all_called get_epoch_number now [] ex = some ex
all_called get_epoch_number now (act ∷ acts) ex = elim (called get_epoch_number now act ex) [
  | none ↦ none
  | some ex' ↦ all_called get_epoch_number now acts ex'
]

-- A pool's object is in its place in `pools`.
pub with_pool : ℕ → Pool → Executor → Executor
with_pool pool_id p ex = record ex { pools = set ex.pools pool_id p }

-- A message for a pool: the pool is changed before it calls the executor, and not after.
pub on_message : (ℕ → ℕ) → Now → ℕ → Members → Executor → Option (Executor × Bool)
unfolding all_called with_pool
on_message get_epoch_number now pool_id doc ex = elim (get_elem? ex.pools pool_id) [
  | none ↦ none
  | some p ↦ elim (process_json_doc p doc now.ms) [
    | none ↦ none
    | some ((p', acts), done) ↦
        elim (all_called get_epoch_number now acts (with_pool pool_id p' ex)) [
          | none ↦ none
          | some ex' ↦ some (ex', done)
        ]
  ]
]

-- `stack` is what the stack holds; the two readings of the clock are those of do_send_result.
pub on_found_result : MinerResult → ℕ → ℕ → ℕ → Executor → Option (Executor × List Action)
unfolding with_pool
on_found_result res stack now1 now2 ex = elim (get_elem? ex.pools 0) [
  | none ↦ none
  | some p ↦ let (p', acts) = do_send_result p res stack now1 now2 in some (with_pool 0 p' ex, acts)
]

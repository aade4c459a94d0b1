-- ===== src/Executor/Heartbeat.antt =====
-- executor.cpp: on_heartbeat, which the timer calls every second.
pub mod Laws
use epic_miner.Common.{
  ℕ, zero, suc, ◌+◌, ◌-◌, Bool, true, false, ◌&&◌, ◌||◌, not, List, [], ◌∷◌, ◌++◌, ltb,
  if◌then◌else◌,
}
use epic_miner.Pool.State.{
  Pool, PoolState, idle, connecting, connected, has_job, Action, Reaction, check_call_timeouts,
  do_connect,
}
use epic_miner.Executor.State.{Executor, record_miner_hashes}

-- The pools after a pass, and what each was made to ask for, by the pool's place.
pub record Pass : Type 0 where
  pub pools : List Pool
  pub acts : List (List Action)

abbrev pub is_state_connected : PoolState → Bool
is_state_connected idle = false
is_state_connected connecting = false
is_state_connected connected = true
is_state_connected has_job = false

abbrev pub is_state_connecting : PoolState → Bool
is_state_connecting idle = false
is_state_connecting connecting = true
is_state_connecting connected = false
is_state_connecting has_job = false

abbrev pub is_state_idle : PoolState → Bool
is_state_idle idle = true
is_state_idle connecting = false
is_state_idle connected = false
is_state_idle has_job = false

-- check_call_timeouts of a connected pool.
unfoldable pub check_pool : ℕ → Pool → Reaction
check_pool now p = if is_state_connected p.state then check_call_timeouts p now else (p, [])

-- The first loop: the calls of every connected pool.
unfoldable pub check_pools : ℕ → List Pool → Pass
unfolding check_pool
check_pools now [] = record { pools = []; acts = [] }
check_pools now (p ∷ rest) =
    let (p', acts) = check_pool now p in
    let later = check_pools now rest in
    record { pools = p' ∷ later.pools; acts = acts ∷ later.acts }

-- connected_pools + connecting_pools > 0: the states are read before the calls are checked. A pool that
-- has a job is in neither number.
unfoldable pub any_busy : List Pool → Bool
any_busy [] = false
any_busy (p ∷ rest) = is_state_connected p.state || is_state_connecting p.state || any_busy rest

abbrev pub may_connect : ℕ → Pool → Bool
may_connect now p = is_state_idle p.state && ltb 10000 (now - p.last_connect_attempt)

-- The second loop: the first pool that may connect does. `now2` is do_connect's own reading.
unfoldable pub connect_first : ℕ → ℕ → List Pool → Pass
connect_first now now2 [] = record { pools = []; acts = [] }
connect_first now now2 (p ∷ rest) =
    let later = connect_first now now2 rest in
    if may_connect now p
    then (let (p', acts) = do_connect p now2 in record { pools = p' ∷ rest; acts = acts ∷ [] })
    else record { pools = p ∷ later.pools; acts = [] ∷ later.acts }

-- The executor, and what the pools asked for in the first loop and in the second.
unfoldable pub on_heartbeat :
    ℕ → ℕ → ℕ → ℕ → Executor → Executor × List (List Action) × List (List Action)
unfolding check_pools any_busy connect_first
on_heartbeat t1 t2 t3 t4 ex =
    let checked = check_pools t1 ex.pools in
    let connects =
      if any_busy ex.pools
      then record { pools = checked.pools; acts = [] }
      else connect_first t2 t3 checked.pools in
    (record_miner_hashes t4 (record ex { pools = connects.pools }), checked.acts, connects.acts)

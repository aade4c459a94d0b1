-- ===== src/Executor/Heartbeat/Laws.antt =====
-- When the timer starts connections, and how many.
use epic_miner.Common.{ℕ, ◌+◌, Bool, true, false, ◌||◌, List, [], ◌∷◌, if◌then◌else◌}
use epic_miner.Pool.State.{Pool, Action, net_connect}
use epic_miner.Executor.State.{Executor}
use epic_miner.Executor.Heartbeat.{is_state_connecting, may_connect}

abbrev is_connect : Action → Bool
is_connect net_connect = true
is_connect a = false

-- How many connections a pool's actions ask for, and those of several pools.
pub connects_in : List Action → ℕ
connects_in [] = 0
connects_in (a ∷ acts) = (if is_connect a then 1 else 0) + connects_in acts

pub connects : List (List Action) → ℕ
unfolding connects_in
connects [] = 0
connects (acts ∷ rest) = connects_in acts + connects rest

pub any_may_connect : ℕ → List Pool → Bool
any_may_connect now [] = false
any_may_connect now (p ∷ rest) = may_connect now p || any_may_connect now rest

-- How many pools are in state `connecting`.
pub connecting_pools : List Pool → ℕ
connecting_pools [] = 0
connecting_pools (p ∷ rest) = (if is_state_connecting p.state then 1 else 0) + connecting_pools rest

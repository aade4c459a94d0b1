-- ===== src/Program/Link/Cycle/Ends.antt =====
-- A link without a connection, and the end of a connection.
use epic_miner.Common.{ℕ, false, ◌≡◌, refl, List, [], Option, some, arith}
use epic_miner.Json.{Value}
use epic_miner.Job.{MinerResult}
use epic_miner.Pool.State.{Pool, do_send_result}
use epic_miner.Program.Link.{Link, Moment, pool_does, requests, send_result}
use epic_miner.Program.Link.Cycle.{World, Step, Reachable}
use epic_miner.Program.Link.Cycle.Laws.{is_live, IsSound}
use epic_miner.Program.Link.Cycle.Sound.{Step-IsSound, Reachable-IsSound}

-- A pool without a connection writes nothing: not a job, not connected.
unsent :
    (p : Pool) (res : MinerResult) (stack a b : ℕ)
    → is_live p.state ≡ false
    → do_send_result p res stack a b ≡ (p, [])
unfolding do_send_result
unsent p res stack a b e = ground arith

module _ (parse_insitu : List ℕ → List ℕ × Option Value) where
  -- While no connection is established, a share that a miner finds changes nothing, and nothing is
  -- asked of libuv.
  pub send_result-offline :
      (w : World) (m : Moment) (res : MinerResult)
      → Reachable parse_insitu w
      → w.established ≡ false
      → send_result m res w.link ≡ some (w.link, [])
  unfolding send_result pool_does requests
  send_result-offline w m res reach e =
      let sound = Reachable-IsSound parse_insitu w reach in
      let dead : is_live w.link.pool.state ≡ false = ground (arith, sound) in
      rw (unsent w.link.pool res m.stack m.now m.now dead) refl

  pub data Later : World → World → Type 0 where
    at_once : (w : World) → Later w w
    further : (w w' w'' : World) → Later w w' → Step parse_insitu w' w'' → Later w w''

  pub Later-IsSound : (w w' : World) → Later w w' → IsSound w → IsSound w'
  Later-IsSound _ _ (at_once w) sound = sound
  Later-IsSound _ _ (further w w' w'' before step) sound =
      Step-IsSound parse_insitu w' w'' step (Later-IsSound w w' before sound)

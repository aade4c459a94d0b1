-- ===== src/Program/Link/Cycle/Laws.antt =====
-- What holds of a link in every state that it can reach.
use epic_miner.Common.{Bool, true, false, ◌≡◌, ◌⊎◌, arith}
use epic_miner.Pool.State.{PoolState, idle, connecting, connected}
use epic_miner.Program.Link.{Link}
use epic_miner.Program.Link.Cycle.{World, after, IsNew}
use epic_miner.Program.Link.Cycle.Kept.{Kept}

abbrev pub is_live : PoolState → Bool
is_live idle = false
is_live connecting = false
is_live connected = true
is_live PoolState.has_job = true

-- A pool that is connecting has a request under way; a pool that is connected or has a job has an
-- established connection; and the flags of the interface fit one another and the socket.
pub record IsSound (w : World) : Type 0 where
  pub on_the_way :
      w.link.pool.state ≡ connecting
      → (w.link.net.resolving ≡ true) ⊎ (w.link.net.connecting ≡ true)
  pub live_established : is_live w.link.pool.state ≡ true → w.established ≡ true
  pub closing_down : w.link.net.closing ≡ true → w.link.net.shutting_down ≡ true
  pub established_open : w.established ≡ true → w.link.net.open_sock ≡ true
  pub connecting_open : w.link.net.connecting ≡ true → w.link.net.open_sock ≡ true
  pub connecting_first : w.link.net.connecting ≡ true → w.established ≡ false
  pub shutdown_closing : w.shutdown_pending ≡ true → w.link.net.closing ≡ true
  pub shutdown_established : w.shutdown_pending ≡ true → w.established ≡ true
  pub pending_down : w.close_pending ≡ true → w.link.net.shutting_down ≡ true
  pub pending_once : w.close_pending ≡ true → w.link.net.closing ≡ false
  pub pending_established : w.close_pending ≡ true → w.established ≡ true

pub IsNew-IsSound : (w : World) → IsNew w → IsSound w
IsNew-IsSound w new = ground (arith, new)

-- A handler that keeps the interface's flags, and gives the pool at most a job, on an established
-- connection.
pub record Moved (w : World) (l : Link) : Type 0 where
  pub kept : Kept w.link.net l.net
  pub state :
      (l.pool.state ≡ w.link.pool.state)
      ⊎ ((l.pool.state ≡ idle) ⊎ ((l.pool.state ≡ PoolState.has_job) × (w.established ≡ true)))

pub Moved-IsSound : (w : World) (l : Link) → IsSound w → Moved w l → IsSound (after w l)
Moved-IsSound w l sound moved = ground (arith, sound, moved, moved.kept)

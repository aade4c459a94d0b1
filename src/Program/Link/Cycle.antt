-- ===== src/Program/Link/Cycle.antt =====
-- The life of a link as a step relation: the executor's timer, the miners' shares, and the callbacks
-- that libuv owes. A handler that fails an assertion has no step, and none has one that calls
-- uv_shutdown on a socket that was never initialised: libuv takes only an initialised stream there, and
-- asserts its type.
pub mod Kept
pub mod Reads
pub mod Laws
pub mod Moves
pub mod Sound
pub mod Ends
pub mod Lost
pub mod Stranded
pub mod Runs
use epic_miner.Common.{ℕ, Bool, true, false, not, ◌&&◌, ◌||◌, ◌≡◌, List, [], Option, none, some}
use epic_miner.Json.{Value}
use epic_miner.Job.{MinerResult}
use epic_miner.Net.Address.{AddrInfo}
use epic_miner.Net.Send.{Net, UvError}
use epic_miner.Pool.State.{Pool, PoolState, idle, connected}
use epic_miner.Program.Link.{
  Link, Out, Moment, connect, check_timeouts, send_result, dns_done, connect_done, write_done,
  shutdown_done, close_done, read_failed, read_done,
}

-- What libuv knows of the socket besides: whether uv_tcp_init was called on h_sock (in
-- on_dns_resolved, after which h_sock.data is set), whether the TCP connection is established, and
-- whether the callbacks of uv_shutdown and of uv_close are owed. The other callbacks that it owes are the flags of
-- `net`.
pub record World : Type 0 where
  pub link : Link
  pub initialised : Bool
  pub established : Bool
  pub shutdown_pending : Bool
  pub close_pending : Bool

-- The link after a handler. do_shutdown alone sets `closing`, and calls uv_shutdown, which fails and
-- owes no callback where the initialised socket has no connection.
abbrev pub after : World → Link → World
after w l = record w {
  link = l;
  initialised = w.initialised || l.net.open_sock;
  shutdown_pending =
      w.shutdown_pending || (w.established && (not w.link.net.closing && l.net.closing));
}

pub data Step (parse_insitu : List ℕ → List ℕ × Option Value) : World → World → Type 0 where
  connects :
      (w : World) (m : Moment) (l : Link) (outs : List Out)
      → w.link.pool.state ≡ idle
      → connect m w.link ≡ some (l, outs)
      → Step parse_insitu w (after w l)
  -- on_heartbeat checks the calls of connected pools only.
  times_out :
      (w : World) (m : Moment) (l : Link) (outs : List Out)
      → w.link.pool.state ≡ connected
      → check_timeouts m w.link ≡ some (l, outs)
      → Step parse_insitu w (after w l)
  sends :
      (w : World) (m : Moment) (res : MinerResult) (l : Link) (outs : List Out)
      → send_result m res w.link ≡ some (l, outs)
      → Step parse_insitu w (after w l)
  resolves :
      (w : World) (m : Moment) (e : Option UvError) (found : List AddrInfo) (r : ℕ) (l : Link)
      (outs : List Out)
      → w.link.net.resolving ≡ true
      → (w.link.net.closing ≡ false → l.net.closing ≡ true → w.initialised ≡ true)
      → dns_done m e found r w.link ≡ some (l, outs)
      → Step parse_insitu w (after w l)
  establishes :
      (w : World) (m : Moment) (l : Link) (outs : List Out)
      → w.link.net.connecting ≡ true
      → connect_done m none w.link ≡ some (l, outs)
      → Step parse_insitu w (after (record w { established = true }) l)
  refuses :
      (w : World) (m : Moment) (e : UvError) (l : Link) (outs : List Out)
      → w.link.net.connecting ≡ true
      → connect_done m (some e) w.link ≡ some (l, outs)
      → Step parse_insitu w (after w l)
  reads :
      (w : World) (m : Moment) (fresh : List ℕ) (l : Link) (outs : List Out)
      → w.established ≡ true
      → read_done parse_insitu m fresh w.link ≡ some (l, outs)
      → Step parse_insitu w (after w l)
  fails :
      (w : World) (m : Moment) (e : UvError) (l : Link) (outs : List Out)
      → w.established ≡ true
      → read_failed m e w.link ≡ some (l, outs)
      → Step parse_insitu w (after w l)
  writes :
      (w : World) (m : Moment) (idx : ℕ) (e : Option UvError) (l : Link) (outs : List Out)
      → w.established ≡ true
      → write_done m idx e w.link ≡ some (l, outs)
      → Step parse_insitu w (after w l)
  shuts :
      (w : World) (m : Moment) (l : Link) (outs : List Out)
      → w.shutdown_pending ≡ true
      → shutdown_done m w.link ≡ some (l, outs)
      → Step parse_insitu w (record w { link = l; shutdown_pending = false; close_pending = true })
  closes :
      (w : World) (m : Moment) (l : Link) (outs : List Out)
      → w.close_pending ≡ true
      → close_done m w.link ≡ some (l, outs)
      → Step parse_insitu w (record w { link = l; established = false; close_pending = false })

-- A pool without a connection: before the first, or after one has ended.
pub record IsNew (w : World) : Type 0 where
  pub pool_idle : w.link.pool.state ≡ idle
  pub not_resolving : w.link.net.resolving ≡ false
  pub not_connecting : w.link.net.connecting ≡ false
  pub not_open : w.link.net.open_sock ≡ false
  pub not_closing : w.link.net.closing ≡ false
  pub not_down : w.link.net.shutting_down ≡ false
  pub not_established : w.established ≡ false
  pub no_shutdown : w.shutdown_pending ≡ false
  pub not_pending : w.close_pending ≡ false

pub data Reachable (parse_insitu : List ℕ → List ℕ × Option Value) : World → Type 0 where
  starts : (w : World) → IsNew w → Reachable parse_insitu w
  steps :
      (w w' : World) → Reachable parse_insitu w → Step parse_insitu w w' → Reachable parse_insitu w'

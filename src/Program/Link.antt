-- ===== src/Program/Link.antt =====
-- pool.hpp and net/net_interface.*: a pool without TLS and its network interface as one object. A
-- callback of libuv runs a handler of the interface, whose notifications run handlers of the pool,
-- whose requests run functions of the interface. `none` is a failed assertion, or what the C++ leaves
-- undefined.
pub mod Cycle
mod Tests
use epic_miner.Common.{ℕ, Bool, List, [], ◌∷◌, ◌++◌, Option, none, some}
use epic_miner.Json.{Value}
use epic_miner.Job.{MinerResult}
use epic_miner.Net.Address.{AddrInfo}
use epic_miner.Net.Receive.{Consumer, Consumed}
use epic_miner.Net.Send.{
  Net, NetAction, NetReaction, notify_error, notify_connect, notify_close, UvError, do_shutdown,
  on_socket_write_st, on_socket_error, on_socket_closed,
}
use epic_miner.Net.Cycle.{Read, on_dns_resolved_st, on_connnect_st, on_shutdown_st, on_socket_read}
use epic_miner.Pool.State.{
  Pool, Action, Reaction, log_error, on_pool_new_job, on_pool_disconnect, on_result_reply,
  net_connect, net_shutdown, socket_write, send_formatted, do_connect, net_on_error, net_on_close,
  net_on_connect, do_send_result, check_call_timeouts,
}
use epic_miner.Pool.Receive.{Received, net_on_data_recv}

pub record Link : Type 0 where
  pub pool : Pool
  pub net : Net

-- What leaves the two objects: a call of the executor, or a call of libuv.
pub data Out : Type 0 where
  to_executor : Action → Out
  to_uv : NetAction → Out

abbrev pub LinkReaction : Type 0
LinkReaction = Option (Link × List Out)

-- The clock, and what the stack holds, while a handler runs.
pub record Moment : Type 0 where
  pub now : ℕ
  pub stack : ℕ

infixl 5 ◌then◌
abbrev pub ◌then◌ : LinkReaction → (Link → LinkReaction) → LinkReaction
none then f = none
some (l, outs) then f = elim (f l) [ none ↦ none | some (l', more) ↦ some (l', outs ++ more) ]

-- The functions of the interface that a pool calls ask only for libuv.
pub of_net : Pool → NetReaction → LinkReaction
of_net p none = none
of_net p (some (n, acts)) = some (record { pool = p; net = n }, epic_miner.Common.map to_uv acts)

-- One request of the pool. A pool without TLS never asks for socket_write.
pub request : Action → Link → LinkReaction
unfolding of_net
request (log_error err) l = some (l, to_executor (log_error err) ∷ [])
request (on_pool_new_job id) l = some (l, to_executor (on_pool_new_job id) ∷ [])
request (on_pool_disconnect id) l = some (l, to_executor (on_pool_disconnect id) ∷ [])
request (on_result_reply target err rtt miner) l =
    some (l, to_executor (on_result_reply target err rtt miner) ∷ [])
request net_connect l = of_net l.pool (epic_miner.Net.Cycle.do_connect l.net)
request net_shutdown l = of_net l.pool (do_shutdown l.net)
request (socket_write text) l = none
request (send_formatted text) l = of_net l.pool (epic_miner.Net.Send.send_formatted l.net text)

pub requests : List Action → Link → LinkReaction
unfolding request
requests [] l = some (l, [])
requests (act ∷ acts) l = request act l then requests acts

-- A handler of the pool on the link.
pub pool_does : Reaction → Link → LinkReaction
unfolding requests
pool_does (p, acts) l = requests acts (record l { pool = p })

-- What the pool does where the interface notifies it; other actions are libuv's. A notification
-- stands where the interface makes it, and no handler of the pool reads or changes what the
-- interface's handler changes behind it.
pub notified : Moment → NetAction → Link → LinkReaction
unfolding pool_does
notified m (notify_error err) l = pool_does (net_on_error l.pool err) l
notified m (notify_connect fp) l = pool_does (net_on_connect l.pool fp m.stack m.now) l
notified m notify_close l = pool_does (net_on_close l.pool) l
notified m act l = some (l, to_uv act ∷ [])

pub notify_all : Moment → List NetAction → Link → LinkReaction
unfolding notified
notify_all m [] l = some (l, [])
notify_all m (act ∷ acts) l = notified m act l then notify_all m acts

-- A handler of the interface on the link.
pub net_does : Moment → NetReaction → Link → LinkReaction
unfolding notify_all
net_does m none l = none
net_does m (some (n, acts)) l = notify_all m acts (record l { net = n })

-- What the executor asks of the pool.
pub connect : Moment → Link → LinkReaction
unfolding pool_does
connect m l = pool_does (do_connect l.pool m.now) l

pub check_timeouts : Moment → Link → LinkReaction
unfolding pool_does
check_timeouts m l = pool_does (check_call_timeouts l.pool m.now) l

pub send_result : Moment → MinerResult → Link → LinkReaction
unfolding pool_does
send_result m res l = pool_does (do_send_result l.pool res m.stack m.now m.now) l

-- The callbacks of libuv.
pub dns_done : Moment → Option UvError → List AddrInfo → ℕ → Link → LinkReaction
unfolding net_does
dns_done m e res r l = net_does m (on_dns_resolved_st l.net e res r) l

pub connect_done : Moment → Option UvError → Link → LinkReaction
unfolding net_does
connect_done m e l = net_does m (on_connnect_st l.net e) l

pub write_done : Moment → ℕ → Option UvError → Link → LinkReaction
unfolding net_does
write_done m idx e l = net_does m (on_socket_write_st l.net idx e) l

pub shutdown_done : Moment → Link → LinkReaction
unfolding net_does
shutdown_done m l = net_does m (on_shutdown_st l.net) l

pub close_done : Moment → Link → LinkReaction
unfolding net_does
close_done m l = net_does m (on_socket_closed l.net) l

pub read_failed : Moment → UvError → Link → LinkReaction
unfolding net_does
read_failed m e l = net_does m (on_socket_error l.net e) l

-- The end of a read: the requests of the pool, then those of the interface.
pub read_finish : Read (Option Reaction) → LinkReaction
unfolding pool_does
read_finish r = elim r.owner [
  | none ↦ none
  | some reaction ↦ pool_does reaction (record { pool = reaction.0; net = r.net }) then λ l.
      some (l, epic_miner.Common.map to_uv r.acts)
]

module _ (parse_insitu : List ℕ → List ℕ × Option Value) where
  -- The pool as a consumer: what it asks for is kept until the loop has ended. A handler that runs
  -- into undefined behaviour is kept as well.
  pub recv : ℕ → Consumer (Option Reaction)
  recv now none window = record { state = none; window = window; count = none }
  recv now (some (p, acts)) window =
      elim (net_on_data_recv parse_insitu p window (epic_miner.Common.length window) now) [
        | none ↦ record { state = none; window = window; count = none }
        | some r ↦ record {
          state = some (r.reaction.0, acts ++ r.reaction.1);
          window = r.buffer;
          count = r.consumed;
        }
      ]

  -- A read of some bytes.
  pub read_done : Moment → List ℕ → Link → LinkReaction
  unfolding recv read_finish
  read_done m fresh l = elim (on_socket_read (recv m.now) (some (l.pool, [])) l.net fresh) [
    | none ↦ none
    | some r ↦ read_finish r
  ]

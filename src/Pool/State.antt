-- ===== src/Pool/State.antt =====
-- pool.hpp and pool.cpp: the pool's members and the handlers of its connection. What a handler asks
-- of the network interface and of the executor is returned as a list of actions, in order, beside
-- the new pool; printing to the console is left out. The clock's readings are arguments.
mod Tests
use epic_miner.Common.{
  ℕ, Bool, true, false, ◌&&◌, not, List, [], ◌∷◌, ◌++◌, Option, none, some, if◌then◌else◌, codes,
  bytes_eq, c_str,
}
use epic_miner.Common.Int.{ℤ, pos}
use epic_miner.Job.{PoolJob, reset, MinerResult, invalid_miner_id}
use epic_miner.Pool.Calls.{CallTable, login, result, flush_call_map, register_call, timed_out}
use epic_miner.Pool.Wire.{login_text, submit_text}

pub data PoolState : Type 0 where
  idle connecting connected has_job : PoolState

pub record Pool : Type 0 where
  pub pool_id : ℕ
  pub state : PoolState
  pub tls : Bool
  pub hostname : List ℕ
  pub pool_miner_id : List ℕ
  pub username : List ℕ
  pub password : List ℕ
  pub rigid : List ℕ
  pub tls_fp : List ℕ
  pub last_connect_attempt : ℕ
  pub my_job : PoolJob
  pub calls : CallTable
  pub ping_call_id : ℕ
  pub ping_timestamp : ℤ

-- Calls of other objects: the executor's log_error, on_pool_new_job, on_pool_disconnect and
-- on_result_reply; the network's do_connect and do_shutdown; a text formatted into a buffer on the
-- stack for do_socket_write (TLS), or into a send buffer of the network (plain).
pub data Action : Type 0 where
  log_error : List ℕ → Action
  on_pool_new_job : ℕ → Action
  on_pool_disconnect : ℕ → Action
  on_result_reply : ℕ → Option (List ℕ) → ℕ → ℕ → Action
  net_connect net_shutdown : Action
  socket_write send_formatted : List ℕ → Action

abbrev pub Reaction : Type 0
Reaction = Pool × List Action

pub error_text : Pool → List ℕ → List ℕ
error_text p err = codes "Pool error [" ++ (p.hostname ++ (codes "] : " ++ c_str err))

unfoldable pub do_connect : Pool → ℕ → Reaction
do_connect p now = (
  record p { state = connecting; calls = flush_call_map p.calls; last_connect_attempt = now },
  net_connect ∷ [],
)

unfoldable pub net_on_error : Pool → List ℕ → Reaction
unfolding error_text
net_on_error p err = (
  record p { state = idle; my_job = reset p.my_job },
  log_error (error_text p err) ∷ net_shutdown ∷ [],
)

unfoldable pub net_on_close : Pool → Reaction
net_on_close p =
    (record p { state = idle; my_job = reset p.my_job }, on_pool_disconnect p.pool_id ∷ [])

-- Logs, and gives the caller's `false`.
unfoldable pub protocol_error : Pool → List ℕ → Reaction × Bool
unfolding error_text
protocol_error p err = ((p, log_error (error_text p err) ∷ []), false)

unfoldable pub check_call_timeouts : Pool → ℕ → Reaction
check_call_timeouts p now =
    if timed_out now p.calls.call_map then net_on_error p (codes "call timeout") else (p, [])

abbrev write : Pool → List ℕ → Action
write p text = if p.tls then socket_write text else send_formatted text

-- The id and the table after register_call, whose result the callers ignore: where the table is
-- full, `call_id` is what the stack holds.
unfoldable pub registered : Option (ℕ × CallTable) → ℕ → CallTable → ℕ × CallTable
registered none stack calls = (stack, calls)
registered (some r) stack calls = r

unfoldable pub do_login_call : Pool → ℕ → ℕ → Reaction
unfolding registered
do_login_call p stack now =
    let (call_id, calls) =
      registered (register_call p.calls login invalid_miner_id now) stack p.calls in
    (record p { calls = calls }, write p (login_text p.username p.password p.rigid call_id) ∷ [])

-- Whether a fingerprint is reported, one is configured, and they differ.
unfoldable pub fingerprint_refused : List ℕ → Option (List ℕ) → Bool
fingerprint_refused tls_fp none = false
fingerprint_refused tls_fp (some fp) = not (bytes_eq tls_fp []) && not (bytes_eq tls_fp (c_str fp))

unfoldable pub net_on_connect : Pool → Option (List ℕ) → ℕ → ℕ → Reaction
net_on_connect p fp stack now =
    if fingerprint_refused p.tls_fp fp
    then net_on_error p (codes "TLS Fingerprint verification failed")
    else do_login_call (record p { state = connected }) stack now

abbrev pub has_job_state : PoolState → Bool
has_job_state idle = false
has_job_state connecting = false
has_job_state connected = false
has_job_state has_job = true

-- The two clock readings are those of register_call and of ping_timestamp.
unfoldable pub do_send_result : Pool → MinerResult → ℕ → ℕ → ℕ → Reaction
unfolding registered
do_send_result p res stack now1 now2 =
    if not (has_job_state p.state)
    then (p, [])
    else let (call_id, calls) =
        registered (register_call p.calls result res.miner_id now1) stack p.calls in
      (
        record p { calls = calls; ping_call_id = call_id; ping_timestamp = pos now2 },
        write p (submit_text p.pool_miner_id res call_id) ∷ [],
      )

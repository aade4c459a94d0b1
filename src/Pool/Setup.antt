-- ===== src/Pool/Setup.antt =====
-- pool.hpp and pool.cpp: the constructor, init_pool, do_disconnect, and what others read of a pool.
mod Tests
use epic_miner.Common.{
  ℕ, ◌-◌, ◌^◌, Bool, true, false, List, [], ◌∷◌, Option, none, some, if◌then◌else◌, codes, c_str,
}
use epic_miner.Common.Int.{ℤ, pos, negsuc}
use epic_miner.Job.{PoolJob, reset}
use epic_miner.Net.Address.{Address, bad, address, set_hostname}
use epic_miner.Pool.State.{Pool, PoolState, Action, Reaction, net_shutdown, net_on_error}

-- The table of calls, `tls` and the job's arrays are not set: they keep what is in memory.
unfoldable pub new_pool : ℕ → Pool → Pool
new_pool pool_id memory = record {
  pool_id = pool_id;
  state = PoolState.idle;
  tls = memory.tls;
  hostname = [];
  pool_miner_id = [];
  username = [];
  password = [];
  rigid = [];
  tls_fp = [];
  last_connect_attempt = 0;
  my_job = reset memory.my_job;
  calls = memory.calls;
  ping_call_id = 2 ^ 32 - 1;
  ping_timestamp = negsuc 0;
}

-- Which network interface is made, and the fingerprint that it is to show. `no_openssl` says that
-- BUILD_NO_OPENSSL is defined.
unfoldable pub choose_net : Bool → Bool → List ℕ → Pool → Pool
choose_net no_openssl use_tls tls_fp p =
    if no_openssl
    then record p { tls = false }
    else if use_tls
    then record p { tls = true; tls_fp = c_str tls_fp }
    else record p { tls = false }

-- What set_hostname leaves: the interface's host and port, or an error that the pool is notified of.
pub record Setup : Type 0 where
  pub reaction : Reaction
  pub target : Option (List ℕ × List ℕ)
  pub done : Bool

unfoldable pub finish_init : Address → List ℕ → List ℕ → List ℕ → List ℕ → Pool → Setup
finish_init (bad err) hostname username password rigid p = record {
  reaction = net_on_error p err;
  target = none;
  done = false;
}
finish_init (address host port) hostname username password rigid p = record {
  reaction = (
    record p {
      hostname = c_str hostname;
      username = c_str username;
      password = c_str password;
      rigid = c_str rigid;
    },
    [],
  );
  target = some (host, port);
  done = true;
}

unfoldable pub init_pool : Bool → List ℕ → Bool → List ℕ → List ℕ → List ℕ → List ℕ → Pool → Setup
unfolding choose_net finish_init
init_pool no_openssl hostname use_tls tls_fp username password rigid p =
    finish_init (set_hostname hostname) hostname username password rigid
      (choose_net no_openssl use_tls tls_fp p)

pub do_disconnect : Pool → Reaction
do_disconnect p = (p, net_shutdown ∷ [])

pub get_pool_job : Pool → PoolJob
get_pool_job p = p.my_job

pub get_pool_state : Pool → PoolState
get_pool_state p = p.state

pub get_last_connect_attempt : Pool → ℕ
get_last_connect_attempt p = p.last_connect_attempt

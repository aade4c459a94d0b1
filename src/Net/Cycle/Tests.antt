-- ===== src/Net/Cycle/Tests.antt =====
-- From the name to the connection and a read, then the end.
use epic_miner.Common.{ℕ, suc, length, ◌≡◌, refl, true, false, [], ◌∷◌, some, none}
use epic_miner.Net.Receive.{Consumer, consume_loop, consume_rounds, after_call}
use epic_miner.Net.Send.{Net, notify_error, notify_connect, uv_getaddrinfo, uv_read_start, uv_close}
use epic_miner.Net.Cycle.{
  do_connect, on_dns_resolved_st, on_connnect_st, on_shutdown_st, on_socket_read, finish_read,
}

abbrev fresh_net : Net
fresh_net = record {
  send_bufs = [];
  received = [];
  shutting_down = false;
  resolving = false;
  connecting = false;
  open_sock = false;
  closing = false;
}

resolves : do_connect fresh_net ≡ some (record fresh_net { resolving = true }, uv_getaddrinfo ∷ [])
unfolding do_connect
resolves = refl

connects :
    on_connnect_st (record fresh_net { connecting = true }) none
    ≡ some (fresh_net, notify_connect none ∷ uv_read_start ∷ [])
unfolding on_connnect_st
connects = refl

ends : on_shutdown_st (record fresh_net { closing = true }) ≡ some (fresh_net, uv_close ∷ [])
unfolding on_shutdown_st
ends = refl

no_name :
    on_dns_resolved_st
      (record fresh_net { resolving = true })
      (some (record { is_eof = false; text = 1 ∷ [] }))
      []
      0
    ≡ some (fresh_net, notify_error (1 ∷ []) ∷ [])
unfolding on_dns_resolved_st
no_name = refl

-- It consumes all that it is given, and counts the calls.
take_all : Consumer ℕ
take_all seen window = record { state = suc seen; window = window; count = some (length window) }

reads :
    on_socket_read take_all 0 fresh_net (1 ∷ 2 ∷ [])
    ≡ some (record { owner = 1; net = fresh_net; acts = [] })
unfolding on_socket_read finish_read consume_loop consume_rounds after_call take_all
reads = refl

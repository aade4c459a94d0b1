-- ===== src/Program/Link/Tests.antt =====
-- A link on its way: to a lookup, to a connection attempt, to a connection.
use epic_miner.Common.{
  ℕ, Bool, ◌-◌, take, ◌==◌, arith, length, subst, ◌≡◌, refl, true, false, List, [], ◌∷◌, ◌++◌,
  replicate, Option, none, some, codes,
}
use epic_miner.Json.{Value}
use epic_miner.Net.Address.{AddrInfo, choose, inet, ipv4_of, ipv6_of, pick}
use epic_miner.Net.Send.{
  Net, send_size, uv_write, uv_read_start, SendBuf, UvError, do_shutdown, get_send_buffer,
  first_inactive, activate, finalize_socket_write, finalize_buf, fill_buf,
}
use epic_miner.Net.Cycle.{on_dns_resolved_st, on_dns_resolved, on_connnect_st}
use epic_miner.Pool.State.{
  Pool, PoolState, do_connect, net_on_connect, net_on_error, do_login_call, fingerprint_refused,
  registered,
}
use epic_miner.Job.{invalid_miner_id}
use epic_miner.Pool.Calls.{register_call, login}
use epic_miner.Pool.Wire.{login_text}
use epic_miner.Pool.Samples.{sample_pool}
use epic_miner.Program.Link.{
  Link, Out, to_uv, LinkReaction, Moment, of_net, request, requests, pool_does, notified,
  notify_all, net_does, connect, send_result, dns_done, connect_done,
}
use epic_miner.Program.Link.Cycle.{World, after, connects, resolves, Reachable, starts, steps}
use epic_miner.Program.Link.Cycle.Laws.{IsSound}
use epic_miner.Program.Link.Cycle.Sound.{Reachable-IsSound}
use epic_miner.Program.Link.Cycle.Ends.{at_once}
use epic_miner.Program.Link.Cycle.Runs.{Runs}
use epic_miner.Program.Link.Cycle.Lost.{refused_lem}

-- A parser that finds no document.
abbrev no_parse : List ℕ → List ℕ × Option Value
no_parse text = (text, none)

abbrev free_buf : SendBuf
free_buf = record { bytes = []; active = false; writing = false }

-- An earlier connection has ended.
abbrev new_world : World
new_world = record {
  link = record {
    pool = record sample_pool { state = PoolState.idle };
    net = record {
      send_bufs = replicate 4 free_buf;
      received = [];
      shutting_down = false;
      resolving = false;
      connecting = false;
      open_sock = false;
      closing = false;
    };
  };
  initialised = true;
  established = false;
  shutdown_pending = false;
  close_pending = false;
}

abbrev m : Moment
m = record { now = 1000; stack = 0 }

-- Where a handler leaves the link, what it asks for, and whether it ends.
abbrev link_of : LinkReaction → Link
link_of none = new_world.link
link_of (some (l, outs)) = l

abbrev outs_of : LinkReaction → List Out
outs_of none = []
outs_of (some (l, outs)) = outs

abbrev ends : LinkReaction → Bool
ends none = false
ends (some (l, outs)) = true

ends_at : (r : LinkReaction) → ends r ≡ true → r ≡ some (link_of r, outs_of r)
ends_at none e = absurd (cc (e))
ends_at (some (l, outs)) e = refl

abbrev looked_up : LinkReaction
looked_up = connect m new_world.link

abbrev w1 : World
w1 = after new_world (link_of looked_up)

starts_new : Reachable no_parse new_world
starts_new = starts new_world (record {
  pool_idle = refl;
  not_resolving = refl;
  not_connecting = refl;
  not_open = refl;
  not_closing = refl;
  not_down = refl;
  not_established = refl;
  no_shutdown = refl;
  not_pending = refl;
})

looks_up : ends looked_up ≡ true
unfolding connect do_connect pool_does requests request of_net epic_miner.Net.Cycle.do_connect
looks_up = refl

reaches1 : Reachable no_parse w1
reaches1 =
    steps new_world w1 starts_new (
      connects new_world m (link_of looked_up) (outs_of looked_up) refl
        (ends_at looked_up looks_up))

Reachable-IsSound_example : IsSound w1
Reachable-IsSound_example = Reachable-IsSound no_parse w1 reaches1

abbrev address : AddrInfo
address = record { family = inet; addr = 7 }

abbrev tried : LinkReaction
tried = dns_done m none (address ∷ []) 0 w1.link

abbrev w2 : World
w2 = after w1 (link_of tried)

is_resolving : w1.link.net.resolving ≡ true
unfolding connect do_connect pool_does requests request of_net epic_miner.Net.Cycle.do_connect
is_resolving = refl

chosen : choose (address ∷ []) 0 ≡ some address
unfolding choose ipv4_of ipv6_of pick
chosen = refl

tries : ends tried ≡ true
unfolding connect do_connect pool_does requests request of_net epic_miner.Net.Cycle.do_connect
    dns_done on_dns_resolved_st on_dns_resolved choose ipv4_of ipv6_of pick net_does notify_all
    notified
tries = refl

reaches2 : Reachable no_parse w2
reaches2 = steps w1 w2 reaches1 (
    resolves w1 m none (address ∷ []) 0 (link_of tried) (outs_of tried) is_resolving
      (λ up down. refl) (ends_at tried tries))

is_connecting : w2.link.net.connecting ≡ true
unfolding connect do_connect pool_does requests request of_net epic_miner.Net.Cycle.do_connect
    dns_done on_dns_resolved_st on_dns_resolved choose ipv4_of ipv6_of pick net_does notify_all
    notified
is_connecting = refl

abbrev failure : UvError
failure = record { is_eof = false; text = codes "refused" }

abbrev hang_up : UvError
hang_up = record { is_eof = true; text = codes "end of file" }

abbrev turned_away : LinkReaction
turned_away = connect_done m (some failure) w2.link

is_refused : ends turned_away ≡ true
unfolding connect do_connect pool_does requests request of_net epic_miner.Net.Cycle.do_connect
    dns_done on_dns_resolved_st on_dns_resolved choose ipv4_of ipv6_of pick net_does notify_all
    notified connect_done on_connnect_st net_on_error do_shutdown
is_refused = refl

abbrev lost_world : World
lost_world = after w2 (link_of turned_away)

refused_lem_example :
    (lost_world.established ≡ false) × (dns_done m none (address ∷ []) 0 lost_world.link ≡ none)
refused_lem_example =
    refused_lem no_parse w2 lost_world m m failure (link_of turned_away) (outs_of turned_away)
      (address ∷ []) 0 address reaches2 is_connecting (ends_at turned_away is_refused)
      (at_once lost_world) chosen

abbrev unknown : LinkReaction
unknown = dns_done m (some failure) [] 0 w1.link

abbrev stranded_world : World
stranded_world = after w1 (link_of unknown)

abbrev filled : List ℕ → SendBuf
filled text = fill_buf (take (send_size - 1) text ++ 0 ∷ []) (activate free_buf)

-- A text that is not empty is sent where the first buffer is free.
sends_login :
    (n : Net) (text : List ℕ) (rest : List SendBuf)
    → (length text == 0) ≡ false
    → epic_miner.Net.Send.send_formatted (record n { send_bufs = free_buf ∷ rest }) text
      ≡ some (
        record n { send_bufs = record (filled text) { writing = true } ∷ rest },
        uv_write 0 (filled text).bytes (length text) ∷ [],
      )
unfolding epic_miner.Net.Send.send_formatted get_send_buffer first_inactive activate
    finalize_socket_write finalize_buf fill_buf
sends_login n text rest some_text = rw (some_text) refl

some_login : (u p r : List ℕ) (id : ℕ) → (length (login_text u p r id) == 0) ≡ false
unfolding login_text
some_login u p r id = ground arith

greeting :
    (p : Pool) (n : Net) (rest : List SendBuf)
    → p.tls ≡ false
    → (l' : Link) × (outs : List Out) × (connect_done m none
          (record { pool = p; net = record n { send_bufs = free_buf ∷ rest } })
        ≡ some (l', outs))
      × (l'.net.shutting_down ≡ n.shutting_down)
      × (l'.net.resolving ≡ n.resolving)
unfolding connect_done on_connnect_st net_does notify_all notified pool_does requests request of_net
    net_on_connect do_login_call fingerprint_refused
greeting p n rest plain =
    let start : Pool = record p { state = PoolState.connected } in
    let call =
      registered (register_call start.calls login invalid_miner_id m.now) m.stack start.calls in
    let text = login_text p.username p.password p.rigid call.0 in
    let connected_net : Net = record n { connecting = false } in
    let sent =
      sends_login connected_net text rest (some_login p.username p.password p.rigid call.0) in
    (
      record {
        pool = record start { calls = call.1 };
        net = record connected_net { send_bufs = record (filled text) { writing = true } ∷ rest };
      },
      to_uv (uv_write 0 (filled text).bytes (length text)) ∷ to_uv uv_read_start ∷ [],
      rw (plain) (rw (sent, epic_miner.Program.Link.of_net) refl),
      refl,
      refl,
    )

is_plain : w2.link.pool.tls ≡ false
unfolding connect do_connect pool_does requests request of_net epic_miner.Net.Cycle.do_connect
    dns_done on_dns_resolved_st on_dns_resolved choose ipv4_of ipv6_of pick net_does notify_all
    notified
is_plain = refl

is_free : record w2.link.net { send_bufs = free_buf ∷ replicate 3 free_buf } ≡ w2.link.net
unfolding connect do_connect pool_does requests request of_net epic_miner.Net.Cycle.do_connect
    dns_done on_dns_resolved_st on_dns_resolved choose ipv4_of ipv6_of pick net_does notify_all
    notified
is_free = refl

-- The connection, with the greeting sent.
greeted :
    (l' : Link) × (outs : List Out) × (connect_done m none w2.link ≡ some (l', outs))
    × (l'.net.shutting_down ≡ w2.link.net.shutting_down)
    × (l'.net.resolving ≡ w2.link.net.resolving)
greeted =
    subst
      (λ (n : Net).
        (l' : Link) × (outs : List Out) × (connect_done m none
            (record { pool = w2.link.pool; net = n })
          ≡ some (l', outs))
        × (l'.net.shutting_down ≡ w2.link.net.shutting_down)
        × (l'.net.resolving ≡ w2.link.net.resolving))
      is_free (greeting w2.link.pool w2.link.net (replicate 3 free_buf) is_plain)

abbrev w3 : World
w3 = after (record w2 { established = true }) greeted.0

-- ===== src/Program/Link/Cycle/Sound.antt =====
-- Each step keeps what Laws states.
use epic_miner.Common.{
  ℕ, true, false, ◌≡◌, ap, subst, inl, inr, List, [], ◌∷◌, Option, none, some, Option-cases, arith,
  codes,
}
use epic_miner.Json.{Value}
use epic_miner.Net.Address.{AddrInfo, choose}
use epic_miner.Net.Send.{
  Net, notify_error, notify_connect, uv_read_start, UvError, on_socket_closed,
}
use epic_miner.Net.Cycle.{on_dns_resolved, on_dns_resolved_st, on_connnect_st, on_shutdown_st}
use epic_miner.Pool.State.{
  Pool, idle, connecting, connected, do_connect, net_on_connect, net_on_error, net_on_close,
  do_login_call, fingerprint_refused,
}
use epic_miner.Program.Link.{
  Link, Out, to_uv, Moment, of_net, request, requests, pool_does, notified, notify_all, net_does,
  connect, dns_done, connect_done, shutdown_done, close_done,
}
use epic_miner.Program.Link.Cycle.{
  World, after, Step, connects, times_out, sends, resolves, establishes, refuses, reads, fails,
  writes, shuts, closes, Reachable, starts, steps,
}
use epic_miner.Program.Link.Cycle.Kept.{Kept, pool_does-Kept, then-inv}
use epic_miner.Program.Link.Cycle.Laws.{IsSound, IsNew-IsSound, Moved-IsSound}
use epic_miner.Program.Link.Cycle.Moves.{
  reads_moves, times_out_moves, sends_moves, fails_moves, writes_moves,
}

-- A connection that the pool asks for is one that the interface resolves.
pub connects_resolves :
    (m : Moment) (l l' : Link) (outs : List Out)
    → connect m l ≡ some (l', outs)
    → (l'.pool.state ≡ connecting) × (l'.net.resolving ≡ true) × Kept l.net l'.net
unfolding connect do_connect pool_does requests request of_net epic_miner.Net.Cycle.do_connect
connects_resolves m l l' outs e =
    let (p, kept) = pool_does-Kept (do_connect l.pool m.now) l l' outs e in
    (ap (λ (x : Pool). x.state) p, ground arith, kept)

connects_keeps :
    (w : World) (m : Moment) (l : Link) (outs : List Out)
    → IsSound w
    → w.link.pool.state ≡ idle
    → connect m w.link ≡ some (l, outs)
    → IsSound (after w l)
connects_keeps w m l outs sound rest e =
    let (p, resolving, kept) = connects_resolves m w.link l outs e in ground (arith, sound, kept)

pub error_keeps :
    (m : Moment) (text : List ℕ) (l l' : Link) (outs : List Out)
    → notify_all m (notify_error text ∷ []) l ≡ some (l', outs)
    → (l'.pool.state ≡ idle) × Kept l.net l'.net
unfolding notify_all notified net_on_error
error_keeps m text l l' outs e =
    let (k, first, more, a, b) =
      then-inv (notified m (notify_error text) l) (λ x. some (x, [])) l' outs e in
    let (p, kept) = pool_does-Kept (net_on_error l.pool text) l k first a in
    let same : k ≡ l' = cc (b) in
    subst (λ (x : Link). (x.pool.state ≡ idle) × Kept l.net x.net) same
      (ap (λ (x : Pool). x.state) p, kept)

pub connect_keeps :
    (m : Moment) (l l' : Link) (outs : List Out)
    → notify_all m (notify_connect none ∷ uv_read_start ∷ []) l ≡ some (l', outs)
    → (l'.pool.state ≡ connected) × Kept l.net l'.net
unfolding notify_all notified net_on_connect do_login_call fingerprint_refused
connect_keeps m l l' outs e =
    let (k, first, more, a, b) =
      then-inv (notified m (notify_connect none) l) (λ x. some (x, to_uv uv_read_start ∷ [])) l'
        outs e in
    let (p, kept) = pool_does-Kept (net_on_connect l.pool none m.stack m.now) l k first a in
    let same : k ≡ l' = cc (b) in
    subst (λ (x : Link). (x.pool.state ≡ connected) × Kept l.net x.net) same
      (ap (λ (x : Pool). x.state) p, kept)

-- The address is found, or the pool is idle.
resolves_keeps :
    (w : World) (m : Moment) (err : Option UvError) (found : List AddrInfo) (r : ℕ) (l : Link)
    (outs : List Out)
    → IsSound w
    → dns_done m err found r w.link ≡ some (l, outs)
    → IsSound (after w l)
unfolding dns_done net_does on_dns_resolved_st on_dns_resolved notify_all notified
resolves_keeps w m none found r l outs sound e = elim (Option-cases (choose found r)) [
  | inl missing ↦
      let text = codes "DNS Error: No IPv4 or IPv6 records" in
      let n : Net = record w.link.net { resolving = false } in
      let (rest, kept) =
        error_keeps m text (record w.link { net = n }) l outs (ground (arith, missing)) in
      ground (arith, sound, kept)
  | inr (a, chosen) ↦ ground (arith, chosen, sound)
]
resolves_keeps w m (some err) found r l outs sound e =
    let n : Net = record w.link.net { resolving = false } in
    let (rest, kept) = error_keeps m err.text (record w.link { net = n }) l outs e in
    ground (arith, sound, kept)

establishes_keeps :
    (w : World) (m : Moment) (l : Link) (outs : List Out)
    → IsSound w
    → w.link.net.connecting ≡ true
    → connect_done m none w.link ≡ some (l, outs)
    → IsSound (after (record w { established = true }) l)
unfolding connect_done net_does on_connnect_st
establishes_keeps w m l outs sound up e =
    let (at, kept) =
      connect_keeps m (record w.link { net = record w.link.net { connecting = false } }) l outs e in
    ground (arith, sound, kept)

refuses_keeps :
    (w : World) (m : Moment) (err : UvError) (l : Link) (outs : List Out)
    → IsSound w
    → w.link.net.connecting ≡ true
    → connect_done m (some err) w.link ≡ some (l, outs)
    → IsSound (after w l)
unfolding connect_done net_does on_connnect_st
refuses_keeps w m err l outs sound up e =
    let (rest, kept) =
      error_keeps m err.text (record w.link { net = record w.link.net { connecting = false } }) l
        outs e in
    ground (arith, sound, kept)

shuts_keeps :
    (w : World) (m : Moment) (l : Link) (outs : List Out)
    → IsSound w
    → w.shutdown_pending ≡ true
    → shutdown_done m w.link ≡ some (l, outs)
    → IsSound (record w { link = l; shutdown_pending = false; close_pending = true })
unfolding shutdown_done on_shutdown_st net_does notify_all notified
shuts_keeps w m l outs sound up e = ground (arith, sound)

closes_keeps :
    (w : World) (m : Moment) (l : Link) (outs : List Out)
    → IsSound w
    → w.close_pending ≡ true
    → close_done m w.link ≡ some (l, outs)
    → IsSound (record w { link = l; established = false; close_pending = false })
unfolding close_done on_socket_closed net_does notify_all notified pool_does requests request
    net_on_close
closes_keeps w m l outs sound up e = ground (arith, sound)

module _ (parse_insitu : List ℕ → List ℕ × Option Value) where
  pub Step-IsSound : (w w' : World) → Step parse_insitu w w' → IsSound w → IsSound w'
  Step-IsSound _ _ (connects w m l outs rest e) sound = connects_keeps w m l outs sound rest e
  Step-IsSound _ _ (times_out w m l outs live e) sound =
      Moved-IsSound w l sound (times_out_moves w m l outs e)
  Step-IsSound _ _ (sends w m res l outs e) sound =
      Moved-IsSound w l sound (sends_moves w m res l outs e)
  Step-IsSound _ _ (resolves w m err found r l outs up fit e) sound =
      resolves_keeps w m err found r l outs sound e
  Step-IsSound _ _ (establishes w m l outs up e) sound = establishes_keeps w m l outs sound up e
  Step-IsSound _ _ (refuses w m err l outs up e) sound = refuses_keeps w m err l outs sound up e
  Step-IsSound _ _ (reads w m fresh l outs up e) sound =
      Moved-IsSound w l sound (reads_moves parse_insitu w m fresh l outs up e)
  Step-IsSound _ _ (fails w m err l outs up e) sound =
      Moved-IsSound w l sound (fails_moves w m err l outs e)
  Step-IsSound _ _ (writes w m idx err l outs up e) sound =
      Moved-IsSound w l sound (writes_moves w m idx err l outs e)
  Step-IsSound _ _ (shuts w m l outs up e) sound = shuts_keeps w m l outs sound up e
  Step-IsSound _ _ (closes w m l outs up e) sound = closes_keeps w m l outs sound up e

  -- In every state that a link reaches from a pool that was never connected, by the executor's
  -- calls and libuv's callbacks: a pool that is connecting has a lookup or a connection attempt under
  -- way; a pool that is connected or has a job has an established connection; an established
  -- connection and a connection attempt hold the socket and exclude each other; r_shutdown is in use
  -- only while the connection is shut down; and where the callback of uv_shutdown or of uv_close is
  -- owed, an established connection is being shut down, and only one of the two is owed.
  pub Reachable-IsSound : (w : World) → Reachable parse_insitu w → IsSound w
  Reachable-IsSound _ (starts w new) = IsNew-IsSound w new
  Reachable-IsSound _ (steps w w' before step) = Step-IsSound w w' step (Reachable-IsSound w before)

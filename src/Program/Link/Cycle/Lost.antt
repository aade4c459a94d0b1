-- ===== src/Program/Link/Cycle/Lost.antt =====
-- A link whose connection attempt was refused.
use epic_miner.Common.{
  ℕ, true, false, ◌≡◌, inl, inr, List, Option, none, some, Option-cases, arith, codes,
}
use epic_miner.Json.{Value}
use epic_miner.Net.Address.{AddrInfo, choose}
use epic_miner.Net.Send.{Net, UvError}
use epic_miner.Net.Cycle.{on_dns_resolved, on_dns_resolved_st, on_connnect_st}
use epic_miner.Program.Link.{Link, Out, Moment, net_does, connect, dns_done, connect_done}
use epic_miner.Program.Link.Cycle.{
  World, after, Step, connects, times_out, sends, resolves, establishes, refuses, reads, fails,
  writes, shuts, closes, Reachable,
}
use epic_miner.Program.Link.Cycle.Laws.{IsSound, Moved}
use epic_miner.Program.Link.Cycle.Moves.{
  times_out_moves, sends_moves, reads_moves, fails_moves, writes_moves,
}
use epic_miner.Program.Link.Cycle.Sound.{
  error_keeps, connects_resolves, Step-IsSound, Reachable-IsSound,
}
use epic_miner.Program.Link.Cycle.Ends.{Later, at_once, further, Later-IsSound}

-- A socket that was opened for a connection that never came.
record IsLost (w : World) : Type 0 where
  left_open : w.link.net.open_sock ≡ true
  not_connecting : w.link.net.connecting ≡ false
  not_established : w.established ≡ false

Moved-IsLost : (w : World) (l : Link) → IsLost w → Moved w l → IsLost (after w l)
Moved-IsLost w l lost moved = ground (arith, lost, moved, moved.kept)

lost_aborts :
    (w : World) (m : Moment) (found : List AddrInfo) (r : ℕ) (a : AddrInfo)
    → IsLost w
    → choose found r ≡ some a
    → dns_done m none found r w.link ≡ none
unfolding dns_done on_dns_resolved_st on_dns_resolved net_does
lost_aborts w m found r a lost e = ground (arith, lost)

resolves-IsLost :
    (w : World) (m : Moment) (err : Option UvError) (found : List AddrInfo) (r : ℕ) (l : Link)
    (outs : List Out)
    → IsLost w
    → dns_done m err found r w.link ≡ some (l, outs)
    → IsLost (after w l)
unfolding dns_done net_does on_dns_resolved_st on_dns_resolved
resolves-IsLost w m none found r l outs lost e = elim (Option-cases (choose found r)) [
  | inl missing ↦
      let text = codes "DNS Error: No IPv4 or IPv6 records" in
      let n : Net = record w.link.net { resolving = false } in
      let (rest, kept) =
        error_keeps m text (record w.link { net = n }) l outs (ground (arith, missing)) in
      ground (arith, lost, kept)
  | inr (a, chosen) ↦ absurd (ground (arith, lost_aborts w m found r a lost chosen))
]
resolves-IsLost w m (some err) found r l outs lost e =
    let n : Net = record w.link.net { resolving = false } in
    let (rest, kept) = error_keeps m err.text (record w.link { net = n }) l outs e in
    ground (arith, lost, kept)

connects-IsLost :
    (w : World) (m : Moment) (l : Link) (outs : List Out)
    → IsLost w
    → connect m w.link ≡ some (l, outs)
    → IsLost (after w l)
connects-IsLost w m l outs lost e =
    let (p, resolving, kept) = connects_resolves m w.link l outs e in ground (arith, lost, kept)

refused-IsLost :
    (w : World) (m : Moment) (err : UvError) (l : Link) (outs : List Out)
    → IsSound w
    → w.link.net.connecting ≡ true
    → connect_done m (some err) w.link ≡ some (l, outs)
    → IsLost (after w l)
unfolding connect_done net_does on_connnect_st
refused-IsLost w m err l outs sound up e =
    let (rest, kept) =
      error_keeps m err.text (record w.link { net = record w.link.net { connecting = false } }) l
        outs e in
    ground (arith, sound, kept)

module _ (parse_insitu : List ℕ → List ℕ × Option Value) where
  Step-IsLost : (w w' : World) → Step parse_insitu w w' → IsSound w → IsLost w → IsLost w'
  Step-IsLost _ _ (connects w m l outs rest e) sound lost = connects-IsLost w m l outs lost e
  Step-IsLost _ _ (times_out w m l outs live e) sound lost =
      Moved-IsLost w l lost (times_out_moves w m l outs e)
  Step-IsLost _ _ (sends w m res l outs e) sound lost =
      Moved-IsLost w l lost (sends_moves w m res l outs e)
  Step-IsLost _ _ (resolves w m err found r l outs up fit e) sound lost =
      resolves-IsLost w m err found r l outs lost e
  Step-IsLost _ _ (establishes w m l outs up e) sound lost = absurd (ground (arith, lost))
  Step-IsLost _ _ (refuses w m err l outs up e) sound lost = absurd (ground (arith, lost))
  Step-IsLost _ _ (reads w m fresh l outs up e) sound lost =
      Moved-IsLost w l lost (reads_moves parse_insitu w m fresh l outs up e)
  Step-IsLost _ _ (fails w m err l outs up e) sound lost =
      Moved-IsLost w l lost (fails_moves w m err l outs e)
  Step-IsLost _ _ (writes w m idx err l outs up e) sound lost =
      Moved-IsLost w l lost (writes_moves w m idx err l outs e)
  Step-IsLost _ _ (shuts w m l outs up e) sound lost = absurd (ground (arith, sound, lost))
  Step-IsLost _ _ (closes w m l outs up e) sound lost = absurd (ground (arith, sound, lost))

  Later-IsLost : (w w' : World) → Later parse_insitu w w' → IsSound w → IsLost w → IsLost w'
  Later-IsLost _ _ (at_once w) sound lost = lost
  Later-IsLost _ _ (further w w' w'' before step) sound lost =
      Step-IsLost w' w'' step (Later-IsSound parse_insitu w w' before sound)
        (Later-IsLost w w' before sound lost)

  -- Once a connection attempt is refused, in every later state no connection is established, and where
  -- the lookup of the next attempt finds an address, on_dns_resolved ends at its failed assertion.
  pub refused_lem :
      (w w' : World) (m m' : Moment) (err : UvError) (l : Link) (outs : List Out)
      (found : List AddrInfo) (r : ℕ) (a : AddrInfo)
      → Reachable parse_insitu w
      → w.link.net.connecting ≡ true
      → connect_done m (some err) w.link ≡ some (l, outs)
      → Later parse_insitu (after w l) w'
      → choose found r ≡ some a
      → (w'.established ≡ false) × (dns_done m' none found r w'.link ≡ none)
  refused_lem w w' m m' err l outs found r a reach up e later chosen =
      let sound = Reachable-IsSound parse_insitu w reach in
      let after_sound =
        Step-IsSound parse_insitu w (after w l) (refuses w m err l outs up e) sound in
      let lost =
        Later-IsLost (after w l) w' later after_sound (refused-IsLost w m err l outs sound up e) in
      (lost.not_established, lost_aborts w' m' found r a lost chosen)

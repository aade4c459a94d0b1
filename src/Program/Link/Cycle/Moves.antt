-- ===== src/Program/Link/Cycle/Moves.antt =====
-- The handlers that leave the interface's flags in order, as moves of the link.
use epic_miner.Common.{
  ℕ, true, not, ◌&&◌, get_elem?, ◌≡◌, refl, ap, subst, inl, inr, List, [], ◌∷◌, Option, none, some,
  Option-cases, Bool-cases, arith,
}
use epic_miner.Json.{Value}
use epic_miner.Job.{MinerResult}
use epic_miner.Net.Send.{
  Net, NetAction, NetReaction, notify_error, uv_shutdown, UvError, on_socket_write_st,
  on_socket_write_complete, on_socket_error, fail_with, do_shutdown,
}
use epic_miner.Pool.State.{Pool, Reaction, check_call_timeouts, do_send_result, net_on_error}
use epic_miner.Program.Link.{
  Link, Out, Moment, pool_does, notify_all, net_does, check_timeouts, send_result, write_done,
  read_failed, read_done,
}
use epic_miner.Program.Link.Cycle.{World, after}
use epic_miner.Program.Link.Cycle.Kept.{
  Kept, Kept-trans, Rests, Quiet, pool_does-Kept, notify_all-Rests, do_shutdown-Kept,
}
use epic_miner.Program.Link.Cycle.Reads.{read_done-Kept}
use epic_miner.Program.Link.Cycle.Laws.{Moved}

pub net_does-inv :
    (m : Moment) (r : NetReaction) (l l' : Link) (outs : List Out)
    → net_does m r l ≡ some (l', outs)
    → (n : Net) × (acts : List NetAction) × (r ≡ some (n, acts))
      × (notify_all m acts (record l { net = n }) ≡ some (l', outs))
unfolding net_does
net_does-inv m none l l' outs e = absurd (cc (e))
net_does-inv m (some (n, acts)) l l' outs e = (n, acts, refl, e)

pub sends_kept :
    (p : Pool) (res : MinerResult) (stack a b : ℕ)
    → (do_send_result p res stack a b).0.state ≡ p.state
unfolding do_send_result
sends_kept p res stack a b = ground arith

pub check_call_timeouts-Rests : (p : Pool) (now : ℕ) → Rests p (check_call_timeouts p now).0
unfolding check_call_timeouts net_on_error
check_call_timeouts-Rests p now = ground arith

pub do_shutdown-Quiet :
    (n n' : Net) (acts : List NetAction) → do_shutdown n ≡ some (n', acts) → Quiet acts
unfolding do_shutdown
do_shutdown-Quiet n n' acts e = elim (Bool-cases n.shutting_down) [
  | inr up ↦ elim (Bool-cases n.closing) [
    | inr rest ↦
        let all : uv_shutdown ∷ [] ≡ acts = ground (arith, up, rest) in subst Quiet all (refl, tt)
    | inl busy ↦ absurd (ground (arith, up, busy))
  ]
  | inl down ↦ let all : [] ≡ acts = ground (arith, down) in subst Quiet all tt
]

pub fail_with-Kept :
    (n n' : Net) (err : List ℕ) (acts : List NetAction)
    → fail_with n err ≡ some (n', acts)
    → Kept n n' × Quiet acts
unfolding fail_with
fail_with-Kept n n' err acts e = elim (Option-cases (do_shutdown n)) [
  | inl stuck ↦ absurd (ground (arith, stuck))
  | inr ((k, more), down) ↦
      let same : k ≡ n' = ground (arith, down) in
      let all : notify_error err ∷ more ≡ acts = ground (arith, down) in
      (
        subst (λ x. Kept n x) same (do_shutdown-Kept n k more down),
        subst Quiet all (refl, do_shutdown-Quiet n k more down),
      )
]

pub on_socket_error-Kept :
    (n n' : Net) (err : UvError) (acts : List NetAction)
    → on_socket_error n err ≡ some (n', acts)
    → Kept n n' × Quiet acts
unfolding on_socket_error
on_socket_error-Kept n n' err acts e = elim (Bool-cases (err.is_eof && not n.shutting_down)) [
  | inr fail ↦ fail_with-Kept n n' err.text acts (ground (arith, fail))
  | inl eof ↦
      let down : do_shutdown n ≡ some (n', acts) = ground (arith, eof) in
      (do_shutdown-Kept n n' acts down, do_shutdown-Quiet n n' acts down)
]

pub complete-Kept :
    (n n' : Net) (idx : ℕ) (acts : List NetAction)
    → on_socket_write_complete n idx ≡ some (n', acts)
    → Kept n n' × Quiet acts
unfolding on_socket_write_complete
complete-Kept n n' idx acts e =
    let all : [] ≡ acts = ground (arith, Option-cases (get_elem? n.send_bufs idx)) in
    (ground (arith, Option-cases (get_elem? n.send_bufs idx)), subst Quiet all tt)

pub write_done-Kept :
    (n n' : Net) (idx : ℕ) (err : Option UvError) (acts : List NetAction)
    → on_socket_write_st n idx err ≡ some (n', acts)
    → Kept n n' × Quiet acts
unfolding on_socket_write_st
write_done-Kept n n' idx none acts e = complete-Kept n n' idx acts e
write_done-Kept n n' idx (some err) acts e = on_socket_error-Kept n n' err acts e

-- A callback of the socket that only notifies of errors.
pub reaction_moves :
    (w : World) (m : Moment) (r : NetReaction) (l : Link) (outs : List Out)
    → ((n : Net) (acts : List NetAction) → r ≡ some (n, acts) → Kept w.link.net n × Quiet acts)
    → net_does m r w.link ≡ some (l, outs)
    → Moved w l
reaction_moves w m r l outs kept e =
    let (n, acts, ends, after) = net_does-inv m r w.link l outs e in
    let (first, quiet) = kept n acts ends in
    let (rests, more) = notify_all-Rests m acts (record w.link { net = n }) l outs quiet after in
    record { kept = Kept-trans w.link.net n l.net first more; state = ground arith }

-- What the executor asks of a pool that is not idle leaves the state, or makes it idle.
pub asks_moves :
    (w : World) (r : Reaction) (l : Link) (outs : List Out)
    → Rests w.link.pool r.0
    → pool_does r w.link ≡ some (l, outs)
    → Moved w l
asks_moves w r l outs rests e =
    let (p, kept) = pool_does-Kept r w.link l outs e in
    let same = ap (λ (x : Pool). x.state) p in record { kept = kept; state = ground arith }

pub reads_moves :
    (parse_insitu : List ℕ → List ℕ × Option Value) (w : World) (m : Moment) (fresh : List ℕ)
    (l : Link) (outs : List Out)
    → w.established ≡ true
    → read_done parse_insitu m fresh w.link ≡ some (l, outs)
    → Moved w l
reads_moves parse_insitu w m fresh l outs up e =
    let (grows, kept) = read_done-Kept parse_insitu m fresh w.link l outs e in
    record { kept = kept; state = ground arith }

pub times_out_moves :
    (w : World) (m : Moment) (l : Link) (outs : List Out)
    → check_timeouts m w.link ≡ some (l, outs)
    → Moved w l
unfolding check_timeouts
times_out_moves w m l outs e =
    asks_moves w (check_call_timeouts w.link.pool m.now) l outs
      (check_call_timeouts-Rests w.link.pool m.now) e

pub sends_moves :
    (w : World) (m : Moment) (res : MinerResult) (l : Link) (outs : List Out)
    → send_result m res w.link ≡ some (l, outs)
    → Moved w l
unfolding send_result
sends_moves w m res l outs e =
    asks_moves w (do_send_result w.link.pool res m.stack m.now m.now) l outs
      (inl (sends_kept w.link.pool res m.stack m.now m.now)) e

pub fails_moves :
    (w : World) (m : Moment) (err : UvError) (l : Link) (outs : List Out)
    → read_failed m err w.link ≡ some (l, outs)
    → Moved w l
unfolding read_failed
fails_moves w m err l outs e =
    reaction_moves w m (on_socket_error w.link.net err) l outs
      (λ n acts h. on_socket_error-Kept w.link.net n err acts h) e

pub writes_moves :
    (w : World) (m : Moment) (idx : ℕ) (err : Option UvError) (l : Link) (outs : List Out)
    → write_done m idx err w.link ≡ some (l, outs)
    → Moved w l
unfolding write_done
writes_moves w m idx err l outs e =
    reaction_moves w m (on_socket_write_st w.link.net idx err) l outs
      (λ n acts h. write_done-Kept w.link.net n idx err acts h) e

-- ===== src/Program/Link/Cycle/Reads.antt =====
-- What a read leaves of the interface's flags, and of the pool's state.
use epic_miner.Common.{
  ℕ, zero, suc, Bool, true, false, ◌||◌, ◌≡◌, refl, sym, ap, subst, ◌∙◌, ◌⊎◌, inl, inr, List, [],
  ◌∷◌, ◌++◌, ◌+◌, Option, none, some, ltb, ◌==◌, length, drop, take, Option-cases, Bool-cases,
  arith, codes,
}
use epic_miner.Json.{Value, Members, as_object}
use epic_miner.Net.Receive.{Consumer, Consumed, Drained, consume_loop, consume_rounds, after_call}
use epic_miner.Net.Send.{Net, NetAction, do_shutdown}
use epic_miner.Net.Cycle.{Read, on_socket_read, finish_read}
use epic_miner.Pool.State.{Pool, PoolState, idle, Action, Reaction, net_on_error}
use epic_miner.Pool.Messages.{Handled, process_json_doc}
use epic_miner.Pool.Messages.Effects.{Effect, refused, gains_job, result_reply, answered, Handles}
use epic_miner.Pool.Messages.Laws.{process_json_doc-Handles}
use epic_miner.Pool.Receive.{my_memrchr, Received, finish, receive_line, net_on_data_recv}
use epic_miner.Program.Link.{
  Link, LinkReaction, Out, to_uv, Moment, pool_does, recv, read_finish, read_done,
}
use epic_miner.Program.Link.Cycle.Kept.{
  Kept, Kept-trans, do_shutdown-Kept, pool_does-Kept, then-inv,
}

-- Messages leave the pool's state, make it idle, or give it a job.
abbrev pub Grows : PoolState → PoolState → Type 0
Grows a b = (b ≡ a) ⊎ ((b ≡ idle) ⊎ (b ≡ PoolState.has_job))

Grows-trans : (a b c : PoolState) → Grows a b → Grows b c → Grows a c
Grows-trans a b c x y = ground arith

Effect-Grows :
    (p p' : Pool) (doc : Members) (now : ℕ) (acts : List Action) (d : Bool)
    → Effect p doc now p' acts d
    → Grows p.state p'.state
Effect-Grows p p' doc now acts d (refused err why a b kept) = inl kept
Effect-Grows p p' doc now acts d (gains_job param params job src has fills a b now_job is) =
    inr (inr now_job)
Effect-Grows p p' doc now acts d (result_reply id value err ans a b kept same calls) = inl kept
Effect-Grows p p' doc now acts d (answered id value ans a b kept same calls) = inl kept

finish-Grows :
    (p : Pool) (doc : Members) (now : ℕ) (buffer : List ℕ) (len : ℕ) (h : Handled) (r : Received)
    → Handles p doc now h
    → finish buffer len h ≡ some r
    → Grows p.state r.reaction.0.state
unfolding finish
finish-Grows p doc now buffer len none r eff e = absurd (cc (e))
finish-Grows p doc now buffer len (some (reaction, done)) r eff e =
    let same : reaction ≡ r.reaction = ground arith in
    subst (λ (x : Reaction). Grows p.state x.0.state) same
      (Effect-Grows p reaction.0 doc now reaction.1 done eff)

-- A call of the consumer ends the loop with its state, or the loop goes on.
after_call-inv :
    {S : Type 0} (before window : List ℕ) (c : Consumed S)
    (again : List ℕ → List ℕ → Option (Drained S)) (d : Drained S)
    → after_call before window c again ≡ some d
    → (d.state ≡ c.state) ⊎ ((b : List ℕ) × (r : List ℕ) × (again b r ≡ some d))
unfolding after_call
after_call-inv before window c again d e = elim (Option-cases c.count) [
  | inl stop ↦ inl (ground (arith, stop))
  | inr (cd, some_bytes) ↦ elim (Bool-cases (ltb (length window) cd)) [
    | inl over ↦ absurd (ground (arith, some_bytes, over))
    | inr fits ↦ elim (Bool-cases (cd == 0 || length (drop cd c.window) == 0)) [
      | inl last ↦ inl (ground (arith, some_bytes, fits, last))
      | inr further ↦
          inr (
            before ++ take cd c.window,
            drop cd c.window,
            ground (arith, some_bytes, fits, further),
          )
    ]
  ]
]

module _ {S : Type 0} (P : S → Type 0) (consume : Consumer S)
    (keeps : (s : S) (window : List ℕ) → P s → P (consume s window).state) where
  rounds_keep :
      (fuel : ℕ) (s : S) (before window : List ℕ) (d : Drained S)
      → P s
      → consume_rounds consume fuel s before window ≡ some d
      → P d.state
  unfolding consume_rounds
  rounds_keep zero s before window d h e = absurd (cc (e))
  rounds_keep (suc fuel) s before window d h e =
      let c = consume s window in
      elim (after_call-inv before window c (λ b r. consume_rounds consume fuel c.state b r) d e) [
        | inl same ↦ subst P (sym same) (keeps s window h)
        | inr (b, r, on) ↦ rounds_keep fuel c.state b r d (keeps s window h) on
      ]

  pub consume_loop_keeps :
      (s : S) (bytes : List ℕ) (d : Drained S)
      → P s
      → consume_loop consume s bytes ≡ some d
      → P d.state
  unfolding consume_loop
  consume_loop_keeps s bytes d h e = rounds_keep (suc (length bytes)) s [] bytes d h e

received-Kept : (n : Net) (bytes : List ℕ) → Kept n (record n { received = bytes })
received-Kept n bytes = record {
  connecting_kept = refl;
  open_kept = refl;
  resolving_kept = λ h. h;
  closing_down = λ h. h;
  down_kept = λ h. h;
  closing_kept = λ h. refl;
}

finish_read-Kept :
    (n : Net) (d : Drained (Option Reaction)) (r : Read (Option Reaction))
    → finish_read n d ≡ some r
    → (r.owner ≡ d.state) × Kept n r.net
unfolding finish_read
finish_read-Kept n d r e =
    let n' : Net = record n { received = d.bytes } in
    elim (Bool-cases d.result) [
      | inl goes_on ↦
          let same : n' ≡ r.net = ground (arith, goes_on) in
          (ground (arith, goes_on), subst (λ m. Kept n m) same (received-Kept n d.bytes))
      | inr ends ↦ elim (Option-cases (do_shutdown n')) [
        | inl fails ↦ absurd (ground (arith, ends, fails))
        | inr ((m, acts), down) ↦
            let same : m ≡ r.net = ground (arith, ends, down) in
            (
              ground (arith, ends, down),
              subst (λ m. Kept n m) same
                  (Kept-trans n n' m (received-Kept n d.bytes) (do_shutdown-Kept n' m acts down)),
            )
      ]
    ]

module _ (parse_insitu : List ℕ → List ℕ × Option Value) where
  receive_line-Grows :
      (p : Pool) (input : List ℕ) (stop now : ℕ) (r : Received)
      → receive_line parse_insitu p input stop now ≡ some r
      → Grows p.state r.reaction.0.state
  unfolding receive_line net_on_error
  receive_line-Grows p input stop now r e =
      let doc = (parse_insitu (take stop input)).1 in
      elim (Option-cases doc) [
        | inl no_doc ↦ ground (arith, no_doc, e)
        | inr (v, some_doc) ↦ elim (Option-cases (as_object v)) [
          | inl other ↦ ground (arith, some_doc, other, e)
          | inr (ms, object) ↦
              finish-Grows p ms now
                ((parse_insitu (take stop input)).0 ++ 0 ∷ drop (stop + 1) input) (stop + 1)
                (process_json_doc p ms now) r (process_json_doc-Handles p ms now)
                (ground (arith, some_doc, object, e))
        ]
      ]

  net_on_data_recv-Grows :
      (p : Pool) (input : List ℕ) (len now : ℕ) (r : Received)
      → net_on_data_recv parse_insitu p input len now ≡ some r
      → Grows p.state r.reaction.0.state
  unfolding net_on_data_recv
  net_on_data_recv-Grows p input len now r e = elim (Option-cases (my_memrchr input b'\n' len)) [
    | inl missing ↦ ground (arith, missing, e)
    | inr (stop, found) ↦ receive_line-Grows p input stop now r (ground (arith, found, e))
  ]

  abbrev Grown : PoolState → Option Reaction → Type 0
  Grown a none = Unit {0}
  Grown a (some (p, acts)) = Grows a p.state

  recv_state :
      (now : ℕ) (p : Pool) (acts : List Action) (window : List ℕ) (r : Received)
      → net_on_data_recv parse_insitu p window (length window) now ≡ some r
      → (recv parse_insitu now (some (p, acts)) window).state
        ≡ some (r.reaction.0, acts ++ r.reaction.1)
  unfolding recv
  recv_state now p acts window r e = rw (recv, e) refl

  recv_failed :
      (now : ℕ) (p : Pool) (acts : List Action) (window : List ℕ)
      → net_on_data_recv parse_insitu p window (length window) now ≡ none
      → (recv parse_insitu now (some (p, acts)) window).state ≡ none
  unfolding recv
  recv_failed now p acts window e = rw (recv, e) refl

  recv-Grown :
      (now : ℕ) (a : PoolState) (s : Option Reaction) (window : List ℕ)
      → Grown a s
      → Grown a (recv parse_insitu now s window).state
  unfolding recv
  recv-Grown now a none window h = tt
  recv-Grown now a (some (p, acts)) window h =
      elim (Option-cases (net_on_data_recv parse_insitu p window (length window) now)) [
        | inl fails ↦ subst (Grown a) (sym (recv_failed now p acts window fails)) tt
        | inr (r, ends) ↦ subst (Grown a) (sym (recv_state now p acts window r ends)) (
            Grows-trans a p.state r.reaction.0.state h
              (net_on_data_recv-Grows p window (length window) now r ends))
      ]

  read_finish-Kept :
      (a : PoolState) (o : Option Reaction) (n : Net) (acts : List NetAction) (l : Link)
      (outs : List Out)
      → Grown a o
      → read_finish (record { owner = o; net = n; acts = acts }) ≡ some (l, outs)
      → Grows a l.pool.state × Kept n l.net
  unfolding read_finish
  read_finish-Kept a none n acts l outs g e = absurd (cc (e))
  read_finish-Kept a (some (p, asks)) n acts l outs g e =
      let after : Link → LinkReaction = λ k. some (k, epic_miner.Common.map to_uv acts) in
      let (k, first, more, x, y) =
        then-inv (pool_does (p, asks) (record { pool = p; net = n })) after l outs e in
      let (same_pool, kept) = pool_does-Kept (p, asks) (record { pool = p; net = n }) k first x in
      let same : k ≡ l = cc (y) in
      subst (λ (v : Link). Grows a v.pool.state × Kept n v.net) same
        (subst (Grows a) (sym (ap (λ (v : Pool). v.state) same_pool)) g, kept)

  -- A read leaves the interface's flags in order, and gives the pool a job at most.
  pub read_done-Kept :
      (m : Moment) (fresh : List ℕ) (l l' : Link) (outs : List Out)
      → read_done parse_insitu m fresh l ≡ some (l', outs)
      → Grows l.pool.state l'.pool.state × Kept l.net l'.net
  unfolding read_done on_socket_read
  read_done-Kept m fresh l l' outs e =
      let start : Option Reaction = some (l.pool, []) in
      elim (Option-cases (consume_loop (recv parse_insitu m.now) start (l.net.received ++ fresh))) [
        | inl fails ↦ absurd (ground (arith, fails))
        | inr (d, ends) ↦ elim (Option-cases (finish_read l.net d)) [
          | inl fails ↦ absurd (ground (arith, ends, fails))
          | inr (r, finished) ↦
              let grown =
                consume_loop_keeps (Grown l.pool.state) (recv parse_insitu m.now)
                  (recv-Grown m.now l.pool.state) start (l.net.received ++ fresh) d (inl refl)
                  ends in
              let (owner, kept) = finish_read-Kept l.net d r finished in
              let on : read_finish r ≡ some (l', outs) = ground (arith, ends, finished) in
              let (grows, more) =
                read_finish-Kept l.pool.state r.owner r.net r.acts l' outs
                  (subst (Grown l.pool.state) (sym owner) grown) on in
              (grows, Kept-trans l.net r.net l'.net kept more)
        ]
      ]

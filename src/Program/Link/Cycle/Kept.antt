-- ===== src/Program/Link/Cycle/Kept.antt =====
-- What the requests and the notifications leave of the interface's flags, and of the pool's state.
use epic_miner.Common.{
  ℕ, All, Bool, true, false, ◌≡◌, refl, ap, ◌∙◌, ◌⊎◌, inl, inr, List, [], ◌∷◌, ◌++◌, none, some,
  Option-cases, arith, subst, get_elem?, take, length, ◌-◌,
}
use epic_miner.Net.Send.{
  Net, NetAction, NetReaction, notify_error, notify_connect, notify_close, uv_write, uv_tcp_connect,
  uv_getaddrinfo, uv_read_start, uv_shutdown, uv_close, do_shutdown, SendBuf, send_size,
  first_inactive, activate, update_buf, get_send_buffer, fill_buf, finalize_buf,
  finalize_socket_write,
}
use epic_miner.Pool.State.{
  Pool, idle, Action, Reaction, log_error, on_pool_new_job, on_pool_disconnect, on_result_reply,
  net_connect, net_shutdown, socket_write, send_formatted, net_on_error, net_on_close,
}
use epic_miner.Program.Link.{
  Link, Out, LinkReaction, Moment, ◌then◌, of_net, request, requests, pool_does, notified,
  notify_all,
}

-- The flags of an interface that a request leaves in order.
pub record Kept (n n' : Net) : Type 0 where
  pub connecting_kept : n'.connecting ≡ n.connecting
  pub open_kept : n'.open_sock ≡ n.open_sock
  pub resolving_kept : n.resolving ≡ true → n'.resolving ≡ true
  pub closing_down :
      (n.closing ≡ true → n.shutting_down ≡ true) → n'.closing ≡ true → n'.shutting_down ≡ true
  pub down_kept : n.shutting_down ≡ true → n'.shutting_down ≡ true
  pub closing_kept : n.shutting_down ≡ true → n'.closing ≡ n.closing

pub Kept-refl : (n : Net) → Kept n n
Kept-refl n = record {
  connecting_kept = refl;
  open_kept = refl;
  resolving_kept = λ h. h;
  closing_down = λ h. h;
  down_kept = λ h. h;
  closing_kept = λ h. refl;
}

pub Kept-trans : (a b c : Net) → Kept a b → Kept b c → Kept a c
Kept-trans a b c x y = record {
  connecting_kept = y.connecting_kept ∙ x.connecting_kept;
  open_kept = y.open_kept ∙ x.open_kept;
  resolving_kept = λ h. y.resolving_kept (x.resolving_kept h);
  closing_down = λ h. y.closing_down (x.closing_down h);
  down_kept = λ h. y.down_kept (x.down_kept h);
  closing_kept = λ h. y.closing_kept (x.down_kept h) ∙ x.closing_kept h;
}

pub do_shutdown-Kept :
    (n n' : Net) (acts : List NetAction) → do_shutdown n ≡ some (n', acts) → Kept n n'
unfolding do_shutdown
do_shutdown-Kept n n' acts e = ground arith

do_connect-Kept :
    (n n' : Net) (acts : List NetAction)
    → epic_miner.Net.Cycle.do_connect n ≡ some (n', acts)
    → Kept n n'
unfolding epic_miner.Net.Cycle.do_connect
do_connect-Kept n n' acts e = ground arith

finalize_socket_write-Kept :
    (n n' : Net) (idx len : ℕ) (acts : List NetAction)
    → finalize_socket_write n idx len ≡ some (n', acts)
    → Kept n n'
unfolding finalize_socket_write finalize_buf
finalize_socket_write-Kept n n' idx len acts e =
    ground (arith, Option-cases (get_elem? n.send_bufs idx))

update_buf-Kept : (n : Net) (idx : ℕ) (f : SendBuf → SendBuf) → Kept n (update_buf n idx f)
update_buf-Kept n idx f = elim (Option-cases (get_elem? n.send_bufs idx)) [
  | inl gone ↦ rw (update_buf, gone) (Kept-refl n)
  | inr (b, at) ↦
      rw (update_buf, at)
        (record {
          connecting_kept = refl;
          open_kept = refl;
          resolving_kept = λ h. h;
          closing_down = λ h. h;
          down_kept = λ h. h;
          closing_kept = λ h. refl;
        })
]

get_send_buffer-Kept : (n n' : Net) (idx : ℕ) → get_send_buffer n ≡ some (idx, n') → Kept n n'
unfolding get_send_buffer
get_send_buffer-Kept n n' idx e = elim (Option-cases (first_inactive n.send_bufs)) [
  | inl full ↦ absurd (ground (arith, full))
  | inr (i, found) ↦
      let same : update_buf n i activate ≡ n' = ground (arith, found) in
      subst (λ m. Kept n m) same (update_buf-Kept n i activate)
]

send_formatted-Kept :
    (n n' : Net) (text : List ℕ) (acts : List NetAction)
    → epic_miner.Net.Send.send_formatted n text ≡ some (n', acts)
    → Kept n n'
unfolding epic_miner.Net.Send.send_formatted
send_formatted-Kept n n' text acts e = elim (Option-cases (get_send_buffer n)) [
  | inl full ↦ absurd (ground (arith, full))
  | inr ((idx, m), given) ↦
      let filled = update_buf m idx (fill_buf (take (send_size - 1) text ++ 0 ∷ [])) in
      let ends : finalize_socket_write filled idx (length text) ≡ some (n', acts) =
        ground (arith, given) in
      Kept-trans n m n' (get_send_buffer-Kept n m idx given) (
        Kept-trans m filled n' (update_buf-Kept m idx _)
          (finalize_socket_write-Kept filled n' idx (length text) acts ends))
]

-- A reaction that keeps the pool, and the interface's flags.
abbrev Keeps : Link → LinkReaction → Type 0
Keeps l r =
    (l' : Link) (outs : List Out) → r ≡ some (l', outs) → (l'.pool ≡ l.pool) × Kept l.net l'.net

of_net-inv :
    (p : Pool) (r : NetReaction) (l' : Link) (outs : List Out)
    → of_net p r ≡ some (l', outs)
    → (l'.pool ≡ p) × (acts : List NetAction) × (r ≡ some (l'.net, acts))
unfolding of_net
of_net-inv p none l' outs e = absurd (cc (e))
of_net-inv p (some (n, acts)) l' outs e = (ground arith, acts, ground arith)

same-Keeps :
    (l l' : Link) (outs acts : List Out)
    → ◌≡◌ {A = LinkReaction} (some (l, acts)) (some (l', outs))
    → (l'.pool ≡ l.pool) × Kept l.net l'.net
same-Keeps l l' outs acts e =
    let same : l ≡ l' = cc (e) in
    subst (λ (k : Link). (k.pool ≡ l.pool) × Kept l.net k.net) same (refl, Kept-refl l.net)

request-Keeps : (act : Action) (l : Link) → Keeps l (request act l)
unfolding request
request-Keeps (log_error err) l l' outs e = same-Keeps l l' outs _ e
request-Keeps (on_pool_new_job id) l l' outs e = same-Keeps l l' outs _ e
request-Keeps (on_pool_disconnect id) l l' outs e = same-Keeps l l' outs _ e
request-Keeps (on_result_reply target err rtt miner) l l' outs e = same-Keeps l l' outs _ e
request-Keeps net_connect l l' outs e =
    let (p, acts, r) = of_net-inv l.pool (epic_miner.Net.Cycle.do_connect l.net) l' outs e in
    (p, do_connect-Kept l.net l'.net acts r)
request-Keeps net_shutdown l l' outs e =
    let (p, acts, r) = of_net-inv l.pool (do_shutdown l.net) l' outs e in
    (p, do_shutdown-Kept l.net l'.net acts r)
request-Keeps (socket_write text) l l' outs e = absurd (cc (e))
request-Keeps (send_formatted text) l l' outs e =
    let (p, acts, r) =
      of_net-inv l.pool (epic_miner.Net.Send.send_formatted l.net text) l' outs e in
    (p, send_formatted-Kept l.net l'.net text acts r)

pub then-inv :
    (r : LinkReaction) (f : Link → LinkReaction) (l : Link) (outs : List Out)
    → r then f ≡ some (l, outs)
    → (k : Link) × (first : List Out) × (more : List Out) × (r ≡ some (k, first))
      × (f k ≡ some (l, more))
then-inv none f l outs e = absurd (cc (e))
then-inv (some (k, first)) f l outs e = elim (Option-cases (f k)) [
  | inl fails ↦ absurd (ground (arith, fails))
  | inr ((l', more), ends) ↦
      let same : l' ≡ l = ground (arith, ends) in
      (k, first, more, refl, ends ∙ ap (λ (x : Link). some (x, more)) same)
]

pub requests-Keeps : (acts : List Action) (l : Link) → Keeps l (requests acts l)
unfolding requests
requests-Keeps [] l l' outs e = same-Keeps l l' outs _ e
requests-Keeps (act ∷ acts) l l' outs e =
    let (k, first, more, a, b) = then-inv (request act l) (λ k. requests acts k) l' outs e in
    let (p, x) = request-Keeps act l k first a in
    let (q, y) = requests-Keeps acts k l' more b in (q ∙ p, Kept-trans l.net k.net l'.net x y)

-- The pool is the one that its handler leaves.
pub pool_does-Kept :
    (r : Reaction) (l l' : Link) (outs : List Out)
    → pool_does r l ≡ some (l', outs)
    → (l'.pool ≡ r.0) × Kept l.net l'.net
unfolding pool_does
pool_does-Kept (p, acts) l l' outs e = requests-Keeps acts (record l { pool = p }) l' outs e

-- Notifications other than of a connection leave the pool's state, or make it idle.
abbrev pub Rests : Pool → Pool → Type 0
Rests p p' = (p'.state ≡ p.state) ⊎ (p'.state ≡ idle)

abbrev pub is_notify_connect : NetAction → Bool
is_notify_connect (notify_connect fp) = true
is_notify_connect _ = false

abbrev pub Quiet : List NetAction → Type 0
Quiet = All (λ act. is_notify_connect act ≡ false)

Rests-trans : (p q r : Pool) → Rests p q → Rests q r → Rests p r
Rests-trans p q r x y = ground arith

net_on_error-idle : (p : Pool) (err : List ℕ) → (net_on_error p err).0.state ≡ idle
unfolding net_on_error
net_on_error-idle p err = refl

net_on_close-idle : (p : Pool) → (net_on_close p).0.state ≡ idle
unfolding net_on_close
net_on_close-idle p = refl

libuv :
    (l l' : Link) (outs acts : List Out)
    → ◌≡◌ {A = LinkReaction} (some (l, acts)) (some (l', outs))
    → Rests l.pool l'.pool × Kept l.net l'.net
libuv l l' outs acts e =
    let (p, k) = same-Keeps l l' outs acts e in (inl (ap (λ (x : Pool). x.state) p), k)

pub notified-Rests :
    (m : Moment) (act : NetAction) (l l' : Link) (outs : List Out)
    → is_notify_connect act ≡ false
    → notified m act l ≡ some (l', outs)
    → Rests l.pool l'.pool × Kept l.net l'.net
unfolding notified
notified-Rests m (notify_error err) l l' outs q e =
    let (p, k) = pool_does-Kept (net_on_error l.pool err) l l' outs e in
    (inr (ap (λ (x : Pool). x.state) p ∙ net_on_error-idle l.pool err), k)
notified-Rests m (notify_connect fp) l l' outs q e = absurd (cc (q))
notified-Rests m notify_close l l' outs q e =
    let (p, k) = pool_does-Kept (net_on_close l.pool) l l' outs e in
    (inr (ap (λ (x : Pool). x.state) p ∙ net_on_close-idle l.pool), k)
notified-Rests m (uv_write a b c) l l' outs q e = libuv l l' outs _ e
notified-Rests m (uv_tcp_connect a) l l' outs q e = libuv l l' outs _ e
notified-Rests m uv_getaddrinfo l l' outs q e = libuv l l' outs _ e
notified-Rests m uv_read_start l l' outs q e = libuv l l' outs _ e
notified-Rests m uv_shutdown l l' outs q e = libuv l l' outs _ e
notified-Rests m uv_close l l' outs q e = libuv l l' outs _ e

pub notify_all-Rests :
    (m : Moment) (acts : List NetAction) (l l' : Link) (outs : List Out)
    → Quiet acts
    → notify_all m acts l ≡ some (l', outs)
    → Rests l.pool l'.pool × Kept l.net l'.net
unfolding notify_all
notify_all-Rests m [] l l' outs q e = libuv l l' outs _ e
notify_all-Rests m (act ∷ acts) l l' outs (q, qs) e =
    let (k, first, more, a, b) = then-inv (notified m act l) (λ k. notify_all m acts k) l' outs e in
    let (p, x) = notified-Rests m act l k first q a in
    let (r, y) = notify_all-Rests m acts k l' more qs b in
    (Rests-trans l.pool k.pool l'.pool p r, Kept-trans l.net k.net l'.net x y)

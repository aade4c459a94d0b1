-- ===== src/Net/Tls/Buffers.antt =====
-- The send buffers as flush_tls_pending takes them.
use epic_miner.Common.{
  ℕ, zero, suc, ◌+◌, ◌≤◌, ◌≡◌, ◌≢◌, refl, subst, false, Option-cases, inl, inr, List, [], ◌∷◌, some,
  ltb, if◌then◌else◌, length, set, get_elem?, arith,
}
use epic_miner.Net.Send.{
  Net, SendBuf, NetAction, uv_write, notify_error, send_size, get_send_buffer, first_inactive,
  activate, finalize_socket_write, update_buf, fill_buf,
}
use epic_miner.Net.Send.Laws.{in_use, first_inactive-none, first_inactive-some}

-- How many buffers are free.
pub free : List SendBuf → ℕ
free [] = 0
free (b ∷ rest) = (if b.active then 0 else 1) + free rest

pub free-set :
    (bs : List SendBuf) (i : ℕ) (b c : SendBuf)
    → get_elem? bs i ≡ some b
    → free (set bs i c) + (if b.active then 0 else 1) ≡ free bs + (if c.active then 0 else 1)
unfolding free
free-set [] i b c e = absurd (cc)
free-set (x ∷ bs) zero b c e = ground arith
free-set (x ∷ bs) (suc i) b c e = ground (arith, free-set bs i b c e)

pub free-le : (bs : List SendBuf) → free bs ≤ length bs
unfolding free
free-le [] = omega arith
free-le (b ∷ rest) = ground (arith, free-le rest)

pub given_at :
    (n : Net) (j : ℕ) (b : SendBuf)
    → first_inactive n.send_bufs ≡ some j
    → get_elem? n.send_bufs j ≡ some b
    → get_send_buffer n ≡ some (j, record n { send_bufs = set n.send_bufs j (activate b) })
unfolding get_send_buffer
given_at n j b found at = rw (get_send_buffer, found) (rw (update_buf, at) refl)

-- A buffer that is given was free.
pub get_send_buffer-kept :
    (n n' : Net) (i : ℕ)
    → get_send_buffer n ≡ some (i, n')
    → (n'.shutting_down ≡ n.shutting_down) × (free n.send_bufs ≡ suc (free n'.send_bufs))
unfolding get_send_buffer activate
get_send_buffer-kept n n' i e = elim (Option-cases (first_inactive n.send_bufs)) [
  | inl full ↦ absurd (ground (arith, full))
  | inr (j, found) ↦
      let (b, at, idle, lt) = first_inactive-some n.send_bufs j found in
      let n2 : Net = record n { send_bufs = set n.send_bufs j (activate b) } in
      let given : get_send_buffer n ≡ some (j, n2) = given_at n j b found at in
      let same : n2 ≡ n' = cc (e, given) in
      let one = free-set n.send_bufs j b (activate b) at in
      subst
        (λ (m : Net).
          (m.shutting_down ≡ n.shutting_down) × (free n.send_bufs ≡ suc (free m.send_bufs)))
        same (refl, ground (arith, one, idle))
]

pub buffer_given :
    (n : Net)
    → in_use n.send_bufs ≢ length n.send_bufs
    → (i : ℕ) × (n' : Net) × (get_send_buffer n ≡ some (i, n'))
buffer_given n room = elim (Option-cases (first_inactive n.send_bufs)) [
  | inl full ↦ absurd (room ((first_inactive-none n.send_bufs).0 full))
  | inr (i, found) ↦
      let (b, at, idle, lt) = first_inactive-some n.send_bufs i found in
      (i, record n { send_bufs = set n.send_bufs i (activate b) }, given_at n i b found at)
]

pub plain_write :
    (n n' : Net) (i : ℕ) (text : List ℕ)
    → get_send_buffer n ≡ some (i, n')
    → length text ≤ send_size
    → epic_miner.Net.Send.do_socket_write n text
      ≡ finalize_socket_write (update_buf n' i (fill_buf text)) i (length text)
unfolding epic_miner.Net.Send.do_socket_write
plain_write n n' i text taken small =
    let no_overflow : ltb send_size (length text) ≡ false = ground arith in
    rw (epic_miner.Net.Send.do_socket_write, taken) (rw (no_overflow) refl)

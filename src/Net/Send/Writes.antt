-- ===== src/Net/Send/Writes.antt =====
-- A text through do_socket_write and its completion, and what a failed write leaves behind.
use epic_miner.Common.{
  ℕ, zero, suc, ◌≤◌, ◌<◌, ◌≡◌, refl, ap, ◌∙◌, ◌≢◌, inl, inr, true, false, List, [], ◌∷◌, ◌++◌,
  arith, none, some, ltb, ◌==◌, length, take, drop, set, get_elem?, get_elem?-set_self, length-set,
  codes, All, Option-cases, Bool-cases,
}
use epic_miner.Net.Send.{
  SendBuf, Net, NetAction, UvError, on_socket_error, do_shutdown, notify_error, uv_shutdown,
  notify_close, uv_write, fail_with, first_inactive, update_buf, activate, get_send_buffer,
  finalize_buf, finalize_socket_write, fill_buf, do_socket_write, complete_buf,
  on_socket_write_complete, on_socket_write_st, deactivate, on_socket_closed,
}
use epic_miner.Net.Send.Laws.{
  in_use, Consistent, first_inactive-none, first_inactive-some, in_use-set,
}

set-set : (bs : List SendBuf) (i : ℕ) (b c : SendBuf) → set (set bs i b) i c ≡ set bs i c
set-set [] i b c = refl
set-set (x ∷ bs) zero b c = refl
set-set (x ∷ bs) (suc i) b c = ap (◌∷◌ x) (set-set bs i b c)

All-at :
    (bs : List SendBuf) (i : ℕ) (b : SendBuf)
    → All Consistent bs
    → get_elem? bs i ≡ some b
    → Consistent b
All-at [] i b h e = absurd (cc)
All-at (x ∷ bs) zero b (h, hs) e = λ w. ground (arith, h)
All-at (x ∷ bs) (suc i) b (h, hs) e = All-at bs i b hs e

abbrev sent : Net → ℕ → SendBuf → List ℕ → Net
sent n i b text = record n {
  send_bufs =
      set n.send_bufs i
        (record { bytes = text ++ drop (length text) b.bytes; active = true; writing = true });
}

update_buf-at :
    (n : Net) (i : ℕ) (b : SendBuf) (f : SendBuf → SendBuf)
    → get_elem? n.send_bufs i ≡ some b
    → update_buf n i f ≡ record n { send_bufs = set n.send_bufs i (f b) }
update_buf-at n i b f at = rw (update_buf, at) refl

write_at :
    (n : Net) (text : List ℕ) (i : ℕ) (b : SendBuf)
    → first_inactive n.send_bufs ≡ some i
    → get_elem? n.send_bufs i ≡ some b
    → i < length n.send_bufs
    → length text ≤ 2048
    → do_socket_write n text
      ≡ finalize_socket_write
          (record n {
            send_bufs = set n.send_bufs i (record {
              bytes = text ++ drop (length text) b.bytes;
              active = true;
              writing = b.writing;
            });
          })
          i
          (length text)
unfolding do_socket_write get_send_buffer activate fill_buf
write_at n text i b e at lt small =
    let over : ltb 2048 (length text) ≡ false = ground arith in
    let marked = record n { send_bufs = set n.send_bufs i (activate b) } in
    let again =
      update_buf-at marked i (activate b) (fill_buf text)
        (get_elem?-set_self n.send_bufs i (activate b) lt) in
    rw (do_socket_write, get_send_buffer, e)
      (rw (over, update_buf-at n i b activate at, again, set-set n.send_bufs i (activate b)) refl)

take-exact : (xs ys : List ℕ) → take (length xs) (xs ++ ys) ≡ xs
take-exact [] ys = refl
take-exact (x ∷ xs) ys = ap (◌∷◌ x) (take-exact xs ys)

finalize_at :
    (n : Net) (i len : ℕ) (b : SendBuf)
    → get_elem? n.send_bufs i ≡ some b
    → b.active ≡ true
    → b.writing ≡ false
    → 0 < len
    → finalize_socket_write n i len
      ≡ some (
        record n { send_bufs = set n.send_bufs i (record b { writing = true }) },
        uv_write i b.bytes len ∷ [],
      )
unfolding finalize_socket_write finalize_buf
finalize_at n i len b at a w pos =
    let long : (len == 0) ≡ false = ground arith in
    rw (finalize_socket_write, at) (ground (arith, a, w, long))

complete_at :
    (n : Net) (i : ℕ) (b : SendBuf)
    → get_elem? n.send_bufs i ≡ some b
    → b.active ≡ true
    → on_socket_write_complete n i
      ≡ some (record n { send_bufs = set n.send_bufs i (complete_buf b) }, [])
unfolding on_socket_write_complete
complete_at n i b at a = rw (on_socket_write_complete, at) (ground (arith, a))

-- Where a buffer is free, no free buffer has a write under way, and the text has between 1 and 2048
-- bytes, do_socket_write asks libuv for one write: of a buffer that begins with the text, with the
-- length of the text. One more buffer is then in use, and the completion of that write, status 0,
-- frees it again.
pub do_socket_write_lem :
    (n : Net) (text : List ℕ)
    → All Consistent n.send_bufs
    → in_use n.send_bufs ≢ length n.send_bufs
    → 0 < length text
    → length text ≤ 2048
    → (i : ℕ) × (n' : Net) × (n'' : Net) × (bytes : List ℕ) × (do_socket_write n text
        ≡ some (n', uv_write i bytes (length text) ∷ []))
      × (take (length text) bytes ≡ text)
      × (in_use n'.send_bufs ≡ suc (in_use n.send_bufs))
      × (on_socket_write_st n' i none ≡ some (n'', []))
      × (in_use n''.send_bufs ≡ in_use n.send_bufs)
unfolding on_socket_write_st complete_buf
do_socket_write_lem n text ok room some_text small =
    elim (Option-cases (first_inactive n.send_bufs)) [
      | inl full ↦ absurd (room ((first_inactive-none n.send_bufs).0 full))
      | inr (i, e) ↦
          let (b, at, free, lt) = first_inactive-some n.send_bufs i e in
          let idle : b.writing ≡ false = ground (arith, All-at n.send_bufs i b ok at) in
          let filled : SendBuf = record {
            bytes = text ++ drop (length text) b.bytes;
            active = true;
            writing = b.writing;
          } in
          let m : Net = record n { send_bufs = set n.send_bufs i filled } in
          let busy : SendBuf = record filled { writing = true } in
          let n' : Net = record m { send_bufs = set m.send_bufs i busy } in
          let lt' : i < length m.send_bufs = rw (length-set n.send_bufs i filled) lt in
          let at_m = get_elem?-set_self n.send_bufs i filled lt in
          let one = in_use-set n.send_bufs i b filled at in
          let two = in_use-set m.send_bufs i filled busy at_m in
          let at_n' = get_elem?-set_self m.send_bufs i busy lt' in
          let three = in_use-set n'.send_bufs i busy (complete_buf busy) at_n' in
          (
            i,
            n',
            record n' { send_bufs = set n'.send_bufs i (complete_buf busy) },
            filled.bytes,
            write_at n text i b e at lt small
                ∙ finalize_at m i (length text) filled at_m refl idle some_text,
            take-exact text (drop (length text) b.bytes),
            ground (arith, one, two, free),
            complete_at n' i busy at_n' refl,
            ground (arith, one, two, three, free),
          )
    ]

-- Where all buffers are in use, do_socket_write reports the limit as an error and shuts the
-- connection down, as fail_with does.
pub do_socket_write_refused :
    (n : Net) (text : List ℕ)
    → in_use n.send_bufs ≡ length n.send_bufs
    → do_socket_write n text ≡ fail_with n (codes "Limit of 4 concurrent sends exceeded!")
unfolding do_socket_write get_send_buffer
do_socket_write_refused n text full =
    rw (do_socket_write, get_send_buffer, (first_inactive-none n.send_bufs).1 full) refl

-- The first buffer, while its request is not done: once the connection has closed, the next text fails
-- the assertion.
busy_blocks :
    (n : Net) (b : SendBuf) (later : List SendBuf) (text : List ℕ)
    → n.send_bufs ≡ b ∷ later
    → b.writing ≡ true
    → 0 < length text
    → length text ≤ 2048
    → (n' : Net) × (on_socket_closed n ≡ some (n', notify_close ∷ []))
      × (do_socket_write n' text ≡ none)
unfolding on_socket_closed deactivate do_socket_write get_send_buffer first_inactive activate
    fill_buf finalize_socket_write finalize_buf
busy_blocks n b later text e w some_text small =
    let over : ltb 2048 (length text) ≡ false = ground arith in
    let long : (length text == 0) ≡ false = ground arith in
    (_, refl, rw (e) (rw (over) (rw (long, w) refl)))

-- The error path of a callback does not touch the buffers.
on_socket_error-bufs :
    (n : Net) (err : UvError)
    → (n.shutting_down ≡ false → n.closing ≡ false)
    → (n' : Net) × (acts : List NetAction) × (on_socket_error n err ≡ some (n', acts))
      × (n'.send_bufs ≡ n.send_bufs)
unfolding on_socket_error fail_with do_shutdown
on_socket_error-bufs n err free =
    let down : Net = record n { shutting_down = true; closing = true } in
    let told : NetAction = notify_error err.text in
    elim (Bool-cases n.shutting_down) [
      | inl is_down ↦ elim (Bool-cases err.is_eof) [
        | inl eof ↦ (n, told ∷ [], ground (arith, is_down, eof), refl)
        | inr other ↦ (n, told ∷ [], ground (arith, is_down, other), refl)
      ]
      | inr up ↦
          let unused = free up in
          elim (Bool-cases err.is_eof) [
            | inl eof ↦ (down, uv_shutdown ∷ [], ground (arith, up, eof, unused), refl)
            | inr other ↦ (down, told ∷ uv_shutdown ∷ [], ground (arith, up, other, unused), refl)
          ]
    ]

-- A write through the first buffer that fails: its callback is given an error, and the connection is
-- closed. The error path does not free libuv's request, while on_socket_closed marks the buffer free:
-- with it first, the next text of 1 to 2048 bytes fails the assertion in finalize_socket_write.
-- r_shutdown must be free unless the connection is shutting down.
pub failed_write_blocks :
    (n : Net) (b : SendBuf) (later : List SendBuf) (first text : List ℕ) (err : UvError)
    → n.send_bufs ≡ b ∷ later
    → b.active ≡ false
    → b.writing ≡ false
    → (n.shutting_down ≡ false → n.closing ≡ false)
    → 0 < length first
    → length first ≤ 2048
    → 0 < length text
    → length text ≤ 2048
    → (n0 : Net) × (n1 : Net) × (n2 : Net) × (bytes : List ℕ) × (acts : List NetAction)
      × (do_socket_write n first ≡ some (n0, uv_write 0 bytes (length first) ∷ []))
      × (on_socket_write_st n0 0 (some err) ≡ some (n1, acts))
      × (on_socket_closed n1 ≡ some (n2, notify_close ∷ []))
      × (do_socket_write n2 text ≡ none)
unfolding on_socket_write_st first_inactive
failed_write_blocks n b later first text err e free idle down some_first small_first some_text
      small =
    let filled : SendBuf = record {
      bytes = first ++ drop (length first) b.bytes;
      active = true;
      writing = b.writing;
    } in
    let m : Net = record n { send_bufs = set n.send_bufs 0 filled } in
    let busy : SendBuf = record filled { writing = true } in
    let n0 : Net = record m { send_bufs = set m.send_bufs 0 busy } in
    let found : first_inactive n.send_bufs ≡ some 0 = rw (e, first_inactive) (rw free refl) in
    let at : get_elem? n.send_bufs 0 ≡ some b = rw e refl in
    let lt : 0 < length n.send_bufs = rw e (omega arith) in
    let at_m = get_elem?-set_self n.send_bufs 0 filled lt in
    let bufs : n0.send_bufs ≡ busy ∷ later = rw e refl in
    let (n1, acts, fails, same) = on_socket_error-bufs n0 err down in
    let (n2, closed, blocked) = busy_blocks n1 busy later text (same ∙ bufs) refl some_text small in
    (
      n0,
      n1,
      n2,
      filled.bytes,
      acts,
      write_at n first 0 b found at lt small_first
          ∙ finalize_at m 0 (length first) filled at_m refl idle some_first,
      fails,
      closed,
      blocked,
    )

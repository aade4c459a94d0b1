-- ===== src/Net/Tests.antt =====
-- Sending, receiving and addresses at concrete inputs.
use epic_miner.Common.{
  ℕ, suc, ◌≤◌, ◌≡◌, refl, true, false, List, [], ◌∷◌, arith, none, some, codes, length, take, drop,
}
use epic_miner.Net.Address.{strrchr, inet, inet6, AddrInfo}
use epic_miner.Net.Receive.{Consumer, Drained, consume_loop}
use epic_miner.Net.Receive.Laws.{IsConsumer, Calls, consume_loop-Drains}
use epic_miner.Net.Send.{
  SendBuf, Net, NetAction, UvError, notify_close, uv_write, do_socket_write, on_socket_write_st,
  on_socket_closed,
}
use epic_miner.Net.Send.Laws.{in_use}
use epic_miner.Net.Send.Writes.{do_socket_write_lem, failed_write_blocks}

abbrev free_buf : SendBuf
free_buf = record { bytes = 0 ∷ 0 ∷ 0 ∷ 0 ∷ []; active = false; writing = false }

abbrev failed_buf : SendBuf
failed_buf = record { bytes = 1 ∷ 2 ∷ 0 ∷ 0 ∷ []; active = true; writing = true }

abbrev connection : List SendBuf → Net
connection bufs = record {
  send_bufs = bufs;
  received = [];
  shutting_down = false;
  resolving = false;
  connecting = false;
  open_sock = true;
  closing = false;
}

abbrev net1 : Net
net1 = connection (failed_buf ∷ free_buf ∷ free_buf ∷ free_buf ∷ [])

one_in_use : in_use net1.send_bufs ≡ 1
unfolding in_use
one_in_use = refl

do_socket_write_lem_example :
    (i : ℕ) × (n' : Net) × (n'' : Net) × (bytes : List ℕ) × (do_socket_write net1 (7 ∷ 8 ∷ [])
      ≡ some (n', uv_write i bytes 2 ∷ []))
    × (take 2 bytes ≡ 7 ∷ 8 ∷ [])
    × (in_use n'.send_bufs ≡ suc (in_use net1.send_bufs))
    × (on_socket_write_st n' i none ≡ some (n'', []))
    × (in_use n''.send_bufs ≡ in_use net1.send_bufs)
do_socket_write_lem_example =
    do_socket_write_lem net1 (7 ∷ 8 ∷ [])
      (
        (λ w. refl),
        ((λ w. absurd (cc (w))), ((λ w. absurd (cc (w))), ((λ w. absurd (cc (w))), tt))),
      )
      (λ full. absurd (omega (arith, full, one_in_use))) (omega arith) (omega arith)

abbrev all_free : Net
all_free = connection (free_buf ∷ free_buf ∷ free_buf ∷ free_buf ∷ [])

abbrev reset_by_peer : UvError
reset_by_peer = record { is_eof = false; text = codes "connection reset by peer" }

failed_write_blocks_example :
    (n0 : Net) × (n1 : Net) × (n2 : Net) × (bytes : List ℕ) × (acts : List NetAction)
    × (do_socket_write all_free (5 ∷ []) ≡ some (n0, uv_write 0 bytes 1 ∷ []))
    × (on_socket_write_st n0 0 (some reset_by_peer) ≡ some (n1, acts))
    × (on_socket_closed n1 ≡ some (n2, notify_close ∷ []))
    × (do_socket_write n2 (7 ∷ 8 ∷ []) ≡ none)
failed_write_blocks_example =
    failed_write_blocks all_free free_buf (free_buf ∷ free_buf ∷ free_buf ∷ []) (5 ∷ [])
      (7 ∷ 8 ∷ []) reset_by_peer refl refl refl (λ up. refl) (omega arith) (omega arith)
      (omega arith) (omega arith)

-- A consumer that takes one byte at a time and counts them.
one_byte : Consumer ℕ
one_byte seen [] = record { state = seen; window = []; count = some 0 }
one_byte seen (b ∷ window) = record { state = suc seen; window = b ∷ window; count = some 1 }

one_byte-IsConsumer : IsConsumer one_byte
unfolding one_byte
one_byte-IsConsumer = record { within = within; sized = sized; keeps = keeps }
  where
    within :
        (s : ℕ) (window : List ℕ) (cd : ℕ)
        → (one_byte s window).count ≡ some cd
        → cd ≤ length window
    within s [] cd e = ground arith
    within s (b ∷ window) cd e = ground arith

    sized :
        (s : ℕ) (window : List ℕ) (cd : ℕ)
        → (one_byte s window).count ≡ some cd
        → length (one_byte s window).window ≡ length window
    sized s [] cd e = refl
    sized s (b ∷ window) cd e = refl

    keeps :
        (s : ℕ) (window : List ℕ) (cd : ℕ)
        → (one_byte s window).count ≡ some cd
        → drop cd (one_byte s window).window ≡ drop cd window
    keeps s [] cd e = refl
    keeps s (b ∷ window) cd e = refl

consume_loop-Drains_example :
    (d : Drained ℕ) × (consume_loop one_byte 0 (5 ∷ 6 ∷ []) ≡ some d)
    × Calls one_byte 0 (5 ∷ 6 ∷ []) d
consume_loop-Drains_example = consume_loop-Drains one_byte one_byte-IsConsumer 0 (5 ∷ 6 ∷ [])

no_colon : strrchr (codes "3333") b':' ≡ none
unfolding strrchr
no_colon = refl

abbrev records : List AddrInfo
records = record { family = inet6; addr = 6 } ∷ record { family = inet; addr = 4 } ∷ []

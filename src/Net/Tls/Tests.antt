-- ===== src/Net/Tls/Tests.antt =====
-- A connection over a small session.
use epic_miner.Common.{
  ℕ, ◌+◌, ◌≡◌, ◌≢◌, refl, sym, false, List, [], ◌∷◌, none, some, length, replicate, codes, arith,
}
use epic_miner.Net.Receive.{Consumer, consume_loop, after_call}
use epic_miner.Net.Send.{
  Net, SendBuf, NetAction, send_size, notify_error, notify_connect, notify_close, uv_write,
}
use epic_miner.Net.Send.Laws.{in_use}
use epic_miner.Net.Tls.{
  on_net, shutdown_with, flush_rounds, flush_tls_pending, do_shutdown, report_peer,
  do_ssl_handshake, on_connect, deliver, read_plaintext, consume_ct_data, on_socket_closed,
}
use epic_miner.Net.Tls.Samples.{echo, broken, quiet_net, with_pending}
use epic_miner.Net.Tls.Flush.{
  flush_tls_pending-overflow, flush_rounds-enough, flush_tls_pending-do_socket_write,
}
use epic_miner.Net.Tls.Write.{write_rounds}
use epic_miner.Net.Tls.Write.Laws.{is_done, failed_write-never_done}

new_connection :
    (on_connect echo (record (with_pending []) { ssl = none })
      ≡ some (
        with_pending [],
        NetAction.uv_read_start ∷ notify_connect (some (codes "SHA256:ZA==")) ∷ [],
      ))
    × (on_connect echo (with_pending []) ≡ none)
unfolding on_connect do_ssl_handshake report_peer flush_tls_pending flush_rounds
new_connection = (refl, refl)

-- A consumer that takes all bytes and counts them.
abbrev counting : Consumer ℕ
counting n bytes = record { state = n + length bytes; window = bytes; count = some (length bytes) }

two_bytes :
    consume_ct_data echo counting (with_pending []) (9 ∷ 9 ∷ 9 ∷ [])
    ≡ some ((record (with_pending []) { owner = 2 }, []), some 3)
unfolding consume_ct_data read_plaintext deliver consume_loop after_call flush_tls_pending
    flush_rounds
two_bytes = refl

closed :
    on_socket_closed echo (with_pending [])
    ≡ some (
      record (with_pending []) { ssl = none; net = record quiet_net { open_sock = false } },
      notify_close ∷ [],
    )
unfolding on_socket_closed epic_miner.Net.Send.on_socket_closed epic_miner.Net.Send.deactivate
closed = refl

failing : do_shutdown echo (record (with_pending []) { ssl = none }) ≡ none
unfolding do_shutdown shutdown_with
failing = refl

flush_tls_pending-overflow_example :
    (flush_rounds echo 9 (with_pending (replicate 2049 0)) ≡ none)
    × (flush_tls_pending echo (with_pending (replicate 2049 0)) ≡ none)
flush_tls_pending-overflow_example =
    flush_tls_pending-overflow echo (replicate 2049 0) (with_pending (replicate 2049 0)) 9
      (λ s. omega arith) refl refl (omega arith)

flush_rounds-enough_example :
    flush_rounds echo 7 (with_pending (1 ∷ [])) ≡ flush_tls_pending echo (with_pending (1 ∷ []))
flush_rounds-enough_example = flush_rounds-enough echo (with_pending (1 ∷ [])) 5

abbrev ct : List ℕ
ct = 1 ∷ 2 ∷ 3 ∷ []

none_used : (n : ℕ) → n ≡ 1 → n ≢ 0
none_used n a b = omega arith

flush_tls_pending-do_socket_write_example :
    flush_tls_pending echo (with_pending ct)
    ≡ on_net
        (record (with_pending ct) { ssl = some [] })
        (epic_miner.Net.Send.do_socket_write quiet_net ct)
unfolding in_use
flush_tls_pending-do_socket_write_example =
    flush_tls_pending-do_socket_write echo ct [] (with_pending ct) ct refl refl refl (omega arith)
      (omega arith) (λ e. none_used 1 refl (sym e))

failed_write-never_done_example :
    is_done (write_rounds broken 100 (7 ∷ []) 0 (with_pending []) []) ≡ false
failed_write-never_done_example =
    failed_write-never_done broken (with_pending []) (7 ∷ []) 100 (λ s rest. omega arith)
      (omega arith)

abbrev line : List (List ℕ)
line =
    codes "1"
    ∷ codes "error"
    ∷ codes "0A"
    ∷ codes "SSL"
    ∷ codes "f"
    ∷ codes "bad"
    ∷ codes "s.c"
    ∷ codes "9"
    ∷ []

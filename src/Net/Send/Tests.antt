-- ===== src/Net/Send/Tests.antt =====
-- A formatted text in the only buffer.
use epic_miner.Common.{◌≡◌, refl, true, false, [], ◌∷◌, some}
use epic_miner.Net.Send.{
  Net, uv_write, send_formatted, get_send_buffer, first_inactive, activate, fill_buf,
  finalize_socket_write, finalize_buf,
}

abbrev one_buf : Net
one_buf = record {
  send_bufs = record { bytes = 9 ∷ 9 ∷ 9 ∷ 9 ∷ []; active = false; writing = false } ∷ [];
  received = [];
  shutting_down = false;
  resolving = false;
  connecting = false;
  open_sock = true;
  closing = false;
}

formatted_runs :
    send_formatted one_buf (5 ∷ 6 ∷ [])
    ≡ some (
      record one_buf {
        send_bufs = record { bytes = 5 ∷ 6 ∷ 0 ∷ 9 ∷ []; active = true; writing = true } ∷ [];
      },
      uv_write 0 (5 ∷ 6 ∷ 0 ∷ 9 ∷ []) 2 ∷ [],
    )
unfolding send_formatted get_send_buffer first_inactive activate fill_buf finalize_socket_write
    finalize_buf
formatted_runs = refl

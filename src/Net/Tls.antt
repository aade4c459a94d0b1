-- ===== src/Net/Tls.antt =====
-- tls_interface.cpp and .hpp: the network interface behind TLS. OpenSSL is a record of operations on a
-- session `S`, which holds the SSL object with its pair of BIOs; `C` is the state of the owner that
-- consume_pt_data changes. `none` is what the C++ leaves undefined: a null session or buffer that is
-- used, or a failed assertion.
pub mod Errors
mod Buffers
pub mod Flush
pub mod Write
mod Samples
mod Tests
use epic_miner.Common.{
  ℕ, zero, suc, ◌+◌, ◌-◌, Bool, true, false, ◌&&◌, not, List, [], ◌∷◌, ◌++◌, Option, none, some,
  ltb, leb, ◌==◌, if◌then◌else◌, length, take, drop, codes,
}
use epic_miner.Common.Int.{ℤ}
use epic_miner.Net.Send.{
  Net, SendBuf, NetAction, notify_error, notify_connect, send_size, get_send_buffer,
  finalize_socket_write, update_buf, fill_buf,
}
use epic_miner.Net.Receive.{Consumer, Drained, consume_loop, recv_size}
use epic_miner.Net.Tls.Errors.{tls_error_text}

pub data Handshake : Type 0 where
  finished wants_io failed : Handshake

pub data ReadRes : Type 0 where
  shut wants_io failed : ReadRes
  got : List ℕ → ReadRes

-- What the source calls of OpenSSL. `errors` is what ERR_print_errors prints, which empties the queue;
-- `peer_digest` is the base64 text of the SHA256 digest of the peer's certificate.
pub record OpenSsl (S : Type 0) : Type 0 where
  pub new_session : Option S
  pub errors : S → S × List ℕ
  pub do_handshake : S → S × Handshake
  pub peer_digest : S → Option (List ℕ)
  pub pending : S → ℕ
  pub bio_read : S → ℕ → S × Option (List ℕ)
  pub bio_write : S → List ℕ → S × Option ℕ
  pub ssl_read : S → ℕ → S × ReadRes
  pub ssl_write : S → List ℕ → S × ℤ
  pub shutdown : S → S

-- `ssl` is none where ssl and app_bio are null; `pt` is pt_buf up to pt_pos.
pub record Tls (S C : Type 0) : Type 0 where
  pub net : Net
  pub ssl : Option S
  pub handshake_complete : Bool
  pub pt : List ℕ
  pub owner : C

abbrev pub TlsReaction : Type 0 → Type 0 → Type 0
TlsReaction S C = Option (Tls S C × List NetAction)

abbrev pub then_do :
    {S C : Type 0} → TlsReaction S C → (Tls S C → TlsReaction S C) → TlsReaction S C
then_do none f = none
then_do (some (t, acts)) f = elim (f t) [ none ↦ none | some (t', more) ↦ some (t', acts ++ more) ]

-- An action of net_interface on the same connection.
abbrev pub on_net : {S C : Type 0} → Tls S C → Option (Net × List NetAction) → TlsReaction S C
on_net t none = none
on_net t (some (n, acts)) = some (record t { net = n }, acts)

module _ {S C : Type 0} (openssl : OpenSsl S) where
  -- The error is notified; the shutdown that follows each call of it is the caller's.
  pub get_tls_error : S → Tls S C → Tls S C × List NetAction
  get_tls_error s t =
      let (s', printed) = openssl.errors s in
      (record t { ssl = some s' }, notify_error (tls_error_text printed) ∷ [])

  -- do_shutdown, given flush_tls_pending.
  pub shutdown_with : (Tls S C → TlsReaction S C) → Tls S C → TlsReaction S C
  shutdown_with flush t = if t.net.shutting_down then some (t, []) else elim t.ssl [
    | none ↦ none
    | some s ↦
        then_do (flush (record t { ssl = some (openssl.shutdown s) }))
          (λ t'. on_net t' (epic_miner.Net.Send.do_shutdown t'.net))
  ]

  -- What flush_tls_pending does with a buffer, given itself.
  pub flush_into : (Tls S C → TlsReaction S C) → ℕ → S → Tls S C → TlsReaction S C
  unfolding shutdown_with get_tls_error
  flush_into flush idx s t =
      let nwrt = openssl.pending s in
      if ltb send_size nwrt
      then then_do (some (t, notify_error (codes "overflow in flush_tls_pending") ∷ []))
          (shutdown_with flush)
      else let (s', read) = openssl.bio_read s nwrt in
        elim read [
          | none ↦ then_do (some (get_tls_error s' t)) (shutdown_with flush)
          | some bytes ↦
              on_net (record t { ssl = some s' })
                (finalize_socket_write (update_buf t.net idx (fill_buf bytes)) idx nwrt)
        ]

  -- flush_tls_pending calls itself through do_shutdown. Each call takes a send buffer.
  pub flush_rounds : ℕ → Tls S C → TlsReaction S C
  unfolding flush_into
  flush_rounds zero t = none
  flush_rounds (suc fuel) t = elim t.ssl [
    | none ↦ none
    | some s ↦ if openssl.pending s == 0 then some (t, []) else elim (get_send_buffer t.net) [
      | none ↦ none
      | some (idx, n) ↦ flush_into (λ t'. flush_rounds fuel t') idx s (record t { net = n })
    ]
  ]

  -- One more round than there are buffers.
  pub flush_tls_pending : Tls S C → TlsReaction S C
  unfolding flush_rounds
  flush_tls_pending t = flush_rounds (suc (length t.net.send_bufs)) t

  pub do_shutdown : Tls S C → TlsReaction S C
  unfolding shutdown_with flush_tls_pending
  do_shutdown t = shutdown_with flush_tls_pending t

  -- get_tls_error, then do_shutdown.
  pub give_up : S → Tls S C → TlsReaction S C
  unfolding get_tls_error do_shutdown
  give_up s t = then_do (some (get_tls_error s t)) do_shutdown

  -- What follows a finished handshake.
  pub report_peer : Tls S C → TlsReaction S C
  unfolding give_up
  report_peer t = elim t.ssl [
    | none ↦ none
    | some s ↦ elim (openssl.peer_digest s) [
      | none ↦ give_up s t
      | some md ↦ some (t, notify_connect (some (codes "SHA256:" ++ md)) ∷ [])
    ]
  ]

  pub do_ssl_handshake : Tls S C → TlsReaction S C
  unfolding give_up flush_tls_pending report_peer
  do_ssl_handshake t = elim t.ssl [
    | none ↦ none
    | some s ↦
        let (s', rv) = openssl.do_handshake s in
        let t' : Tls S C = record t { ssl = some s' } in
        elim rv [
          | finished ↦
              then_do (flush_tls_pending t')
                (λ u. report_peer (record u { handshake_complete = true }))
          | wants_io ↦ flush_tls_pending t'
          | failed ↦ then_do (give_up s' t') flush_tls_pending
        ]
  ]

  -- Where SSL_new or the pair of BIOs fails, do_shutdown passes a null pointer to OpenSSL.
  pub on_connect : Tls S C → TlsReaction S C
  unfolding do_ssl_handshake
  on_connect t = elim t.ssl [
    | some s ↦ none
    | none ↦ elim openssl.new_session [
      | none ↦ none
      | some s ↦
          then_do
            (some
              (record t { ssl = some s; handshake_complete = false }, NetAction.uv_read_start ∷ []))
            do_ssl_handshake
    ]
  ]

  -- A count of bytes, or -1, beside what the handler does.
  abbrev pub with_count :
      Option ℕ → TlsReaction S C → Option ((Tls S C × List NetAction) × Option ℕ)
  with_count rv none = none
  with_count rv (some r) = some (r, rv)

  -- What consume_ct_data does with decrypted bytes; the result says whether to go on.
  pub deliver : Consumer C → List ℕ → Tls S C → Option (Tls S C × Bool)
  deliver consume bytes t = elim (consume_loop consume t.owner (t.pt ++ bytes)) [
    | none ↦ none
    | some d ↦ some (record t { owner = d.state; pt = d.bytes }, d.result)
  ]

  pub read_plaintext : Consumer C → S → ℕ → Tls S C → Option ((Tls S C × List NetAction) × Option ℕ)
  unfolding deliver get_tls_error flush_tls_pending
  read_plaintext consume s rv t =
      let (s', r) = openssl.ssl_read s (recv_size - length t.pt) in
      let t' : Tls S C = record t { ssl = some s' } in
      elim r [
        | shut ↦ some ((t', []), none)
        | failed ↦ some (get_tls_error s' t', none)
        | wants_io ↦ with_count (some rv) (flush_tls_pending t')
        | got bytes ↦ elim (deliver consume bytes t') [
          | none ↦ none
          | some (u, ok) ↦
              if ok then with_count (some rv) (flush_tls_pending u) else some ((u, []), none)
        ]
      ]

  pub consume_ct_data :
      Consumer C → Tls S C → List ℕ → Option ((Tls S C × List NetAction) × Option ℕ)
  unfolding get_tls_error do_ssl_handshake read_plaintext
  consume_ct_data consume t data_in = elim t.ssl [
    | none ↦ none
    | some s ↦
        let (s', wrote) = openssl.bio_write s data_in in
        let t' : Tls S C = record t { ssl = some s' } in
        elim wrote [
          | none ↦ some (get_tls_error s' t', none)
          | some rv ↦
              if not t.handshake_complete
              then with_count (some rv) (do_ssl_handshake t')
              else read_plaintext consume s' rv t'
        ]
  ]

  pub on_socket_closed : Tls S C → TlsReaction S C
  on_socket_closed t =
      let t' : Tls S C = record t { ssl = none; pt = [] } in
      on_net t' (epic_miner.Net.Send.on_socket_closed t'.net)

-- ===== src/Net/Tls/Flush.antt =====
-- tls_interface.cpp: flush_tls_pending and do_shutdown, which call each other.
use epic_miner.Common.{
  ℕ, zero, suc, ◌+◌, ◌≤◌, ◌<◌, ◌≡◌, ◌≢◌, refl, sym, ap, subst, ◌∙◌, Bool, false, Bool-cases,
  Option-cases, inl, inr, List, [], Option, none, some, ltb, lt→ltb, ◌==◌, if◌then◌else◌, length,
  arith,
}
use epic_miner.Net.Send.{
  Net, SendBuf, NetAction, uv_write, notify_error, send_size, get_send_buffer, first_inactive,
  activate, finalize_socket_write, update_buf, fill_buf,
}
use epic_miner.Net.Send.Laws.{in_use}
use epic_miner.Net.Tls.{
  OpenSsl, Tls, TlsReaction, then_do, on_net, get_tls_error, shutdown_with, flush_into,
  flush_rounds, flush_tls_pending,
}
use epic_miner.Net.Tls.Buffers.{free, free-le, get_send_buffer-kept, buffer_given, plain_write}

module _ {S C : Type 0} (openssl : OpenSsl S) where
  shutdown_with-none :
      (flush : Tls S C → TlsReaction S C) (s : S) (t : Tls S C)
      → t.ssl ≡ some s
      → t.net.shutting_down ≡ false
      → flush (record t { ssl = some (openssl.shutdown s) }) ≡ none
      → shutdown_with openssl flush t ≡ none
  unfolding shutdown_with
  shutdown_with-none flush s t e up later =
      let after : Tls S C → TlsReaction S C =
        λ u. on_net u (epic_miner.Net.Send.do_shutdown u.net) in
      let failing : then_do (flush (record t { ssl = some (openssl.shutdown s) })) after ≡ none =
        ap (λ (r : TlsReaction S C). then_do r after) later in
      subst
        (λ (b : Bool).
          (if b then some (t, []) else elim t.ssl [
            | none ↦ none
            | some s' ↦ then_do (flush (record t { ssl = some (openssl.shutdown s') })) after
          ])
          ≡ none)
        (sym up)
        (subst
          (λ (o : Option S).
            elim o [
              | none ↦ none
              | some s' ↦ then_do (flush (record t { ssl = some (openssl.shutdown s') })) after
            ]
            ≡ none)
          (sym e) failing)

  flush_into-overflow :
      (flush : Tls S C → TlsReaction S C) (idx : ℕ) (s : S) (t : Tls S C)
      → send_size < openssl.pending s
      → shutdown_with openssl flush t ≡ none
      → flush_into openssl flush idx s t ≡ none
  unfolding flush_into
  flush_into-overflow flush idx s t much down =
      rw (flush_into, lt→ltb send_size (openssl.pending s) much) (rw (then_do, down) refl)

  overflow_rounds :
      ((s : S) → openssl.pending s ≤ openssl.pending (openssl.shutdown s))
      → (fuel : ℕ) (s : S) (t : Tls S C) → t.ssl ≡ some s
      → t.net.shutting_down ≡ false
      → send_size < openssl.pending s
      → flush_rounds openssl fuel t ≡ none
  unfolding flush_rounds
  overflow_rounds kept zero s t e up much = refl
  overflow_rounds kept (suc fuel) s t e up much =
      let not_none : (openssl.pending s == 0) ≡ false = ground arith in
      let flush : Tls S C → TlsReaction S C = λ t'. flush_rounds openssl fuel t' in
      let into : (idx : ℕ) (n : Net)
          → get_send_buffer t.net ≡ some (idx, n)
          → flush_into openssl flush idx s (record t { net = n }) ≡ none =
        λ idx n taken.
          let n_up = (get_send_buffer-kept t.net n idx taken).0 ∙ up in
          let later =
            overflow_rounds kept fuel (openssl.shutdown s)
              (record t { net = n; ssl = some (openssl.shutdown s) }) refl n_up
              (omega (arith, kept s)) in
          flush_into-overflow flush idx s (record t { net = n }) much
            (shutdown_with-none flush s (record t { net = n }) e n_up later) in
      subst
        (λ (o : Option S).
          elim o [
            | none ↦ none
            | some s' ↦
                if openssl.pending s' == 0 then some (t, []) else elim (get_send_buffer t.net) [
                  | none ↦ none
                  | some (idx, n) ↦ flush_into openssl flush idx s' (record t { net = n })
                ]
          ]
          ≡ none)
        (sym e)
        (rw (not_none) (elim (Option-cases (get_send_buffer t.net)) [
          | inl full ↦ rw (full) refl
          | inr ((idx, n), taken) ↦ rw (taken) (into idx n taken)
        ]))

  -- Where more than the 2048 bytes of a send buffer are pending, and SSL_shutdown leaves what is
  -- pending in place, flush_tls_pending of a connection that is not shutting down has no result, on
  -- any number of rounds: the shutdown that it asks for flushes again, until no buffer is left and a
  -- null one is used.
  pub flush_tls_pending-overflow :
      (s : S) (t : Tls S C) (fuel : ℕ)
      → ((s' : S) → openssl.pending s' ≤ openssl.pending (openssl.shutdown s'))
      → t.ssl ≡ some s
      → t.net.shutting_down ≡ false
      → send_size < openssl.pending s
      → (flush_rounds openssl fuel t ≡ none) × (flush_tls_pending openssl t ≡ none)
  unfolding flush_tls_pending
  flush_tls_pending-overflow s t fuel kept e up much = (
    overflow_rounds kept fuel s t e up much,
    overflow_rounds kept (suc (length t.net.send_bufs)) s t e up much,
  )

  abbrev Agree : (Tls S C → TlsReaction S C) → (Tls S C → TlsReaction S C) → Tls S C → Type 0
  Agree f g t = (s : S) → f (record t { ssl = some s }) ≡ g (record t { ssl = some s })

  shutdown_with-cong :
      (f g : Tls S C → TlsReaction S C) (t : Tls S C)
      → Agree f g t
      → shutdown_with openssl f t ≡ shutdown_with openssl g t
  unfolding shutdown_with
  shutdown_with-cong f g t same = elim (Option-cases t.ssl) [
    | inl null ↦ rw (null) refl
    | inr (s, e) ↦ rw (shutdown_with, e) (rw (same (openssl.shutdown s)) refl)
  ]

  flush_into-cong :
      (f g : Tls S C → TlsReaction S C) (idx : ℕ) (s : S) (t : Tls S C)
      → Agree f g t
      → flush_into openssl f idx s t ≡ flush_into openssl g idx s t
  unfolding flush_into get_tls_error
  flush_into-cong f g idx s t same =
      let nwrt = openssl.pending s in
      let s2 = (openssl.errors (openssl.bio_read s nwrt).0).0 in
      let at_once = shutdown_with-cong f g t same in
      let later = shutdown_with-cong f g (record t { ssl = some s2 }) same in
      elim (Bool-cases (ltb send_size nwrt)) [
        | inl over ↦ rw (flush_into, over) (rw (then_do, at_once) refl)
        | inr fits ↦ elim (Option-cases (openssl.bio_read s nwrt).1) [
          | inl error ↦ rw (flush_into, fits) (rw (error) (rw (then_do, later) refl))
          | inr (bytes, read) ↦ rw (flush_into, fits) (rw (read) refl)
        ]
      ]

  rounds_agree :
      (fuel fuel' : ℕ) (t : Tls S C)
      → free t.net.send_bufs < fuel
      → free t.net.send_bufs < fuel'
      → flush_rounds openssl fuel t ≡ flush_rounds openssl fuel' t
  unfolding flush_rounds
  rounds_agree zero fuel' t a b = absurd (omega arith)
  rounds_agree (suc fuel) zero t a b = absurd (omega arith)
  rounds_agree (suc fuel) (suc fuel') t a b = elim (Option-cases t.ssl) [
    | inl null ↦ rw (null) refl
    | inr (s, e) ↦
        rw (flush_rounds, e)
          (elim (Option-cases (get_send_buffer t.net)) [
            | inl full ↦ rw (full) refl
            | inr ((idx, n), taken) ↦
                let fewer = (get_send_buffer-kept t.net n idx taken).1 in
                let into =
                  flush_into-cong (λ u. flush_rounds openssl fuel u)
                    (λ u. flush_rounds openssl fuel' u) idx s (record t { net = n })
                    (λ s'.
                      rounds_agree fuel fuel' (record t { net = n; ssl = some s' })
                        (omega (arith, fewer)) (omega (arith, fewer))) in
                rw (taken) (
                  ap (λ (r : TlsReaction S C). if openssl.pending s == 0 then some (t, []) else r)
                    into)
          ])
  ]

  -- One round more than there are buffers is enough: more rounds of the recursion of
  -- flush_tls_pending change nothing.
  pub flush_rounds-enough :
      (t : Tls S C) (more : ℕ)
      → flush_rounds openssl (suc (length t.net.send_bufs) + more) t ≡ flush_tls_pending openssl t
  unfolding flush_tls_pending
  flush_rounds-enough t more =
      let few = free-le t.net.send_bufs in
      rounds_agree (suc (length t.net.send_bufs) + more) (suc (length t.net.send_bufs)) t
        (omega (arith, few)) (omega (arith, few))

  flush_into-fits :
      (f : Tls S C → TlsReaction S C) (idx : ℕ) (s s' : S) (t : Tls S C) (bytes : List ℕ)
      → openssl.bio_read s (openssl.pending s) ≡ (s', some bytes)
      → openssl.pending s ≤ send_size
      → flush_into openssl f idx s t
        ≡ on_net
            (record t { ssl = some s' })
            (finalize_socket_write (update_buf t.net idx (fill_buf bytes)) idx (openssl.pending s))
  unfolding flush_into
  flush_into-fits f idx s s' t bytes read fits =
      let no_overflow : ltb send_size (openssl.pending s) ≡ false = ground arith in
      rw (flush_into, no_overflow)
        (rw (ap (λ (p : S × Option (List ℕ)). p.1) read)
          (rw (ap (λ (p : S × Option (List ℕ)). p.0) read) refl))

  -- Where a send buffer is free, and between 1 and 2048 bytes of ciphertext are pending, which
  -- BIO_read gives whole, flush_tls_pending does what net_interface's do_socket_write does with the
  -- ciphertext.
  pub flush_tls_pending-do_socket_write :
      (s s' : S) (t : Tls S C) (bytes : List ℕ)
      → t.ssl ≡ some s
      → openssl.bio_read s (openssl.pending s) ≡ (s', some bytes)
      → length bytes ≡ openssl.pending s
      → 0 < openssl.pending s
      → openssl.pending s ≤ send_size
      → in_use t.net.send_bufs ≢ length t.net.send_bufs
      → flush_tls_pending openssl t
        ≡ on_net (record t { ssl = some s' }) (epic_miner.Net.Send.do_socket_write t.net bytes)
  unfolding flush_tls_pending flush_rounds
  flush_tls_pending-do_socket_write s s' t bytes e read whole positive fits room =
      let (i, n, taken) = buffer_given t.net room in
      let not_none : (openssl.pending s == 0) ≡ false = ground arith in
      let f : Tls S C → TlsReaction S C = λ u. flush_rounds openssl (length t.net.send_bufs) u in
      let into = flush_into-fits f i s s' (record t { net = n }) bytes read fits in
      let plain = plain_write t.net n i bytes taken (omega (arith, whole)) in
      let same_length =
        ap
          (λ (k : ℕ).
            on_net (record t { ssl = some s' })
              (finalize_socket_write (update_buf n i (fill_buf bytes)) i k))
          (sym whole) in
      let flushed =
        into
        ∙ (same_length
            ∙ ap (λ (r : Option (Net × List NetAction)). on_net (record t { ssl = some s' }) r)
                (sym plain)) in
      rw (flush_rounds, e) (rw (not_none) (rw (taken) flushed))

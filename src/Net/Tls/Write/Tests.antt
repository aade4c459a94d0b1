-- ===== src/Net/Tls/Write/Tests.antt =====
-- The loop where OpenSSL never takes a byte, and where it reports an error.
use epic_miner.Common.{◌≡◌, refl, [], ◌∷◌}
use epic_miner.Common.Int.{◌+ℤ◌}
use epic_miner.Net.Tls.{
  give_up, get_tls_error, do_shutdown, shutdown_with, flush_tls_pending, flush_rounds,
}
use epic_miner.Net.Tls.Samples.{broken, refusing, with_pending}
use epic_miner.Net.Tls.Write.{
  running, undefined, write_round, write_rounds, after_round, do_socket_write,
}

outcomes :
    (write_rounds broken 3 (7 ∷ []) 0 (with_pending []) [] ≡ running)
    × (do_socket_write refusing (with_pending []) (7 ∷ []) ≡ undefined)
unfolding do_socket_write write_rounds write_round after_round give_up get_tls_error do_shutdown
    shutdown_with flush_tls_pending flush_rounds epic_miner.Net.Send.do_shutdown ◌+ℤ◌
outcomes = (refl, refl)

-- ===== src/Pool/Setup/Tests.antt =====
-- A pool without TLS, one with it, and an address without a port.
use epic_miner.Common.{◌≡◌, refl, true, false, [], ◌∷◌, some, codes, c_str}
use epic_miner.Net.Address.{strrchr, host_of, set_hostname}
use epic_miner.Pool.State.{PoolState, net_shutdown, net_on_error}
use epic_miner.Pool.Samples.{sample_pool, sample_job}
use epic_miner.Pool.Setup.{
  new_pool, init_pool, choose_net, finish_init, Setup, do_disconnect, get_pool_job, get_pool_state,
  get_last_connect_attempt,
}

abbrev plain : Setup
plain =
    init_pool false (codes "pool:3333") false (codes "ab") (codes "user") (codes "pass") []
      (new_pool 0 sample_pool)

abbrev secure : Setup
secure =
    init_pool false (codes "pool:3333") true (codes "ab") (codes "user") (codes "pass") []
      (new_pool 0 sample_pool)

abbrev portless : Setup
portless =
    init_pool false (codes "pool") false [] (codes "user") (codes "pass") []
      (new_pool 0 sample_pool)

made :
    (plain.target ≡ some (codes "pool", codes "3333"))
    × (plain.reaction.0.tls_fp ≡ [])
    × (plain.reaction.0.username ≡ codes "user")
    × (secure.reaction.0.tls ≡ true)
    × (secure.reaction.0.tls_fp ≡ codes "ab")
    × (portless.done ≡ false)
    × (portless.reaction.0.hostname ≡ [])
unfolding new_pool init_pool choose_net finish_init set_hostname strrchr host_of c_str net_on_error
made = (refl, refl, refl, refl, refl, refl, refl)

leaves : do_disconnect sample_pool ≡ (sample_pool, net_shutdown ∷ [])
unfolding do_disconnect
leaves = refl

shows :
    (get_pool_job sample_pool ≡ sample_job)
    × (get_pool_state sample_pool ≡ PoolState.has_job)
    × (get_last_connect_attempt sample_pool ≡ 0)
unfolding get_pool_job get_pool_state get_last_connect_attempt
shows = (refl, refl, refl)

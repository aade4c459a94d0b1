-- ===== src/Pool/State/Tests.antt =====
-- The pool's handlers of its connection, one after another.
use epic_miner.Common.{◌≡◌, refl, true, [], ◌∷◌, codes, none, some, c_str, bytes_eq}
use epic_miner.Pool.State.{
  PoolState, on_pool_disconnect, net_on_close, fingerprint_refused, do_login_call, net_on_connect,
}
use epic_miner.Pool.Samples.{sample_pool}

closes : (net_on_close sample_pool).1 ≡ on_pool_disconnect 0 ∷ []
unfolding net_on_close
closes = refl

fingerprint_runs : fingerprint_refused (codes "ab") (some (codes "ac")) ≡ true
unfolding fingerprint_refused bytes_eq c_str
fingerprint_runs = refl

logs_in :
    net_on_connect sample_pool none 0 5
    ≡ do_login_call (record sample_pool { state = PoolState.connected }) 0 5
unfolding net_on_connect do_login_call fingerprint_refused
logs_in = refl

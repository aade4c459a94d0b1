-- ===== src/Miner/Loop/Tests.antt =====
-- The loops on a small job: the hash is the nonce itself, and the target lets the first turn through.
use epic_miner.Common.{
  ℕ, zero, suc, ◌≡◌, refl, ◌+◌, ◌^◌, ◌/◌, true, false, List, [], ◌∷◌, ◌++◌, none, some, length,
  drop, arith,
}
use epic_miner.Vector32.{V32, load_le, get_work32, bswap}
use epic_miner.Job.{PowType, MinerJob}
use epic_miner.Miner.Nonces.{next_nonce}
use epic_miner.Miner.Loop.{
  Worker, put_nonce, record_hash, rx_begin, rx_turn, pp_begin, pp_turn, end_loop,
  dataset_check_loop, idle_loop, hashes, idles, thread_main,
}
use epic_miner.Miner.Loop.Shares.{shares, tried, rx_run, pp_run}
use epic_miner.Miner.Loop.Search.{rx_hash_of, rx_run_lem}

abbrev zeros : ℕ → List ℕ
zeros zero = []
zeros (suc n) = 0 ∷ zeros n

-- The first bytes of the blob are the hash: the nonce in it is at its second word.
abbrev first_bytes : List ℕ → V32
first_bytes blob = record { bytes = drop 4 blob }

abbrev nonce_bytes : ℕ → List ℕ → ℕ → V32
nonce_bytes height header nonce = record { bytes = 0 ∷ 0 ∷ nonce / 2 ^ 8 ∷ nonce ∷ [] }

abbrev small_job : MinerJob
small_job = record {
  id = 7 ∷ [];
  blob = zeros 512;
  blob_len = 16;
  nonce_pos = 4;
  target = 1;
  ds = none;
  dataset_id = 0;
  height = 0;
  nonce = some 0;
  pow = PowType.randomx;
}

abbrev worker : Worker
worker = record {
  thd_id = 1;
  job = small_job;
  nonce_ctr = 0;
  found = [];
  hash_count = 10;
  is_hashing = false;
}

two_turns :
    let w = rx_run first_bytes (0 ∷ 16384 ∷ []) worker in
    (w.found
      ≡ record { id = 7 ∷ []; nonce = 0; res_hash = first_bytes (zeros 16); miner_id = 1 } ∷ [])
    × (w.hash_count ≡ 12)
unfolding rx_run rx_turn record_hash put_nonce get_work32 bswap next_nonce
two_turns = (refl, refl)

pp_two_turns :
    (pp_begin (λ bytes. bytes) worker
      ≡ some
          (record { nonce_base = 0; header_hash = zeros 8 }, record worker { is_hashing = true }))
    × ((pp_run nonce_bytes
          (record { nonce_base = 0; header_hash = [] })
          (16384 ∷ 0 ∷ [])
          worker).hash_count
        ≡ 12)
unfolding pp_run pp_turn record_hash pp_begin load_le get_work32 next_nonce
pp_two_turns = (refl, refl)

ended : (end_loop (record worker { is_hashing = true })).is_hashing ≡ false
unfolding end_loop
ended = refl

-- The dataset becomes ready at the second look; the job changes before; neither has happened yet.
looks :
    (dataset_check_loop 5 1
        (record { ready_id = 0; current_job = 1 } ∷ record { ready_id = 5; current_job = 2 } ∷ [])
      ≡ some true)
    × (dataset_check_loop 5 1
          (record { ready_id = 0; current_job = 2 } ∷ record { ready_id = 5; current_job = 2 } ∷ [])
        ≡ some false)
    × (dataset_check_loop 5 1 (record { ready_id = 0; current_job = 1 } ∷ []) ≡ none)
    × (idle_loop 1
          (record { ready_id = 0; current_job = 1 } ∷ record { ready_id = 0; current_job = 2 } ∷ [])
        ≡ true)
unfolding dataset_check_loop idle_loop
looks = (refl, refl, refl, refl)

abbrev counters : List ℕ
counters = 0 ∷ 16384 ∷ []

rx_run_lem_example :
    (w' : Worker) × ((rx_begin worker ≡ some w')
      × (((rx_run first_bytes counters w').found
            ≡ [] ++ shares (rx_hash_of first_bytes small_job) small_job 1 (tried 0 counters))
          × ((rx_run first_bytes counters w').hash_count ≡ 10 + length counters)))
rx_run_lem_example =
    rx_run_lem first_bytes worker counters refl (omega arith) (omega arith, (omega arith, tt))

abbrev idle_job : MinerJob
idle_job = record small_job { pow = PowType.idle }

main_turns :
    thread_main PowType.randomx
      ((true, idle_job) ∷ (true, small_job) ∷ (false, small_job) ∷ (true, small_job) ∷ [])
    ≡ idles idle_job ∷ hashes small_job ∷ []
unfolding thread_main
main_turns = refl

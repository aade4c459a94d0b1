-- ===== src/Executor/Report/Tests.antt =====
-- Reports of two miners and of a log of three errors.
use epic_miner.Common.{
  ℕ, ◌+◌, ◌≤◌, ◌<◌, ◌≡◌, refl, true, List, [], ◌∷◌, ◌++◌, none, some, replicate, length, take,
}
use epic_miner.Misc.HumanTs.{human_ts}
use epic_miner.Job.{MinerType, randomx_cpu_miner, progpow_cpu_miner}
use epic_miner.Miner.Record.{Miner}
use epic_miner.Executor.Errors.{ErrorInfo, SessionCounters}
use epic_miner.Executor.Report.{
  last_seen, count, Row, column, row_at, error_rows, print_error_log, print_uptime,
  print_share_totals, report_time, Rates, rates_of, add_row, report_rows, print_hashrate_report,
  close, on_key_pressed, share_rate, print_accpted_share,
}
use epic_miner.Executor.Report.Laws.{texts, error_rows_lem}

abbrev miner_of : ℕ → MinerType → Miner
miner_of n kind = record {
  thd_id = n;
  kind = kind;
  is_hashing = true;
  hash_count = 5;
  hash_log = record { pos = 0; slots = [] };
}

abbrev info : ErrorInfo
info = record { last_seen = 100; count = 2 }

abbrev message : List ℕ
message = replicate 60 b'a' ++ replicate 40 b'b'

one_entry :
    print_error_log 4000 ((message, info) ∷ [])
    ≡ some (
        (record { text = replicate 60 b'a'; cell = last_seen 1 5 0 }
          ∷ record { text = replicate 40 b'b'; cell = count 2 }
          ∷ [])
        ∷ [])
unfolding print_error_log error_rows row_at column human_ts
one_entry = refl

too_short : print_error_log 4000 ((b'a' ∷ [], info) ∷ []) ≡ none
unfolding print_error_log error_rows row_at column
too_short = refl

abbrev session : SessionCounters
session = record {
  session_timestamp = 100;
  accepted_shares_cnt = 3;
  rejected_shares_cnt = 1;
  total_diff = 40;
}

counters :
    (print_uptime 3761 session ≡ record { days = 0; hrs = 1; mins = 1; secs = 1 })
    × (print_share_totals session ≡ (3, 40, 1))
    × (report_time 100000 session ≡ 86400)
unfolding print_uptime print_share_totals report_time human_ts
counters = (refl, refl, refl)

keys :
    (on_key_pressed 3 ≡ close ∷ []) × (on_key_pressed 0 ≡ []) × (length (on_key_pressed b'r') ≡ 7)
unfolding on_key_pressed
keys = (refl, refl, refl)

abbrev plus : ℕ → ℕ → ℕ
plus a b = a + b

abbrev later : ℕ → ℕ → ℕ
later a b = b

abbrev rate : ℕ → ℕ → ℕ
rate i period_s = 100 + i

abbrev peak : ℕ → ℕ
peak i = 200

abbrev nothing : Rates ℕ
nothing = record { hr_10s = 0; hr_60s = 0; hr_10m = 0; hr_60m = 0; hr_peak = 0; hr_sess = 0 }

abbrev miners : List Miner
miners =
    miner_of 0 randomx_cpu_miner ∷ miner_of 1 progpow_cpu_miner ∷ miner_of 2 randomx_cpu_miner ∷ []

no_gpu :
    print_hashrate_report 0 plus later rate peak 3761 session miners MinerType.progpow_gpu_miner
    ≡ none
unfolding print_hashrate_report
no_gpu = refl

two_miners :
    (report_rows 0 plus later rate peak 60 randomx_cpu_miner miners 0 nothing).1.hr_10s ≡ 202
unfolding report_rows add_row rates_of
two_miners = refl

error_rows_lem_example :
    (length message < 60 → error_rows 4000 message info ≡ none)
    × (60 ≤ length message
        → (rows : List Row) × ((error_rows 4000 message info ≡ some rows)
            × (texts rows ≡ take 240 message)))
error_rows_lem_example = error_rows_lem 4000 message info

-- Rates are whole numbers here, and the miner at place i has i + 3 hashes a second.
shares_seen :
    let line =
      print_accpted_share 0 ◌+◌
        (λ d. true)
        (λ i period. i + 3)
        9
        40
        progpow_cpu_miner
        (miner_of 0 progpow_cpu_miner
          ∷ miner_of 1 randomx_cpu_miner
          ∷ miner_of 2 progpow_cpu_miner
          ∷ [])
        session in
    (line.rate ≡ some 8) × (line.diff ≡ 9) × (line.rtt ≡ 40)
unfolding print_accpted_share share_rate
shares_seen = (refl, refl, refl)

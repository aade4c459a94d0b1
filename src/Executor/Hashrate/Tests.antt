-- ===== src/Executor/Hashrate/Tests.antt =====
-- Rates of a log of five records.
use epic_miner.Common.{◌≡◌, refl, ◌*◌, List, [], ◌∷◌, ◌++◌, map, none, some, replicate, arith}
use epic_miner.Common.Int.{pos, negsuc, ◌-ℤ◌, ◌*ℤ◌}
use epic_miner.Executor.Hashrate.{log_rate, get_hashrate, get_hashrate_peak, log_peak}
use epic_miner.Executor.Hashrate.Laws.{
  Mark, active, unused, before_period, rate_since, log_rate_lem,
}

abbrev newest : Mark
newest = record { at_ms = 40000; hashed = 900 }

abbrev older : List Mark
older =
    record { at_ms = 39000; hashed = 800 }
    ∷ record { at_ms = 29000; hashed = 300 }
    ∷ record { at_ms = 9000; hashed = 100 }
    ∷ []

ten_seconds : log_rate 10 (active newest ∷ (map active older ++ unused ∷ [])) ≡ some (600, 11000)
unfolding log_rate ◌-ℤ◌
ten_seconds = refl

-- The time on the far side of an idle record is not counted.
with_idle :
    log_rate 10 (
      record { time = pos 40000; hashes = pos 900 }
      ∷ record { time = pos 30000; hashes = pos 400 }
      ∷ record { time = negsuc 19999; hashes = pos 300 }
      ∷ record { time = pos 10000; hashes = pos 300 }
      ∷ record { time = pos 9000; hashes = pos 200 }
      ∷ [])
    ≡ some (600, 11000)
unfolding log_rate ◌-ℤ◌
with_idle = refl

best :
    log_peak (active newest ∷ (map active older ++ unused ∷ []))
    ≡ record { hashes = pos 600; time_ms = 11000 }
unfolding log_peak ◌-ℤ◌ ◌*ℤ◌
best = refl

no_such_miner :
    (get_hashrate [] 0 10 ≡ none)
    × (get_hashrate_peak [] 0 ≡ record { hashes = pos 0; time_ms = 1 })
unfolding get_hashrate get_hashrate_peak
no_such_miner = (refl, refl)

log_rate_lem_example :
    log_rate 10 (active newest ∷ (map active older ++ replicate 1 unused))
    ≡ rate_since newest (before_period (10 * 1000) 40000 older)
log_rate_lem_example =
    log_rate_lem 10 newest older 1
      (
        omega arith,
        omega arith,
        omega arith,
        (
          omega arith,
          omega arith,
          omega arith,
          (omega arith, omega arith, omega arith, omega arith),
        ),
      )
      (omega arith) (omega arith) (omega arith)

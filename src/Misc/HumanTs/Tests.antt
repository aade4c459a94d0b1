-- ===== src/Misc/HumanTs/Tests.antt =====
-- A duration of two days and some hours, and the theorem at it.
use epic_miner.Common.{◌≡◌, refl}
use epic_miner.Misc.HumanTs.{human_ts}

two_days_runs : human_ts 180_061 ≡ record { days = 2; hrs = 2; mins = 1; secs = 1 }
unfolding human_ts
two_days_runs = refl

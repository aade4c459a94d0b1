-- ===== src/Misc/HumanTs.antt =====
-- misc.hpp: human_ts, a duration in seconds taken apart for display.
mod Tests
use epic_miner.Common.{ℕ, ◌+◌, ◌-◌, ◌*◌, ◌/◌, ◌%◌, ◌^◌, ◌≤◌, ◌<◌, ◌≡◌, refl, arith}

pub record HumanTs : Type 0 where
  pub days : ℕ
  pub hrs : ℕ
  pub mins : ℕ
  pub secs : ℕ

-- uint32_t fields; `ts_sec` is not negative. Each field is narrowed before it is divided.
unfoldable pub human_ts : ℕ → HumanTs
human_ts ts_sec =
    let secs = ts_sec % 60 in
    let ts_sec1 = ts_sec - secs in
    let mins = ts_sec1 % (60 * 60) in
    let ts_sec2 = ts_sec1 - mins in
    let hrs = ts_sec2 % (60 * 60 * 24) in
    let ts_sec3 = ts_sec2 - hrs in
    let days = ts_sec3 % 2 ^ 32 in
    record { days = days / (24 * 60 * 60); hrs = hrs / (60 * 60); mins = mins / 60; secs = secs }

-- Below 2 ^ 32 seconds the four fields are in their usual ranges and add up to the duration.
pub human_ts_lem :
    (ts_sec : ℕ)
    → ts_sec < 2 ^ 32
    → let t = human_ts ts_sec in
      (t.days * 86400 + t.hrs * 3600 + t.mins * 60 + t.secs ≡ ts_sec)
      × (t.hrs < 24)
      × (t.mins < 60)
      × (t.secs < 60)
unfolding human_ts
human_ts_lem ts_sec h = omega arith

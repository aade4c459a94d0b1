-- ===== src/Executor/Hashrate.antt =====
-- executor.hpp: get_hashrate and get_hashrate_peak over a miner's hash log. A rate is given by its
-- numerator and denominator, hashes and milliseconds: the division of doubles, and its rounding in
-- the comparison of two rates, are left out.
pub mod Laws
mod Tests
use epic_miner.Common.{
  ℕ, zero, suc, ◌+◌, ◌-◌, ◌*◌, ◌%◌, ◌^◌, Bool, true, false, ◌&&◌, not, List, [], ◌∷◌, Option, none,
  some, ltb, ◌==◌, if◌then◌else◌, get_elem?, length,
}
use epic_miner.Common.Int.{ℤ, pos, negsuc, pos_part, neg_part, ◌-ℤ◌, ◌*ℤ◌, ltb_ℤ}
use epic_miner.Misc.RingBuffer.{RingBuffer, get}
use epic_miner.Miner.Record.{HashRec, Miner, hashlog_size}

-- The conversion of a signed difference to uint64_t.
abbrev pub to_uint64 : ℤ → ℕ
to_uint64 (pos n) = n % 2 ^ 64
to_uint64 (negsuc n) = 2 ^ 64 - 1 - n % 2 ^ 64

abbrev pub is_zero : ℤ → Bool
is_zero (pos n) = n == 0
is_zero (negsuc n) = false

abbrev pub is_positive : ℤ → Bool
is_positive (pos n) = ltb 0 n
is_positive (negsuc n) = false

-- hash_log[i], hash_log[i + 1], …: the `k` records from `i` on.
pub records : RingBuffer HashRec → ℕ → ℕ → List HashRec
records log zero i = []
records log (suc k) i =
    let rest = records log k (i + 1) in
    elim (get hashlog_size log i) [ none ↦ [] | some r ↦ r ∷ rest ]

-- The loop of get_hashrate behind the record `newer`; `none` is the result 0.
pub rate_loop : ℕ → HashRec → List HashRec → ℕ → ℕ → Option (ℕ × ℕ)
rate_loop limit newer [] hash_count time_count = none
rate_loop limit newer (r ∷ older) hash_count time_count =
    let time_count' = (time_count + to_uint64 (newer.time -ℤ r.time)) % 2 ^ 64 in
    let hash_count' = (hash_count + to_uint64 (newer.hashes -ℤ r.hashes)) % 2 ^ 64 in
    let counted = rate_loop limit r older hash_count' time_count' in
    let skipped = rate_loop limit r older hash_count time_count in
    if is_zero r.time
    then none
    else if is_positive newer.time && is_positive r.time
    then if ltb limit time_count' then some (hash_count', time_count') else counted
    else skipped

pub log_rate : ℕ → List HashRec → Option (ℕ × ℕ)
unfolding rate_loop
log_rate period_s [] = none
log_rate period_s (newest ∷ older) =
    if is_zero newest.time then none else rate_loop (period_s * 1000 % 2 ^ 64) newest older 0 0

pub get_hashrate : List Miner → ℕ → ℕ → Option (ℕ × ℕ)
unfolding log_rate records
get_hashrate miners thd_idx period_s = elim (get_elem? miners thd_idx) [
  | none ↦ none
  | some m ↦ log_rate period_s (records m.hash_log hashlog_size 0)
]

-- The best rate so far: `hashes` may be negative only where a log is not monotone.
pub record Peak : Type 0 where
  pub hashes : ℤ
  pub time_ms : ℕ

-- hps > peak_hps
pub exceeds : Peak → Peak → Bool
exceeds a b = ltb_ℤ (b.hashes *ℤ pos a.time_ms) (a.hashes *ℤ pos b.time_ms)

-- The loop of get_hashrate_peak; `newer` is hash_log[p].
pub peak_loop : HashRec → List HashRec → Peak → Peak
unfolding exceeds
peak_loop newer [] peak = peak
peak_loop newer (r ∷ older) peak =
    let delta = to_uint64 (newer.time -ℤ r.time) in
    let window : Peak = record { hashes = newer.hashes -ℤ r.hashes; time_ms = delta } in
    let best = if exceeds window peak then window else peak in
    let moved = peak_loop r older best in
    let kept = peak_loop newer older peak in
    if is_zero r.time then peak else if ltb 10000 delta then moved else kept

abbrev pub no_peak : Peak
no_peak = record { hashes = pos 0; time_ms = 1 }

pub log_peak : List HashRec → Peak
unfolding peak_loop
log_peak [] = no_peak
log_peak (newest ∷ older) = peak_loop newest (newest ∷ older) no_peak

pub get_hashrate_peak : List Miner → ℕ → Peak
unfolding log_peak records
get_hashrate_peak miners thd_idx = elim (get_elem? miners thd_idx) [
  | none ↦ no_peak
  | some m ↦ log_peak (records m.hash_log hashlog_size 0)
]

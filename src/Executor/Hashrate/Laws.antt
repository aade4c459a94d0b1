-- ===== src/Executor/Hashrate/Laws.antt =====
-- While a miner hashes without a break, a rate is the difference of two records of its log.
use epic_miner.Common.{
  ℕ, zero, suc, ◌+◌, ◌-◌, ◌*◌, ◌%◌, ◌^◌, ◌≤◌, ◌<◌, ◌≡◌, refl, sym, ap₂, ◌∙◌, false, List, [], ◌∷◌,
  ◌++◌, map, Option, none, some, ltb, lt→ltb, ◌==◌, if◌then◌else◌, Bool-cases, inl, inr, replicate,
  arith,
}
use epic_miner.Common.Int.{pos, ◌-ℤ◌}
use epic_miner.Miner.Record.{HashRec}
use epic_miner.Executor.Hashrate.{to_uint64, rate_loop, log_rate}

-- A record of a miner that hashes.
pub record Mark : Type 0 where
  pub at_ms : ℕ
  pub hashed : ℕ

abbrev pub active : Mark → HashRec
active m = record { time = pos m.at_ms; hashes = pos m.hashed }

-- A record that was never written.
abbrev pub unused : HashRec
unused = record { time = pos 0; hashes = pos 0 }

-- Newest first: times and counts do not grow towards the older records, and no time is zero.
abbrev pub IsBusy : Mark → List Mark → Type 0
IsBusy m [] = 0 < m.at_ms
IsBusy m (r ∷ older) = (0 < m.at_ms) × (r.at_ms ≤ m.at_ms) × (r.hashed ≤ m.hashed) × IsBusy r older

-- The newest of the records that are older than the period.
pub before_period : ℕ → ℕ → List Mark → Option Mark
before_period limit now [] = none
before_period limit now (r ∷ older) =
    let rest = before_period limit now older in if ltb limit (now - r.at_ms) then some r else rest

pub rate_since : Mark → Option Mark → Option (ℕ × ℕ)
rate_since newest none = none
rate_since newest (some r) = some (newest.hashed - r.hashed, newest.at_ms - r.at_ms)

added :
    (total newer older : ℕ)
    → older ≤ newer
    → newer ≤ total
    → total < 2 ^ 63
    → (total - newer + to_uint64 (pos newer -ℤ pos older)) % 2 ^ 64 ≡ total - older
unfolding ◌-ℤ◌
added total newer older a b c = ground arith

not_zero : (n : ℕ) → 0 < n → (n == 0) ≡ false
not_zero n h = ground arith

IsBusy-positive : (m : Mark) (older : List Mark) → IsBusy m older → 0 < m.at_ms
IsBusy-positive m [] busy = busy
IsBusy-positive m (r ∷ older) busy = busy.0

loop_lem :
    (limit : ℕ) (newest m : Mark) (older : List Mark) (k : ℕ)
    → IsBusy m older
    → m.at_ms ≤ newest.at_ms
    → m.hashed ≤ newest.hashed
    → newest.at_ms < 2 ^ 63
    → newest.hashed < 2 ^ 63
    → rate_loop limit
        (active m)
        (map active older ++ replicate k unused)
        (newest.hashed - m.hashed)
        (newest.at_ms - m.at_ms)
      ≡ rate_since newest (before_period limit newest.at_ms older)
unfolding rate_loop before_period rate_since
loop_lem limit newest m [] zero busy a b c d = refl
loop_lem limit newest m [] (suc k) busy a b c d = refl
loop_lem limit newest m (r ∷ older) k (first, later, fewer, busy) a b c d =
    let time = added newest.at_ms m.at_ms r.at_ms later a c in
    let count = added newest.hashed m.hashed r.hashed fewer b d in
    let ih = loop_lem limit newest r older k busy (omega arith) (omega arith) c d in
    rw
      (
        time,
        count,
        not_zero r.at_ms (IsBusy-positive r older busy),
        lt→ltb 0 m.at_ms first,
        lt→ltb 0 r.at_ms (IsBusy-positive r older busy),
      )
      (elim (Bool-cases (ltb limit (newest.at_ms - r.at_ms))) [
        | inl long ↦ rw (long) refl
        | inr short ↦ rw (short) ih
      ])

-- Condition: the newest record and those before it are of a miner that hashed without a break since
-- the log began, with times and counts below 2^63, and the period has less than 2^64 milliseconds.
-- Then get_hashrate is the number of hashes from the newest record that is older than the period to
-- the newest of all, over the time between these two; and 0 where no record is as old as that.
pub log_rate_lem :
    (period_s : ℕ) (newest : Mark) (older : List Mark) (k : ℕ)
    → IsBusy newest older
    → newest.at_ms < 2 ^ 63
    → newest.hashed < 2 ^ 63
    → period_s * 1000 < 2 ^ 64
    → log_rate period_s (active newest ∷ (map active older ++ replicate k unused))
      ≡ rate_since newest (before_period (period_s * 1000) newest.at_ms older)
unfolding log_rate
log_rate_lem period_s newest older k busy c d small =
    let start : period_s * 1000 % 2 ^ 64 ≡ period_s * 1000 = omega arith in
    let none_yet : newest.at_ms - newest.at_ms ≡ 0 = omega arith in
    let none_counted : newest.hashed - newest.hashed ≡ 0 = omega arith in
    let found =
      loop_lem (period_s * 1000) newest newest older k busy (omega arith) (omega arith) c d in
    rw (not_zero newest.at_ms (IsBusy-positive newest older busy), start)
      (ap₂
          (λ (h : ℕ) (t : ℕ).
            rate_loop (period_s * 1000) (active newest) (map active older ++ replicate k unused) h
              t)
          (sym none_counted) (sym none_yet)
        ∙ found)

-- ===== src/Executor/Report.antt =====
-- executor.hpp and executor.cpp: the reports, and on_key_pressed. What a report prints is data: the
-- decimal digits, the colours, the frames of the tables and the doubles are left out.
pub mod Laws
mod Tests
use epic_miner.Common.{
  ℕ, zero, suc, ◌+◌, ◌-◌, ◌*◌, ◌%◌, ◌^◌, Bool, true, false, ◌||◌, not, List, [], ◌∷◌, ◌++◌, Option,
  none, some, ltb, leb, ◌==◌, if◌then◌else◌, length, take, drop, map,
}
use epic_miner.Job.{MinerType, all_miner_types}
use epic_miner.Misc.HumanTs.{HumanTs, human_ts}
use epic_miner.Miner.Record.{Miner}
use epic_miner.Executor.Errors.{ErrorInfo, ErrorLog, SessionCounters}

-- The right column of a row of the error log.
pub data Cell : Type 0 where
  blank : Cell
  last_seen : ℕ → ℕ → ℕ → Cell
  count : ℕ → Cell

-- `text` is printed in a column of 60, filled with spaces.
pub record Row : Type 0 where
  pub text : List ℕ
  pub cell : Cell

-- What %.60s prints from `offset` in the string; `none` is a read behind the terminating NUL.
pub column : List ℕ → ℕ → Option (List ℕ)
column msg offset = if leb offset (length msg) then some (take 60 (drop offset msg)) else none

pub row_at : List ℕ → ℕ → Cell → Option (List Row) → Option (List Row)
unfolding column
row_at msg offset c later = elim (column msg offset) [
  | none ↦ none
  | some text ↦ elim later [
    | none ↦ none
    | some rows ↦ some (record { text = text; cell = c } ∷ rows)
  ]
]

-- The rows of one entry of the error log: `input` is where the row with the time starts. The clock
-- does not run backwards.
pub error_rows : ℕ → List ℕ → ErrorInfo → Option (List Row)
unfolding row_at
error_rows now msg info =
    let ts = human_ts (now - info.last_seen) in
    let seen = last_seen (ts.days * 24 + ts.hrs) ts.mins ts.secs in
    let long_in = ltb 120 (length msg) in
    let input = if long_in then 60 else 0 in
    let extra =
      if not long_in
      then some []
      else if ltb 180 (length msg)
      then row_at msg (input + 120) blank (some [])
      else some (record { text = []; cell = blank } ∷ []) in
    let entry = row_at msg input seen (row_at msg (input + 60) (count info.count) extra) in
    if long_in then row_at msg 0 blank entry else entry

-- All entries, each followed by a line.
pub print_error_log : ℕ → ErrorLog → Option (List (List Row))
unfolding error_rows
print_error_log now [] = some []
print_error_log now ((msg, info) ∷ log) =
    let rest = print_error_log now log in
    elim (error_rows now msg info) [
      | none ↦ none
      | some rows ↦ elim rest [ none ↦ none | some others ↦ some (rows ∷ others) ]
    ]

pub print_uptime : ℕ → SessionCounters → HumanTs
print_uptime now ctr =
    if ctr.session_timestamp == 0
    then record { days = 0; hrs = 0; mins = 0; secs = 0 }
    else human_ts (now - ctr.session_timestamp)

-- Accepted shares, total difficulty, rejected shares.
pub print_share_totals : SessionCounters → ℕ × ℕ × ℕ
print_share_totals ctr = (ctr.accepted_shares_cnt, ctr.total_diff, ctr.rejected_shares_cnt)

abbrev pub same_kind : MinerType → MinerType → Bool
same_kind MinerType.randomx_cpu_miner MinerType.randomx_cpu_miner = true
same_kind MinerType.progpow_cpu_miner MinerType.progpow_cpu_miner = true
same_kind MinerType.progpow_gpu_miner MinerType.progpow_gpu_miner = true
same_kind _ _ = false

-- The seconds of the session, at most a day; 0 where there is none.
pub report_time : ℕ → SessionCounters → ℕ
report_time now ctr =
    let session_time = if ctr.session_timestamp == 0 then 0 else now - ctr.session_timestamp in
    if ltb (24 * 60 * 60) session_time then 24 * 60 * 60 else session_time

-- The columns of a row of the hash rate report.
pub record Rates (D : Type 0) : Type 0 where
  pub hr_10s : D
  pub hr_60s : D
  pub hr_10m : D
  pub hr_60m : D
  pub hr_peak : D
  pub hr_sess : D

-- Doubles, with get_hashrate and get_hashrate_peak of the executor.
module _ {D : Type 0} (zero_hps : D) (plus max : D → D → D) (rate : ℕ → ℕ → D) (peak : ℕ → D) where
  pub rates_of : ℕ → ℕ → Rates D
  rates_of session_time i = record {
    hr_10s = rate i 10;
    hr_60s = rate i 60;
    hr_10m = rate i (10 * 60);
    hr_60m = rate i (60 * 60);
    hr_peak = peak i;
    hr_sess = if ltb 45 session_time then rate i (session_time - 30) else zero_hps;
  }

  -- One row's part in the sums.
  pub add_row : Rates D → Rates D → Rates D
  add_row sum row = record {
    hr_10s = plus sum.hr_10s row.hr_10s;
    hr_60s = plus sum.hr_60s row.hr_60s;
    hr_10m = plus sum.hr_10m row.hr_10m;
    hr_60m = plus sum.hr_60m row.hr_60m;
    hr_peak = max sum.hr_peak row.hr_peak;
    hr_sess = row.hr_sess;
  }

  -- The rows of the miners of a type, with their places, and the sums, which start from `sum`.
  pub report_rows : ℕ → MinerType → List Miner → ℕ → Rates D → List (ℕ × Rates D) × Rates D
  unfolding rates_of add_row
  report_rows session_time kind [] i sum = ([], sum)
  report_rows session_time kind (m ∷ miners) i sum =
      let row = rates_of session_time i in
      let skipped = report_rows session_time kind miners (i + 1) sum in
      let counted = report_rows session_time kind miners (i + 1) (add_row sum row) in
      if same_kind m.kind kind then ((i, row) ∷ counted.0, counted.1) else skipped

  -- `none` is a type without miners, of which nothing is printed.
  pub print_hashrate_report :
      ℕ → SessionCounters → List Miner → MinerType → Option (List (ℕ × Rates D) × Rates D)
  unfolding report_rows report_time
  print_hashrate_report now ctr miners kind =
      let start : Rates D = record {
        hr_10s = zero_hps;
        hr_60s = zero_hps;
        hr_10m = zero_hps;
        hr_60m = zero_hps;
        hr_peak = zero_hps;
        hr_sess = zero_hps;
      } in
      let report = report_rows (report_time now ctr) kind miners 0 start in
      elim report.0 [ [] ↦ none | row ∷ rows ↦ some report ]

-- What print_accpted_share prints; `rate` is none where it is not above 0.
pub record ShareLine (D : Type 0) : Type 0 where
  pub kind : MinerType
  pub accepted : ℕ
  pub rejected : ℕ
  pub rate : Option D
  pub diff : ℕ
  pub rtt : ℕ

module _ {D : Type 0} (zero_hps : D) (plus : D → D → D) (is_positive : D → Bool)
    (rate : ℕ → ℕ → D) where
  -- The loop over the miners of a type, from place `i` on.
  pub share_rate : MinerType → List Miner → ℕ → D → D
  share_rate mtype [] i hps = hps
  share_rate mtype (m ∷ miners) i hps =
      share_rate mtype miners (i + 1) (if same_kind m.kind mtype then plus hps (rate i 10) else hps)

  pub print_accpted_share : ℕ → ℕ → MinerType → List Miner → SessionCounters → ShareLine D
  unfolding share_rate
  print_accpted_share diff rtt_ms mtype miners ctr =
      let hps = share_rate mtype miners 0 zero_hps in
      record {
        kind = mtype;
        accepted = ctr.accepted_shares_cnt;
        rejected = ctr.rejected_shares_cnt;
        rate = if is_positive hps then some hps else none;
        diff = diff;
        rtt = rtt_ms;
      }

-- The parts of what a key prints; `close` ends the program.
pub data Printed : Type 0 where
  close title uptime share_totals errors : Printed
  hashrates : MinerType → Printed

-- Nothing follows `close`, which does not return.
pub on_key_pressed : ℕ → List Printed
on_key_pressed key =
    if key == 3
    then close ∷ []
    else if key == b'h' || key == b'r'
    then title ∷ (map hashrates all_miner_types ++ (uptime ∷ (share_totals ∷ (errors ∷ []))))
    else []

-- ===== src/Executor/Errors.antt =====
-- executor.hpp: error_log, log_error, and session_counters_t. The unordered_map is an association list.
pub mod Laws
use epic_miner.Common.{ℕ, ◌+◌, Bool, List, [], ◌∷◌, Option, none, some, if◌then◌else◌, bytes_eq}

pub record ErrorInfo : Type 0 where
  pub last_seen : ℕ
  pub count : ℕ

abbrev pub ErrorLog : Type 0
ErrorLog = List (List ℕ × ErrorInfo)

-- unordered_map::find
pub find : List ℕ → ErrorLog → Option ErrorInfo
find msg [] = none
find msg ((key, info) ∷ log) =
    let rest = find msg log in if bytes_eq key msg then some info else rest

-- emplace: an entry with count 1 where there is none; otherwise its count goes up. Then last_seen.
pub log_error : List ℕ → ℕ → ErrorLog → ErrorLog
log_error msg now [] = (msg, record { last_seen = now; count = 1 }) ∷ []
log_error msg now ((key, info) ∷ log) =
    let rest = log_error msg now log in
    if bytes_eq key msg
    then (key, record { last_seen = now; count = info.count + 1 }) ∷ log
    else (key, info) ∷ rest

-- session_timestamp is 0 where no session has begun.
pub record SessionCounters : Type 0 where
  pub session_timestamp : ℕ
  pub accepted_shares_cnt : ℕ
  pub rejected_shares_cnt : ℕ
  pub total_diff : ℕ

abbrev pub reset : SessionCounters
reset = record {
  session_timestamp = 0;
  accepted_shares_cnt = 0;
  rejected_shares_cnt = 0;
  total_diff = 0;
}

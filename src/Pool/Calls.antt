-- ===== src/Pool/Calls.antt =====
-- pool.hpp: the table of calls that wait for a reply (call_map, flush_call_map, find_call,
-- register_call, check_call_timeouts). The clock's reading is an argument.
pub mod Laws
pub mod Register
mod Tests
use epic_miner.Common.{
  ℕ, ◌+◌, ◌-◌, ◌%◌, ◌^◌, ◌≡◌, Bool, true, false, ◌&&◌, not, List, [], ◌∷◌, Option, none, some, ltb,
  ◌==◌, if◌then◌else◌, map,
}
use epic_miner.Job.{invalid_miner_id}

pub data CallType : Type 0 where
  invalid login result keepalive : CallType

pub record CallMapping : Type 0 where
  pub call_id : ℕ
  pub call : CallType
  pub time_made : ℕ
  pub miner_id : ℕ

-- call_map and g_call_id
pub record CallTable : Type 0 where
  pub g_call_id : ℕ
  pub call_map : List CallMapping

abbrev pub is_valid : CallType → Bool
is_valid invalid = false
is_valid login = true
is_valid result = true
is_valid keepalive = true

unfoldable pub invalidate : CallMapping → CallMapping
invalidate mp = record mp { call = invalid }

unfoldable pub flush_call_map : CallTable → CallTable
unfolding invalidate
flush_call_map t = record { g_call_id = 0; call_map = map invalidate t.call_map }

-- What find_call returns.
pub record FindCallRes : Type 0 where
  pub call : CallType
  pub miner_id : ℕ

unfoldable pub find_in : ℕ → List CallMapping → FindCallRes × List CallMapping
find_in call_id [] = (record { call = invalid; miner_id = invalid_miner_id }, [])
find_in call_id (mp ∷ rest) =
    let later = find_in call_id rest in
    if is_valid mp.call && mp.call_id == call_id
    then (
      record { call = mp.call; miner_id = mp.miner_id },
      record mp { call = invalid; miner_id = invalid_miner_id } ∷ rest,
    )
    else (later.0, mp ∷ later.1)

unfoldable pub find_call : CallTable → ℕ → FindCallRes × CallTable
unfolding find_in
find_call t call_id =
    let (res, entries) = find_in call_id t.call_map in (res, record t { call_map = entries })

-- The entry that register_call fills in.
unfoldable pub place : CallMapping → List CallMapping → Option (List CallMapping)
place new [] = none
place new (mp ∷ rest) =
    let later = place new rest in
    if is_valid mp.call
    then elim later [ none ↦ none | some entries ↦ some (mp ∷ entries) ]
    else some (new ∷ rest)

-- register_call: `none` is the return value false, where the caller's call_id is left as it was.
unfoldable pub register_call : CallTable → CallType → ℕ → ℕ → Option (ℕ × CallTable)
unfolding place
register_call t type miner_id now =
    elim (place
      (record { call_id = t.g_call_id; call = type; time_made = now; miner_id = miner_id })
      t.call_map) [
        | none ↦ none
        | some entries ↦
            some
              (t.g_call_id, record { g_call_id = (t.g_call_id + 1) % 2 ^ 32; call_map = entries })
      ]

-- The loop of check_call_timeouts: whether it reaches net_on_error.
pub timed_out : ℕ → List CallMapping → Bool
timed_out ts [] = false
timed_out ts (mp ∷ rest) =
    let later = timed_out ts rest in
    if is_valid mp.call && ltb 10000 (ts - mp.time_made) then true else later

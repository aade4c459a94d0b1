-- ===== src/Miner/Queue.antt =====
-- miner.cpp, rx_miner.cpp and pp_miner.cpp: the way of a result from a miner's thread to the
-- executor's. The miner appends it to result_q under the lock and then signals; the callback takes
-- results from the front until the queue is empty, and gives up the lock while it hands one on.
pub mod Laws
mod Tests
use epic_miner.Common.{Bool, true, false, ◌≡◌, List, [], ◌∷◌, ◌++◌, Option, none, some}
use epic_miner.Job.{MinerResult}

-- `in_hand` is the callback's `res`, `unsignalled` a miner between emplace_back and uv_async_send,
-- `pending` a signal that libuv has not answered yet: it may answer several signals by one call.
-- `found` and `sent` record what was ever appended and what on_found_result was given.
pub record Handover : Type 0 where
  pub result_q : List MinerResult
  pub in_hand : Option MinerResult
  pub unsignalled : Bool
  pub pending : Bool
  pub draining : Bool
  pub found : List MinerResult
  pub sent : List MinerResult

abbrev pub handover : Handover
handover = record {
  result_q = [];
  in_hand = none;
  unsignalled = false;
  pending = false;
  draining = false;
  found = [];
  sent = [];
}

pub emplace_back : MinerResult → Handover → Handover
emplace_back res h = record h {
  result_q = h.result_q ++ res ∷ [];
  found = h.found ++ res ∷ [];
  unsignalled = true;
}

pub async_send : Handover → Handover
async_send h = record h { unsignalled = false; pending = true }

pub wake : Handover → Handover
wake h = record h { pending = false; draining = true }

pub pop_front : MinerResult → List MinerResult → Handover → Handover
pop_front res rest h = record h { result_q = rest; in_hand = some res }

pub hand_on : MinerResult → Handover → Handover
hand_on res h = record h { in_hand = none; sent = h.sent ++ res ∷ [] }

pub stop : Handover → Handover
stop h = record h { draining = false }

-- Steps of the miner's thread and of the executor's thread.
pub data Step : Handover → Handover → Type 0 where
  finds : (h : Handover) (res : MinerResult) → h.unsignalled ≡ false → Step h (emplace_back res h)
  signals : (h : Handover) → h.unsignalled ≡ true → Step h (async_send h)
  wakes : (h : Handover) → h.pending ≡ true → h.draining ≡ false → Step h (wake h)
  takes :
      (h : Handover) (res : MinerResult) (rest : List MinerResult)
      → h.draining ≡ true
      → h.in_hand ≡ none
      → h.result_q ≡ res ∷ rest
      → Step h (pop_front res rest h)
  hands_on : (h : Handover) (res : MinerResult) → h.in_hand ≡ some res → Step h (hand_on res h)
  stops : (h : Handover) → h.draining ≡ true → h.in_hand ≡ none → h.result_q ≡ [] → Step h (stop h)

pub data Steps : Handover → Handover → Type 0 where
  done : (h : Handover) → Steps h h
  more : (a b c : Handover) → Step a b → Steps b c → Steps a c

-- ===== src/Pool/Calls/Laws.antt =====
-- A call is answered once, under the id that it was registered with.
use epic_miner.Common.{
  ℕ, ◌+◌, ◌≤◌, ◌<◌, ◌≡◌, refl, ◌∙◌, ◌≢◌, true, ◌&&◌, List, [], ◌∷◌, arith, ◌==◌, length, Option,
  none, some, if◌then◌else◌,
}
use epic_miner.Job.{invalid_miner_id}
use epic_miner.Pool.Calls.{
  invalid, CallMapping, CallTable, is_valid, FindCallRes, find_in, find_call,
}

-- The reply that is expected under an id: the first valid entry with it.
unfoldable pub expected : ℕ → List CallMapping → Option CallMapping
expected call_id [] = none
expected call_id (mp ∷ rest) =
    if is_valid mp.call && mp.call_id == call_id then some mp else expected call_id rest

-- How many calls wait.
unfoldable pub waiting : List CallMapping → ℕ
waiting [] = 0
waiting (mp ∷ rest) = (if is_valid mp.call then 1 else 0) + waiting rest

-- The waiting calls have different ids, all given out before `bound`.
abbrev pub Distinct : ℕ → List CallMapping → Type 0
Distinct bound [] = Unit {0}
Distinct bound (mp ∷ rest) =
    (is_valid mp.call ≡ true → (mp.call_id < bound) × (expected mp.call_id rest ≡ none))
    × Distinct bound rest

pub record IsValid (t : CallTable) : Type 0 where
  pub eight : length t.call_map ≡ 8
  pub distinct : Distinct t.g_call_id t.call_map

abbrev pub answer : Option CallMapping → FindCallRes
answer none = record { call = invalid; miner_id = invalid_miner_id }
answer (some mp) = record { call = mp.call; miner_id = mp.miner_id }

-- find_call returns the entry that is expected.
find_in-expected : (i : ℕ) (xs : List CallMapping) → (find_in i xs).0 ≡ answer (expected i xs)
unfolding find_in expected
find_in-expected i [] = refl
find_in-expected i (mp ∷ rest) = ground (arith, find_in-expected i rest)

expected_valid :
    (i : ℕ) (xs : List CallMapping) (mp : CallMapping)
    → expected i xs ≡ some mp
    → (is_valid mp.call ≡ true) × (mp.call_id ≡ i)
unfolding expected
expected_valid i [] mp e = cc
expected_valid i (x ∷ xs) mp e = ground (arith, expected_valid i xs mp)

-- It takes that entry out, and no other one.
expected-find_in :
    (bound i j : ℕ) (xs : List CallMapping)
    → Distinct bound xs
    → expected j (find_in i xs).1 ≡ (if i == j then none else expected j xs)
unfolding find_in expected
expected-find_in bound i j [] d = ground arith
expected-find_in bound i j (mp ∷ rest) d = ground (arith, expected-find_in bound i j rest d.1)

Distinct-find_in :
    (bound i : ℕ) (xs : List CallMapping) → Distinct bound xs → Distinct bound (find_in i xs).1
unfolding find_in
Distinct-find_in bound i [] d = tt
Distinct-find_in bound i (mp ∷ rest) d =
    ground (arith, Distinct-find_in bound i rest d.1, expected-find_in bound i mp.call_id rest d.1)

length-find_in : (i : ℕ) (xs : List CallMapping) → length (find_in i xs).1 ≡ length xs
unfolding find_in
length-find_in i [] = refl
length-find_in i (mp ∷ rest) = ground (arith, length-find_in i rest)

waiting-find_in :
    (i : ℕ) (xs : List CallMapping)
    → waiting (find_in i xs).1 + (if is_valid (find_in i xs).0.call then 1 else 0) ≡ waiting xs
unfolding find_in waiting
waiting-find_in i [] = refl
waiting-find_in i (mp ∷ rest) = ground (arith, waiting-find_in i rest)

-- In a well-formed table a reply is matched at most once: find_call gives the waiting call of that id or `invalid`, then
-- the id answers `invalid`, and no other id's answer changes.
pub find_call_lem :
    (t : CallTable) (i j : ℕ)
    → IsValid t
    → let t' = (find_call t i).1 in
      IsValid t'
      × ((find_call t' i).0.call ≡ invalid)
      × (i ≢ j → (find_call t' j).0 ≡ (find_call t j).0)
      × (waiting t'.call_map ≤ waiting t.call_map)
      × ((find_call t i).0.call ≢ invalid → waiting t'.call_map + 1 ≡ waiting t.call_map)
unfolding find_call
find_call_lem t i j v = (
  record {
    eight = length-find_in i t.call_map ∙ v.eight;
    distinct = Distinct-find_in t.g_call_id i t.call_map v.distinct;
  },
  ground (arith, find_in-expected i taken, expected-find_in t.g_call_id i i t.call_map v.distinct),
  λ ne. ground (
    arith,
    find_in-expected j t.call_map,
    find_in-expected j taken,
    expected-find_in t.g_call_id i j t.call_map v.distinct,
  ),
  ground (arith, waiting-find_in i t.call_map),
  λ ne. ground (arith, waiting-find_in i t.call_map),
)
  where
    taken : List CallMapping
    taken = (find_in i t.call_map).1

pub find_call-expected :
    (t : CallTable) (i : ℕ) → (find_call t i).0 ≡ answer (expected i t.call_map)
unfolding find_call
find_call-expected t i = find_in-expected i t.call_map

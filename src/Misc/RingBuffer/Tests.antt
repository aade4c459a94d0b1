-- ===== src/Misc/RingBuffer/Tests.antt =====
-- A small ring buffer, and the theorem about its history at it.
use epic_miner.Common.{ℕ, ◌-◌, ◌^◌, ◌≡◌, refl, ◌++◌, List, [], ◌∷◌, arith, get_elem?, replicate}
use epic_miner.Misc.RingBuffer.{get}
use epic_miner.Misc.RingBuffer.Recent.{after_inserts, get-after_inserts}

-- Five inserts into four slots: the oldest value is gone.
abbrev five : List ℕ
five = 50 ∷ 40 ∷ 30 ∷ 20 ∷ 10 ∷ []

get-after_inserts_example :
    get 4 (after_inserts (2 ^ 62 - 1) 4 refl (9 ∷ 9 ∷ 9 ∷ 9 ∷ []) 0 five) 3
    ≡ get_elem? (five ++ replicate 4 0) 3
get-after_inserts_example =
    get-after_inserts (2 ^ 62 - 1) 4 refl (9 ∷ 9 ∷ 9 ∷ 9 ∷ []) 0 five 3 (omega arith)

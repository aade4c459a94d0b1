-- ===== src/Miner/Nonces/Tests.antt =====
-- The nonces of a short schedule, and the theorems about them at it.
use epic_miner.Common.{ℕ, ◌%◌, ◌^◌, ◌≡◌, ◌+◌, refl, List, [], ◌∷◌, length}
use epic_miner.Miner.Nonces.{nonce_chunk, next_nonce, begin, take_turn, run}
use epic_miner.Miner.Nonces.Chunks.{hashed_next, hashed_next_sparse}

abbrev alternating : List ℕ
alternating = 1 ∷ 0 ∷ 1 ∷ 0 ∷ []

alternating_runs : hashed_next alternating 0 ≡ 65536
unfolding hashed_next run begin take_turn next_nonce
alternating_runs = refl

hashed_next_sparse_example :
    (hashed_next alternating 0 % nonce_chunk ≡ 0)
    × (length {A = ℕ} (0 ∷ []) ≡ length alternating + 2 ^ 18
        → hashed_next (0 ∷ []) 1 ≡ hashed_next alternating 0)
hashed_next_sparse_example = hashed_next_sparse alternating (0 ∷ []) 0 1

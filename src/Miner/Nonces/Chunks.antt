-- ===== src/Miner/Nonces/Chunks.antt =====
-- Which nonces the miners of a job hash.
use epic_miner.Common.{
  ℕ, suc, ◌+◌, ◌*◌, ◌%◌, ◌^◌, ◌<◌, ◌≡◌, refl, ◌∙◌, ◌≢◌, List, [], ◌∷◌, arith, length,
}
use epic_miner.Miner.Nonces.{nonce_chunk, next_nonce, Miners, begin, take_turn, run}

-- The counter and all nonces are multiples of the chunk.
record AtChunks (k : ℕ) (m : Miners) : Type 0 where
  pub shared_lem : m.shared ≡ k * nonce_chunk % 2 ^ 32
  pub nonces_lem : (i : ℕ) → m.nonces i % nonce_chunk ≡ 0

-- So a turn always fetches from the counter.
take_turn-AtChunks :
    (k i : ℕ) (m : Miners)
    → AtChunks k m
    → AtChunks (suc k) (take_turn i m) × ((take_turn i m).nonces i ≡ m.shared)
unfolding take_turn
take_turn-AtChunks k i m a =
    let fetch = fetches m.shared (m.nonces i) (a.nonces_lem i) in
    (
      record { shared_lem = fetch.0 ∙ next_chunk; nonces_lem = λ j. kept j fetch },
      ground (arith, fetch.1),
    )
  where
    fetches :
        (counter nonce : ℕ)
        → nonce % nonce_chunk ≡ 0
        → ((next_nonce (record { counter = counter; nonce = nonce })).counter
            ≡ (counter + nonce_chunk) % 2 ^ 32)
          × ((next_nonce (record { counter = counter; nonce = nonce })).nonce ≡ counter)
    fetches counter nonce e = unfold next_nonce in ground arith

    next_chunk : (m.shared + nonce_chunk) % 2 ^ 32 ≡ suc k * nonce_chunk % 2 ^ 32
    next_chunk = omega (arith, a.shared_lem)

    kept :
        (j : ℕ)
        → ((next_nonce (record { counter = m.shared; nonce = m.nonces i })).counter
            ≡ (m.shared + nonce_chunk) % 2 ^ 32)
          × ((next_nonce (record { counter = m.shared; nonce = m.nonces i })).nonce ≡ m.shared)
        → (take_turn i m).nonces j % nonce_chunk ≡ 0
    kept j fetch =
        let multiple : m.shared % nonce_chunk ≡ 0 = omega (arith, a.shared_lem) in
        ground (arith, fetch.1, a.nonces_lem j, multiple)

run-AtChunks : (schedule : List ℕ) → AtChunks (length schedule) (run 0 schedule).0
unfolding run begin
run-AtChunks [] = record { shared_lem = refl; nonces_lem = λ i. refl }
run-AtChunks (i ∷ schedule) =
    (take_turn-AtChunks (length schedule) i (run 0 schedule).0 (run-AtChunks schedule)).0

-- The nonce that miner i hashes in the turn that follows a schedule of turns on one job.
unfoldable pub hashed_next : List ℕ → ℕ → ℕ
hashed_next schedule i = (take_turn i (run 0 schedule).0).nonces i

-- Whichever miner has the turn, turn number n of a job hashes nonce n * 16384 (mod 2^32): each turn
-- fetches a whole chunk from the shared counter, and hashes only the first nonce of the chunk.
pub hashed_next_lem :
    (schedule : List ℕ) (i : ℕ) → hashed_next schedule i ≡ length schedule * nonce_chunk % 2 ^ 32
unfolding hashed_next
hashed_next_lem schedule i =
    let a = run-AtChunks schedule in
    (take_turn-AtChunks (length schedule) i (run 0 schedule).0 a).1 ∙ a.shared_lem

-- No two of the first 2^18 turns of a job hash the same nonce, be they of one miner or of two.
pub hashed_next-distinct :
    (s t : List ℕ) (i j : ℕ)
    → length s < 2 ^ 18
    → length t < 2 ^ 18
    → length s ≢ length t
    → hashed_next s i ≢ hashed_next t j
hashed_next-distinct s t i j hs ht ne e =
    let n = length s in
    let m = length t in
    let same : n * nonce_chunk % 2 ^ 32 ≡ m * nonce_chunk % 2 ^ 32 =
      omega (arith, hashed_next_lem s i, hashed_next_lem t j, e) in
    ne (omega (arith, same))

-- The search space: every nonce that is hashed is a multiple of 16384, and from turn 2^18 on each turn
-- repeats the nonce of 2^18 turns before, so that only 2^18 of the 2^32 nonces are ever hashed.
pub hashed_next_sparse :
    (s t : List ℕ) (i j : ℕ)
    → (hashed_next s i % nonce_chunk ≡ 0)
      × (length t ≡ length s + 2 ^ 18 → hashed_next t j ≡ hashed_next s i)
hashed_next_sparse s t i j = (
  omega (arith, hashed_next_lem s i),
  λ later. omega (arith, hashed_next_lem s i, hashed_next_lem t j, later),
)

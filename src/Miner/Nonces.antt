-- ===== src/Miner/Nonces.antt =====
-- rx_miner.cpp and pp_miner.cpp: how a hashing loop picks its nonces. `counter` is the atomic nonce of
-- the pool's job, which all miners of the job share; `local` is the miner's own (the four bytes in
-- its blob, or nonce_ctr).
pub mod Chunks
mod Tests
use epic_miner.Common.{
  ℕ, zero, suc, ◌+◌, ◌%◌, ◌^◌, Bool, true, false, List, [], ◌∷◌, ◌==◌, if◌then◌else◌,
}

abbrev pub nonce_chunk : ℕ
nonce_chunk = 16384

-- One turn of the loop up to the hash: the shared counter and the miner's nonce afterwards.
pub record Turn : Type 0 where
  pub counter : ℕ
  pub nonce : ℕ

-- fetch_add gives the old value; both are uint32_t.
unfoldable pub next_nonce : Turn → Turn
next_nonce t =
    if t.nonce % nonce_chunk == 0
    then record { counter = (t.counter + nonce_chunk) % 2 ^ 32; nonce = t.counter }
    else record { counter = t.counter; nonce = (t.nonce + 1) % 2 ^ 32 }

-- Several miners of one job, each with its own nonce, which starts at zero.
pub record Miners : Type 0 where
  pub shared : ℕ
  pub nonces : ℕ → ℕ

pub begin : ℕ → Miners
begin counter = record { shared = counter; nonces = λ i. 0 }

abbrev update : (ℕ → ℕ) → ℕ → ℕ → ℕ → ℕ
update f i v j = if i == j then v else f j

-- Miner i takes a turn.
pub take_turn : ℕ → Miners → Miners
unfolding next_nonce
take_turn i m =
    let t = next_nonce (record { counter = m.shared; nonce = m.nonces i }) in
    record { shared = t.counter; nonces = update m.nonces i t.nonce }

-- The miners and the nonces that they hash, newest first, after a schedule of turns (newest first).
pub run : ℕ → List ℕ → Miners × List ℕ
unfolding take_turn
run counter [] = (begin counter, [])
run counter (i ∷ schedule) =
    let (m, hashed) = run counter schedule in let m' = take_turn i m in (m', m'.nonces i ∷ hashed)

-- ===== src/Miner/Loop/Shares.antt =====
-- Every share that a loop finds can be recomputed from the job and the share's nonce.
use epic_miner.Common.{
  ℕ, zero, suc, ◌+◌, ◌/◌, ◌^◌, ◌≤◌, ◌<◌, ◌≡◌, refl, ap, ◌∙◌, List, [], ◌∷◌, ◌++◌, ltb,
  if◌then◌else◌, get_or, length, length-append, take, drop, length-take, length-drop, arith,
}
use epic_miner.Vector32.{V32, load_le, get_work32}
use epic_miner.Job.{MinerJob, MinerResult}
use epic_miner.Pool.Fill.{store_le}
use epic_miner.Miner.Nonces.{next_nonce}
use epic_miner.Miner.Loop.{Worker, put_nonce, rx_turn, Header, pp_turn}

pub length-store_le : (n x : ℕ) → length (store_le n x) ≡ n
unfolding store_le
length-store_le zero x = refl
length-store_le (suc n) x = omega (arith, length-store_le n (x / 256))

take-append : (xs ys : List ℕ) (n : ℕ) → n ≡ length xs → take n (xs ++ ys) ≡ xs
take-append [] ys zero e = refl
take-append [] ys (suc n) e = absurd (omega arith)
take-append (x ∷ xs) ys zero e = absurd (omega arith)
take-append (x ∷ xs) ys (suc n) e = ap (◌∷◌ x) (take-append xs ys n (omega arith))

drop-append : (xs ys : List ℕ) (n m : ℕ) → m ≡ length xs + n → drop m (xs ++ ys) ≡ drop n ys
drop-append [] ys n m e = ap (λ (k : ℕ). drop k ys) (e ∙ omega arith)
drop-append (x ∷ xs) ys n zero e = absurd (omega arith)
drop-append (x ∷ xs) ys n (suc m) e = drop-append xs ys n m (omega arith)

-- The second nonce overwrites the first.
pub put_nonce-put_nonce :
    (blob : List ℕ) (pos a b : ℕ)
    → pos + 4 ≤ length blob
    → put_nonce (put_nonce blob pos a) pos b ≡ put_nonce blob pos b
unfolding put_nonce
put_nonce-put_nonce blob pos a b fits =
    let front = take pos blob in
    let rest = drop (pos + 4) blob in
    let size : pos ≡ length front = omega (arith, length-take pos blob) in
    let four = length-store_le 4 a in
    let front_kept = take-append front (store_le 4 a ++ rest) pos size in
    let past = drop-append front (store_le 4 a ++ rest) 4 (pos + 4) (omega arith) in
    let past_nonce = drop-append (store_le 4 a) rest 0 4 (omega (arith, four)) in
    rw (front_kept, past, past_nonce) refl

pub length-put_nonce :
    (blob : List ℕ) (pos a : ℕ)
    → pos + 4 ≤ length blob
    → length (put_nonce blob pos a) ≡ length blob
unfolding put_nonce
length-put_nonce blob pos a fits = omega (
  arith,
  length-append (take pos blob) (store_le 4 a ++ drop (pos + 4) blob),
  length-append (store_le 4 a) (drop (pos + 4) blob),
  length-store_le 4 a,
  length-take pos blob,
  length-drop (pos + 4) blob,
)

get_or-append :
    (xs ys : List ℕ) (n i : ℕ) → n ≡ length xs + i → get_or (xs ++ ys) n 0 ≡ get_or ys i 0
get_or-append [] ys n i e = ap (λ (k : ℕ). get_or ys k 0) (e ∙ omega arith)
get_or-append (x ∷ xs) ys zero i e = absurd (omega arith)
get_or-append (x ∷ xs) ys (suc n) i e = get_or-append xs ys n i (omega arith)

-- Reading a nonce back.
pub load_le-put_nonce :
    (blob : List ℕ) (pos nonce : ℕ)
    → pos + 4 ≤ length blob
    → nonce < 2 ^ 32
    → load_le 4 pos (put_nonce blob pos nonce) ≡ nonce
unfolding load_le put_nonce store_le
load_le-put_nonce blob pos nonce fits small =
    let front = take pos blob in
    let size : pos ≡ length front = omega (arith, length-take pos blob) in
    let rest = store_le 4 nonce ++ drop (pos + 4) blob in
    let b0 = get_or-append front rest pos 0 (omega arith) in
    let b1 = get_or-append front rest (pos + 1) 1 (omega arith) in
    let b2 = get_or-append front rest (pos + 1 + 1) 2 (omega arith) in
    let b3 = get_or-append front rest (pos + 1 + 1 + 1) 3 (omega arith) in
    omega (arith, b0, b1, b2, b3)

-- What a search of some nonces must find, in order: the nonces whose hash is below the target.
unfoldable pub shares : (ℕ → V32) → MinerJob → ℕ → List ℕ → List MinerResult
shares hash job thd_id [] = []
shares hash job thd_id (n ∷ ns) =
    let rest = shares hash job thd_id ns in
    if ltb (get_work32 (hash n)) job.target
    then record { id = job.id; nonce = n; res_hash = hash n; miner_id = thd_id } ∷ rest
    else rest

-- The nonces of a run: the counters that the turns find, from the last nonce on.
unfoldable pub tried : ℕ → List ℕ → List ℕ
tried last [] = []
tried last (c ∷ counters) =
    let n = (next_nonce (record { counter = c; nonce = last })).nonce in n ∷ tried n counters

unfoldable pub rx_run : (List ℕ → V32) → List ℕ → Worker → Worker
unfolding rx_turn
rx_run hash [] w = w
rx_run hash (c ∷ counters) w = rx_run hash counters (rx_turn hash c w).1

unfoldable pub pp_run : (ℕ → List ℕ → ℕ → V32) → Header → List ℕ → Worker → Worker
unfolding pp_turn
pp_run hash h [] w = w
pp_run hash h (c ∷ counters) w = pp_run hash h counters (pp_turn hash h c w).1

pub next_nonce-lt :
    (c last : ℕ) → c < 2 ^ 32 → (next_nonce (record { counter = c; nonce = last })).nonce < 2 ^ 32
unfolding next_nonce
next_nonce-lt c last h = ground arith

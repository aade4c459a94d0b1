-- ===== src/Miner/Loop/Search.antt =====
-- The loops find exactly the shares among the nonces that they try.
use epic_miner.Common.{
  ℕ, ◌+◌, ◌-◌, ◌*◌, ◌^◌, ◌≤◌, ◌<◌, ◌≡◌, refl, sym, ap, subst, ◌∙◌, bit_or, true, List, [], ◌∷◌,
  ◌++◌, append_assoc, append_nil, some, ltb, le→leb, length, take, arith, All, Bool-cases, inl, inr,
}
use epic_miner.Vector32.{V32, load_le, get_work32}
use epic_miner.Job.{MinerJob, MinerResult, blob_size}
use epic_miner.Miner.Nonces.{next_nonce}
use epic_miner.Miner.Loop.{
  Worker, put_nonce, record_hash, rx_begin, rx_turn, Header, pp_begin, pp_turn,
}
use epic_miner.Miner.Loop.Shares.{
  put_nonce-put_nonce, load_le-put_nonce, shares, tried, rx_run, pp_run, next_nonce-lt,
}

-- Below 2^32, all counters.
abbrev Words : List ℕ → Type 0
Words = All (λ c. c < 2 ^ 32)

-- The hash of the job with a nonce put in, by RandomX.
abbrev pub rx_hash_of : (List ℕ → V32) → MinerJob → ℕ → V32
rx_hash_of hash job n = hash (take job.blob_len (put_nonce job.blob job.nonce_pos n))

-- A miner of the job whose blob holds a nonce.
abbrev at : Worker → MinerJob → ℕ → List MinerResult → ℕ → Worker
at w job last found count = record w {
  job = record job { blob = put_nonce job.blob job.nonce_pos last };
  found = found;
  hash_count = count;
}

abbrev one : (ℕ → V32) → MinerJob → ℕ → ℕ → List MinerResult
one hash job thd_id n = shares hash job thd_id (n ∷ [])

shares-cons :
    (hash : ℕ → V32) (job : MinerJob) (thd_id n : ℕ) (ns : List ℕ)
    → shares hash job thd_id (n ∷ ns) ≡ one hash job thd_id n ++ shares hash job thd_id ns
unfolding shares
shares-cons hash job thd_id n ns = elim (Bool-cases (ltb (get_work32 (hash n)) job.target)) [
  | inl hit ↦ rw (hit) refl
  | inr miss ↦ rw (miss) refl
]

rx_turn-at :
    (hash : List ℕ → V32) (w : Worker) (job : MinerJob) (last c count : ℕ)
    (found : List MinerResult)
    → job.nonce_pos + 4 ≤ length job.blob
    → last < 2 ^ 32
    → let n = (next_nonce (record { counter = c; nonce = last })).nonce in
      (rx_turn hash c (at w job last found count)).1
      ≡ at w job n (found ++ one (rx_hash_of hash job) job w.thd_id n) (count + 1)
unfolding rx_turn record_hash shares
rx_turn-at hash w job last c count found fits small =
    let n = (next_nonce (record { counter = c; nonce = last })).nonce in
    rw (load_le-put_nonce job.blob job.nonce_pos last fits small) (
      rw (put_nonce-put_nonce job.blob job.nonce_pos last n fits)
        (elim (Bool-cases (ltb (get_work32 (rx_hash_of hash job n)) job.target)) [
          | inl hit ↦ rw (hit) refl
          | inr miss ↦ rw (miss) (rw (append_nil found) refl)
        ]))

-- After some turns, from a blob that holds a nonce.
rx_run-at :
    (hash : List ℕ → V32) (counters : List ℕ) (w : Worker) (job : MinerJob) (last count : ℕ)
    (found : List MinerResult)
    → job.nonce_pos + 4 ≤ length job.blob
    → last < 2 ^ 32
    → Words counters
    → let w' = rx_run hash counters (at w job last found count) in
      (w'.found ≡ found ++ shares (rx_hash_of hash job) job w.thd_id (tried last counters))
      × (w'.hash_count ≡ count + length counters)
unfolding rx_run shares tried
rx_run-at hash [] w job last count found fits small words = (sym (append_nil found), omega arith)
rx_run-at hash (c ∷ counters) w job last count found fits small (c_small, words) =
    let n = (next_nonce (record { counter = c; nonce = last })).nonce in
    let this = one (rx_hash_of hash job) job w.thd_id n in
    let later =
      rx_run-at hash counters w job n (count + 1) (found ++ this) fits
        (next_nonce-lt c last c_small) words in
    let rest = shares (rx_hash_of hash job) job w.thd_id (tried n counters) in
    let order = append_assoc found this rest in
    let split = shares-cons (rx_hash_of hash job) job w.thd_id n (tried n counters) in
    let step = rx_turn-at hash w job last c count found fits small in
    (
      ap (λ (v : Worker). (rx_run hash counters v).found) step
          ∙ (later.0 ∙ (order ∙ ap (λ (xs : List MinerResult). found ++ xs) (sym split))),
      ap (λ (v : Worker). (rx_run hash counters v).hash_count) step ∙ (later.1 ∙ omega arith),
    )

-- randomx_loop finds, in the order of its turns, exactly the nonces it tries whose hash is below the
-- target, each with the job's id, the miner's id and its hash, and counts every hash. Condition: the
-- blob has the size of its array, the nonce's place is inside of it, and the counters have 32 bits.
pub rx_run_lem :
    (hash : List ℕ → V32) (w : Worker) (counters : List ℕ)
    → length w.job.blob ≡ blob_size
    → w.job.nonce_pos + 4 ≤ blob_size
    → All (λ c. c < 2 ^ 32) counters
    → (w' : Worker) × ((rx_begin w ≡ some w')
        × (((rx_run hash counters w').found
              ≡ w.found ++ shares (rx_hash_of hash w.job) w.job w.thd_id (tried 0 counters))
            × ((rx_run hash counters w').hash_count ≡ w.hash_count + length counters)))
unfolding rx_begin
rx_run_lem hash w counters size fits words =
    let begun = record w { is_hashing = true } in
    let start = at begun w.job 0 w.found w.hash_count in
    (
      start,
      (
        rw (le→leb (w.job.nonce_pos + 4) blob_size fits) refl,
        rx_run-at hash counters begun w.job 0 w.hash_count w.found
            (subst (λ n. w.job.nonce_pos + 4 ≤ n) (sym size) fits) (omega arith) words,
      ),
    )

abbrev pp_at : Worker → ℕ → List MinerResult → ℕ → Worker
pp_at w last found count = record w { nonce_ctr = last; found = found; hash_count = count }

-- The hash of a job's header with a nonce, by ProgPow.
abbrev pub pp_hash_of : (ℕ → List ℕ → ℕ → V32) → Header → MinerJob → ℕ → V32
pp_hash_of hash h job n = hash job.height h.header_hash (bit_or h.nonce_base n)

pp_turn-at :
    (hash : ℕ → List ℕ → ℕ → V32) (h : Header) (w : Worker) (last c count : ℕ)
    (found : List MinerResult)
    → let n = (next_nonce (record { counter = c; nonce = last })).nonce in
      (pp_turn hash h c (pp_at w last found count)).1
      ≡ pp_at w n (found ++ one (pp_hash_of hash h w.job) w.job w.thd_id n) (count + 1)
unfolding pp_turn record_hash shares
pp_turn-at hash h w last c count found =
    let n = (next_nonce (record { counter = c; nonce = last })).nonce in
    elim (Bool-cases (ltb (get_work32 (pp_hash_of hash h w.job n)) w.job.target)) [
      | inl hit ↦ rw (hit) refl
      | inr miss ↦ rw (miss) (rw (append_nil found) refl)
    ]

pp_run-at :
    (hash : ℕ → List ℕ → ℕ → V32) (h : Header) (counters : List ℕ) (w : Worker) (last count : ℕ)
    (found : List MinerResult)
    → let w' = pp_run hash h counters (pp_at w last found count) in
      (w'.found ≡ found ++ shares (pp_hash_of hash h w.job) w.job w.thd_id (tried last counters))
      × (w'.hash_count ≡ count + length counters)
unfolding pp_run shares tried
pp_run-at hash h [] w last count found = (sym (append_nil found), omega arith)
pp_run-at hash h (c ∷ counters) w last count found =
    let n = (next_nonce (record { counter = c; nonce = last })).nonce in
    let this = one (pp_hash_of hash h w.job) w.job w.thd_id n in
    let later = pp_run-at hash h counters w n (count + 1) (found ++ this) in
    let rest = shares (pp_hash_of hash h w.job) w.job w.thd_id (tried n counters) in
    let order = append_assoc found this rest in
    let split = shares-cons (pp_hash_of hash h w.job) w.job w.thd_id n (tried n counters) in
    let step = pp_turn-at hash h w last c count found in
    (
      ap (λ (v : Worker). (pp_run hash h counters v).found) step
          ∙ (later.0 ∙ (order ∙ ap (λ (xs : List MinerResult). found ++ xs) (sym split))),
      ap (λ (v : Worker). (pp_run hash h counters v).hash_count) step ∙ (later.1 ∙ omega arith),
    )

-- The work of progpow_loop is a header: the high half of each nonce, and the hash of the blob without
-- its last eight bytes. It finds exactly the nonces it tries whose hash is below the target, and
-- counts every hash. Condition: the blob holds eight bytes and fits its array, and so does the
-- nonce's place, four bytes or more from the front.
pub pp_run_lem :
    (keccak256 : List ℕ → List ℕ) (hash : ℕ → List ℕ → ℕ → V32) (w : Worker) (counters : List ℕ)
    → 4 ≤ w.job.nonce_pos
    → w.job.nonce_pos ≤ blob_size
    → 8 ≤ w.job.blob_len
    → w.job.blob_len ≤ blob_size
    → (h : Header) × (w' : Worker) × ((pp_begin keccak256 w ≡ some (h, w'))
        × ((h.header_hash ≡ keccak256 (take (w.job.blob_len - 8) w.job.blob))
            × ((h.nonce_base ≡ load_le 4 (w.job.nonce_pos - 4) w.job.blob * 2 ^ 32)
                × (((pp_run hash h counters w').found
                      ≡ w.found
                        ++ shares (pp_hash_of hash h w.job) w.job w.thd_id (tried 0 counters))
                    × ((pp_run hash h counters w').hash_count ≡ w.hash_count + length counters)))))
unfolding pp_begin
pp_run_lem keccak256 hash w counters four inside eight fits =
    let base = load_le 4 (w.job.nonce_pos - 4) w.job.blob * 2 ^ 32 in
    let head = keccak256 (take (w.job.blob_len - 8) w.job.blob) in
    let h : Header = record { nonce_base = base; header_hash = head } in
    let begun = record w { is_hashing = true } in
    let found_all = pp_run-at hash h counters begun 0 w.hash_count w.found in
    (
      h,
      pp_at begun 0 w.found w.hash_count,
      (
        rw
            (
              le→leb 4 w.job.nonce_pos four,
              le→leb w.job.nonce_pos blob_size inside,
              le→leb 8 w.job.blob_len eight,
              le→leb w.job.blob_len blob_size fits,
            )
            refl,
        (refl, (refl, found_all)),
      ),
    )

-- ===== src/Pool/Fill/Fields.antt =====
-- What an accepted job holds, and what a refused one may have become.
use epic_miner.Common.{
  ℕ, ◌+◌, ◌-◌, ◌*◌, ◌%◌, ◌^◌, ◌≤◌, ◌<◌, ◌≡◌, refl, inl, inr, true, List, ◌∷◌, ◌++◌, arith, ◌==◌,
  ==_iff, All, length, some, Bool-cases, Option-cases, drop, codes, c_str, strcmp_eq, bytes_eq_iff,
  length-append, length-drop,
}
use epic_miner.Json.{Value, as_string}
use epic_miner.Misc.Hex.{hex2bin}
use epic_miner.Misc.Hex.Laws.{IsByte, all_hex, hex2bin_lem, decode, hex2bin-decode}
use epic_miner.Job.{PoolJob, reset, jobid_size, blob_size, pow_type_to_str}
use epic_miner.Pool.Fill.{
  JobParams, Filled, filled, rejected, and_then, set_pow, set_id, work_len, set_blob, store_le,
  set_target, set_seed_text, set_seed, start, fill_job,
}
use epic_miner.Pool.Fill.Laws.{AreBytes, padded, target_value, padded-IsByte, read_target}

-- The arrays of a job have the sizes that they are declared with. A write past the end of one would
-- make it longer.
pub record IsSized (job : PoolJob) : Type 0 where
  pub id_size : length job.id ≡ jobid_size
  pub blob_sized : length job.blob ≡ blob_size
  pub seed_size : length job.randomx_seed.bytes ≡ 32

-- The job that a stage leaves, on success and on failure.
unfoldable pub job_of : Filled → PoolJob
job_of (filled job) = job
job_of (rejected err job) = job

and_then-IsSized :
    (m : Filled) (f : PoolJob → Filled)
    → IsSized (job_of m)
    → ((job : PoolJob) → IsSized job → IsSized (job_of (f job)))
    → IsSized (job_of (and_then m f))
unfolding job_of
and_then-IsSized (filled job) f s h = h job s
and_then-IsSized (rejected err job) f s h = s

module _ (job : PoolJob) (s : IsSized job) where
  set_pow-IsSized : (a : List ℕ) → IsSized (job_of (set_pow a job))
  unfolding set_pow job_of
  set_pow-IsSized a = ground arith

  set_id-IsSized : (a : List ℕ) → IsSized (job_of (set_id a job))
  unfolding set_id job_of
  set_id-IsSized a =
      ground
        (arith, length-append a (0 ∷ drop (length a + 1) job.id), length-drop (length a + 1) job.id)

  set_blob-IsSized : (a : List ℕ) → All IsByte a → IsSized (job_of (set_blob a job))
  unfolding set_blob job_of
  set_blob-IsSized a h =
      let twice : work_len a * 2 ≡ 2 * work_len a = omega arith in
      let size = (hex2bin_lem (work_len a) a job.blob h).1 in
      rw twice (ground (arith, size, s.blob_sized))

  set_target-IsSized : (a : List ℕ) → IsSized (job_of (set_target a job))
  unfolding set_target job_of
  set_target-IsSized a = ground arith

  set_seed_text-IsSized : (a : List ℕ) → All IsByte a → IsSized (job_of (set_seed_text a job))
  unfolding set_seed_text job_of
  set_seed_text-IsSized a h = elim (Bool-cases (length a == 64)) [
    | inl same ↦
        let size : length a ≡ 64 = (==_iff (length a) 64).0 same in
        let kept = (hex2bin_lem 32 a job.randomx_seed.bytes h).1 (omega (arith, s.seed_size)) in
        rw (same, size) (ground (arith, kept))
    | inr other ↦ rw other s
  ]

  set_seed-IsSized :
      (v : Value)
      → ((a : List ℕ) → as_string v ≡ some a → All IsByte a)
      → IsSized (job_of (set_seed v job))
  unfolding set_seed job_of
  set_seed-IsSized v h = elim (Option-cases (as_string v)) [
    | inl e ↦ rw (e, set_seed) s
    | inr (a, e) ↦ rw (e, set_seed) (set_seed_text-IsSized a (h a e))
  ]

-- Whatever bytes the texts of a message are, and whether it is accepted or refused: the arrays of
-- my_job have their declared sizes afterwards, if they had them before; so no write of process_pool_job
-- goes past the end of one.
pub fill_job-IsSized :
    (p : JobParams) (job : PoolJob) → AreBytes p → IsSized job → IsSized (job_of (fill_job p job))
unfolding fill_job
fill_job-IsSized p job h s =
    and_then-IsSized _ _ (set_pow-IsSized (reset job) (unfold reset in ground arith) p.pow_algo)
      λ job1 s1. and_then-IsSized _ _ (set_id-IsSized job1 s1 p.jobid) λ job2 s2.
        and_then-IsSized _ _ (set_blob-IsSized job2 s2 p.blob h.blob_bytes) λ job3 s3.
          and_then-IsSized _ _ (set_target-IsSized job3 s3 p.target) λ job4 s4.
            and_then-IsSized _ (λ job5. filled (start p.height (work_len p.blob) job5))
              (set_seed-IsSized job4 s4 p.seed_hash h.seed_bytes)
              λ job5 s5. unfold start job_of in ground arith

and_then_inv :
    (m : Filled) (f : PoolJob → Filled) (job : PoolJob)
    → and_then m f ≡ filled job
    → (job1 : PoolJob) × (m ≡ filled job1) × (f job1 ≡ filled job)
and_then_inv (filled job1) f job e = (job1, refl, e)
and_then_inv (rejected err job1) f job e = absurd (cc)

set_pow_inv :
    (a : List ℕ) (job job' : PoolJob)
    → set_pow a job ≡ filled job'
    → (c_str a ≡ pow_type_to_str job'.pow) × (job' ≡ record job { pow = job'.pow })
unfolding set_pow pow_type_to_str strcmp_eq
set_pow_inv a job job' e = ground (
  arith,
  bytes_eq_iff (c_str a) (codes "randomx"),
  bytes_eq_iff (c_str a) (codes "progpow"),
  bytes_eq_iff (c_str a) (codes "cuckoo"),
)

set_id_inv :
    (a : List ℕ) (job job' : PoolJob)
    → set_id a job ≡ filled job'
    → (length a < jobid_size) × (job' ≡ record job { id = a ++ 0 ∷ drop (length a + 1) job.id })
unfolding set_id
set_id_inv a job job' e = ground arith

set_blob_inv :
    (a : List ℕ) (job job' : PoolJob)
    → All IsByte a
    → length job.blob ≡ blob_size
    → set_blob a job ≡ filled job'
    → (work_len a ≤ blob_size)
      × (job' ≡ record job { blob = decode (work_len a) a ++ drop (work_len a) job.blob })
unfolding set_blob
set_blob_inv a job job' h size e =
    let n = work_len a in
    let twice : n * 2 ≡ 2 * n = omega arith in
    let done : (hex2bin a (n * 2) job.blob).0 ≡ all_hex n a =
      rw twice (hex2bin_lem n a job.blob h).0 in
    let decoded : all_hex n a ≡ true
        → n ≤ length job.blob
        → hex2bin a (n * 2) job.blob ≡ (true, decode n a ++ drop n job.blob) =
      λ x y. rw twice (hex2bin-decode n a job.blob h x y) in
    ground (arith, done, decoded)

set_target_inv :
    (a : List ℕ) (job job' : PoolJob)
    → All IsByte a
    → set_target a job ≡ filled job'
    → (0 < target_value (padded a)) × (job' ≡ record job { target = target_value (padded a) })
unfolding set_target
set_target_inv a job job' h e =
    let bytes = padded-IsByte a h in
    ground (
      arith,
      (hex2bin_lem 4 (padded a) (store_le 4 job.target) bytes).0,
      read_target (padded a) job.target bytes,
    )

set_seed_text_inv :
    (s : List ℕ) (job job' : PoolJob)
    → set_seed_text s job ≡ filled job'
    → job' ≡ record job { randomx_seed = job'.randomx_seed }
unfolding set_seed_text
set_seed_text_inv s job job' e = ground arith

set_seed_inv :
    (v : Value) (job job' : PoolJob)
    → set_seed v job ≡ filled job'
    → job' ≡ record job { randomx_seed = job'.randomx_seed }
unfolding set_seed
set_seed_inv v job job' e = elim (Option-cases (as_string v)) [
  | inl none_ ↦ absurd (ground arith)
  | inr (s, text) ↦ set_seed_text_inv s job job' (rw (text, set_seed) at e)
]

-- An accepted message fills the job with its own members: the algorithm's name, the id with its NUL,
-- the decoded blob (what stands behind it is what stood there), the target's value, and the counters
-- at their start.
pub fill_job-IsReady :
    (p : JobParams) (job job' : PoolJob)
    → AreBytes p
    → IsSized job
    → fill_job p job ≡ filled job'
    → (c_str p.pow_algo ≡ pow_type_to_str job'.pow)
      × (job'.id ≡ p.jobid ++ 0 ∷ drop (length p.jobid + 1) job.id)
      × (length p.jobid < jobid_size)
      × (job'.blob_len ≡ work_len p.blob)
      × (job'.blob_len ≤ blob_size)
      × (job'.blob ≡ decode job'.blob_len p.blob ++ drop job'.blob_len job.blob)
      × (job'.target ≡ target_value (padded p.target))
      × (0 < job'.target)
      × (job'.nonce ≡ 0)
      × (job'.height ≡ p.height)
unfolding fill_job reset start
fill_job-IsReady p job job' h s e =
    let (job1, e1, r1) = and_then_inv (set_pow p.pow_algo (reset job)) _ job' e in
    let (job2, e2, r2) = and_then_inv (set_id p.jobid job1) _ job' r1 in
    let (job3, e3, r3) = and_then_inv (set_blob p.blob job2) _ job' r2 in
    let (job4, e4, r4) = and_then_inv (set_target p.target job3) _ job' r3 in
    let (job5, e5, r5) = and_then_inv (set_seed p.seed_hash job4) _ job' r4 in
    let w1 = set_pow_inv p.pow_algo (reset job) job1 e1 in
    let w2 = set_id_inv p.jobid job1 job2 e2 in
    let kept : length job2.blob ≡ blob_size = ground (arith, w1, w2) in
    let w3 = set_blob_inv p.blob job2 job3 h.blob_bytes kept e3 in
    let w4 = set_target_inv p.target job3 job4 h.target_bytes e4 in
    let w5 = set_seed_inv p.seed_hash job4 job5 e5 in ground (arith, w1, w2, w3, w4, w5, r5)

-- The position of the nonce: an accepted blob of at least four bytes has its last four for it, so a
-- miner writes inside the blob. With a shorter one the subtraction wraps, and the position lies
-- outside of the 512 bytes.
pub fill_job-nonce_pos :
    (p : JobParams) (job job' : PoolJob)
    → fill_job p job ≡ filled job'
    → (4 ≤ work_len p.blob → job'.nonce_pos + 4 ≡ job'.blob_len)
      × (work_len p.blob < 4 → blob_size < job'.nonce_pos)
unfolding fill_job start
fill_job-nonce_pos p job job' e =
    let (job1, e1, r1) = and_then_inv (set_pow p.pow_algo (reset job)) _ job' e in
    let (job2, e2, r2) = and_then_inv (set_id p.jobid job1) _ job' r1 in
    let (job3, e3, r3) = and_then_inv (set_blob p.blob job2) _ job' r2 in
    let (job4, e4, r4) = and_then_inv (set_target p.target job3) _ job' r3 in
    let (job5, e5, r5) = and_then_inv (set_seed p.seed_hash job4) _ job' r4 in
    let small : work_len p.blob < 2 ^ 32 = unfold work_len in omega arith in
    let len = work_len p.blob in
    let placed : job'.nonce_pos ≡ (len + 2 ^ 32 - 4) % 2 ^ 32 = ground (arith, r5) in
    let sized : job'.blob_len ≡ len = ground (arith, r5) in ((λ k. omega arith), (λ k. omega arith))

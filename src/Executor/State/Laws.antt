-- ===== src/Executor/State/Laws.antt =====
-- The current job, the datasets it waits for, and the counters, across the executor's handlers.
use epic_miner.Common.{
  ℕ, ◌≤◌, ◌<◌, ◌≡◌, refl, sym, inl, inr, true, false, List, [], ◌∷◌, arith, none, some, ◌==◌,
  length, get_elem?, Bool-cases,
}
use epic_miner.Job.{PowType, PoolJob, DatasetRef, MinerJob, idle_miner_job, miner_job}
use epic_miner.Dataset.Rx.Laws.{adjust_to_seed-loaded}
use epic_miner.Dataset.Pp.Laws.{adjust_to_block-loaded}
use epic_miner.Pool.State.{Pool}
use epic_miner.Executor.Errors.{reset}
use epic_miner.Executor.State.{
  Executor, job_at, record_miner_hashes, push_job, push_idle_job, job_for, new_job, on_pool_new_job,
  is_idle, on_pool_disconnect,
}

-- A job waits for the id that its dataset is being made for.
abbrev pub WaitsFor : Executor → MinerJob → Type 0
WaitsFor ex job = elim job.ds [
  | none ↦ job.dataset_id ≡ 0
  | some DatasetRef.randomx_dataset ↦ job.dataset_id ≡ ex.randomx_dataset.loaded_id
  | some DatasetRef.progpow_dataset ↦ job.dataset_id ≡ ex.progpow_dataset.loaded_id
]

job_at-below : (jobs : List MinerJob) (k : ℕ) → length jobs ≤ k → job_at jobs k ≡ none
unfolding job_at
job_at-below [] k h = refl
job_at-below (job ∷ older) k h =
    let other : (k == length older) ≡ false = ground arith in
    rw (other) (job_at-below older k (omega arith))

-- What was pointed at before a push is pointed at after it, and the front is the pushed job.
job_at-push :
    (job : MinerJob) (jobs : List MinerJob)
    → (job_at (job ∷ jobs) (length jobs) ≡ some job)
      × ((k : ℕ) → k < length jobs → job_at (job ∷ jobs) k ≡ job_at jobs k)
unfolding job_at
job_at-push job jobs =
    let front : (length jobs == length jobs) ≡ true = ground arith in
    (
      rw (front) refl,
      λ k h. let other : (k == length jobs) ≡ false = ground arith in rw (other) refl,
    )

copies :
    (f : ℕ → ℕ) (pool_id : ℕ) (job : PoolJob)
    → let copy = job_for f pool_id job in
      (copy.blob ≡ job.blob)
      × (copy.blob_len ≡ job.blob_len)
      × (copy.nonce_pos ≡ job.nonce_pos)
      × (copy.target ≡ job.target)
      × (copy.id ≡ job.id)
      × (copy.nonce ≡ some pool_id)
unfolding job_for miner_job
copies f pool_id job = ground arith

waits_at :
    (f : ℕ → ℕ) (now_ms now_s pool_id : ℕ) (job : PoolJob) (ex : Executor) (w : PowType)
    → job.pow ≡ w
    → WaitsFor (new_job f now_ms now_s pool_id job ex) (job_for f pool_id job)
unfolding job_for miner_job new_job record_miner_hashes push_job
waits_at f now_ms now_s pool_id job ex PowType.idle e = rw (job_for, e) refl
waits_at f now_ms now_s pool_id job ex PowType.randomx e =
    rw (job_for, e) (sym (adjust_to_seed-loaded ex.randomx_dataset job.randomx_seed))
waits_at f now_ms now_s pool_id job ex PowType.progpow e =
    rw (job_for, e) (sym (adjust_to_block-loaded f ex.progpow_dataset job.height))
waits_at f now_ms now_s pool_id job ex PowType.cuckoo e = rw (job_for, e) refl

-- On a job of a pool that is there, the executor's current job is a copy of the pool's: its blob,
-- length, nonce position, target and id, with the pool's nonce counter; the id that it waits for is
-- the one that its dataset is being made for. Every older pointer into the list of jobs points at
-- the job it pointed at before.
pub on_pool_new_job_lem :
    (f : ℕ → ℕ) (now_ms now_s pool_id : ℕ) (ex : Executor) (p : Pool)
    → get_elem? ex.pools pool_id ≡ some p
    → (ex' : Executor) × (job : MinerJob) × (on_pool_new_job f now_ms now_s pool_id ex ≡ some ex')
      × (job_at ex'.miner_jobs ex'.current_job ≡ some job)
      × (job.blob ≡ p.my_job.blob)
      × (job.blob_len ≡ p.my_job.blob_len)
      × (job.nonce_pos ≡ p.my_job.nonce_pos)
      × (job.target ≡ p.my_job.target)
      × (job.id ≡ p.my_job.id)
      × (job.nonce ≡ some pool_id)
      × WaitsFor ex' job
      × ((k : ℕ) → k < length ex.miner_jobs → job_at ex'.miner_jobs k ≡ job_at ex.miner_jobs k)
unfolding on_pool_new_job new_job record_miner_hashes push_job
on_pool_new_job_lem f now_ms now_s pool_id ex p at =
    let (front, older) = job_at-push (job_for f pool_id p.my_job) ex.miner_jobs in
    let (blob, len, pos, target, id, nonce) = copies f pool_id p.my_job in
    (
      new_job f now_ms now_s pool_id p.my_job ex,
      job_for f pool_id p.my_job,
      rw (on_pool_new_job, at) refl,
      front,
      blob,
      len,
      pos,
      target,
      id,
      nonce,
      waits_at f now_ms now_s pool_id p.my_job ex p.my_job.pow refl,
      older,
    )

-- After a lost connection, where the executor has a current job, its current job is idle, older
-- pointers into the list of jobs are as they were, and a second lost connection changes nothing. A
-- job that was not idle ends the session: the counters are those of reset.
pub on_pool_disconnect_lem :
    (now later : ℕ) (memory memory' : MinerJob) (ex : Executor) (job : MinerJob)
    → job_at ex.miner_jobs ex.current_job ≡ some job
    → (ex' : Executor) × (job' : MinerJob) × (on_pool_disconnect now memory ex ≡ some ex')
      × (job_at ex'.miner_jobs ex'.current_job ≡ some job')
      × (is_idle job'.pow ≡ true)
      × (on_pool_disconnect later memory' ex' ≡ some ex')
      × (is_idle job.pow ≡ false → ex'.pool_ctr ≡ reset)
      × ((k : ℕ) → k < length ex.miner_jobs → job_at ex'.miner_jobs k ≡ job_at ex.miner_jobs k)
unfolding on_pool_disconnect push_idle_job push_job record_miner_hashes idle_miner_job
on_pool_disconnect_lem now later memory memory' ex job at =
    let (front, older) = job_at-push (idle_miner_job memory) ex.miner_jobs in
    elim (Bool-cases (is_idle job.pow)) [
      | inl idle ↦ (
        ex,
        job,
        rw (on_pool_disconnect, at) (rw (idle) refl),
        at,
        idle,
        rw (on_pool_disconnect, at) (rw (idle) refl),
        λ busy. absurd (cc (idle, busy)),
        λ k h. refl,
      )
      | inr busy ↦ (
        push_idle_job now memory ex,
        idle_miner_job memory,
        rw (on_pool_disconnect, at) (rw (busy) refl),
        front,
        refl,
        rw (on_pool_disconnect, front) refl,
        λ h. refl,
        older,
      )
    ]

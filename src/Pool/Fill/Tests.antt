-- ===== src/Pool/Fill/Tests.antt =====
-- A job of the server, and the theorems about process_pool_job at it.
use epic_miner.Common.{none, ◌+◌, ◌≤◌, ◌<◌, ◌≡◌, refl, ◌∙◌, true}
use epic_miner.Json.{get_object_member, end}
use epic_miner.Job.{PoolJob, blob_size}
use epic_miner.Pool.Fill.{read_params, Filled, filled, rejected, fill_job, work_len}
use epic_miner.Pool.Fill.Laws.{acceptable, is_filled, fill_job_accepts}
use epic_miner.Pool.Fill.Fields.{IsSized, job_of, fill_job-IsSized, fill_job-nonce_pos}
use epic_miner.Pool.Fill.Samples.{params, params-AreBytes, empty_job, empty_job-IsSized, accepted}

fill_job_accepts_example : is_filled (fill_job params empty_job) ≡ acceptable params
fill_job_accepts_example = fill_job_accepts params empty_job params-AreBytes

fill_job-IsSized_example : IsSized (job_of (fill_job params empty_job))
fill_job-IsSized_example = fill_job-IsSized params empty_job params-AreBytes empty_job-IsSized

abbrev ready_job : PoolJob
ready_job = job_of (fill_job params empty_job)

filled_of : (m : Filled) → is_filled m ≡ true → m ≡ filled (job_of m)
unfolding is_filled job_of
filled_of (filled job) e = refl
filled_of (rejected err job) e = absurd (cc (e))

is_ready : fill_job params empty_job ≡ filled ready_job
is_ready = filled_of (fill_job params empty_job) (fill_job_accepts_example ∙ accepted)

fill_job-nonce_pos_example :
    (4 ≤ work_len params.blob → ready_job.nonce_pos + 4 ≡ ready_job.blob_len)
    × (work_len params.blob < 4 → blob_size < ready_job.nonce_pos)
fill_job-nonce_pos_example = fill_job-nonce_pos params empty_job ready_job is_ready

no_params : read_params end ≡ none
unfolding read_params get_object_member
no_params = refl

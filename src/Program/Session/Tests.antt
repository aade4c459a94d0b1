-- ===== src/Program/Session/Tests.antt =====
-- A share and a job at an executor with one pool and two miners.
use epic_miner.Common.{
  ℕ, ◌+◌, ◌<◌, ◌≡◌, refl, true, false, [], ◌∷◌, ◌++◌, arith, none, some, codes, length, drop,
  get_elem?, bytes_eq, c_str, strcmp_eq,
}
use epic_miner.Json.{
  Members, end, member, uint, str, obj, get_object_member, as_uint, as_object, as_string,
}
use epic_miner.Misc.Hex.Laws.{decode}
use epic_miner.Job.{PowType, MinerJob, randomx_cpu_miner, progpow_cpu_miner}
use epic_miner.Miner.Record.{Miner}
use epic_miner.Dataset.Rx.{rx_dataset}
use epic_miner.Dataset.Pp.{pp_dataset}
use epic_miner.Pool.Fill.{read_params, work_len}
use epic_miner.Pool.Fill.Laws.{padded, target_value}
use epic_miner.Pool.Fill.Fields.{IsSized}
use epic_miner.Pool.Fill.Samples.{params, params-AreBytes, accepted, seed_text}
use epic_miner.Pool.State.{Pool, PoolState}
use epic_miner.Pool.Messages.Samples.{
  ok_members, accepted_doc, accepted_doc-IsReply, sent_calls, registers, sample_calls-IsValid,
}
use epic_miner.Pool.Samples.{sample_pool, sample_job, sample_result, zero_vector}
use epic_miner.Executor.Errors.{reset}
use epic_miner.Executor.State.{Executor, job_at}
use epic_miner.Executor.State.Laws.{WaitsFor}
use epic_miner.Program.Session.{Now, on_message}
use epic_miner.Common.Int.{pos}
use epic_miner.Common.{◌-◌}
use epic_miner.Pool.Calls.{find_call, register_call, place}
use epic_miner.Pool.State.{on_result_reply, do_send_result, registered}
use epic_miner.Pool.Messages.{process_json_doc}
use epic_miner.Pool.Messages.Answer.{do_send_result_answered}
use epic_miner.Program.Session.Served.{IsKnown, on_message-IsKnown}
use epic_miner.Program.Session.Jobs.{IsJob, on_message-mined}

abbrev mined : MinerJob
mined = record {
  id = [];
  blob = [];
  blob_len = 76;
  nonce_pos = 72;
  target = 1;
  ds = none;
  dataset_id = 0;
  height = 1;
  nonce = some 0;
  pow = PowType.randomx;
}

abbrev first_miner : Miner
first_miner = record {
  thd_id = 0;
  kind = randomx_cpu_miner;
  is_hashing = true;
  hash_count = 5;
  hash_log = record { pos = 0; slots = [] };
}

abbrev second_miner : Miner
second_miner = record first_miner { thd_id = 1; kind = progpow_cpu_miner }

abbrev ex0 : Executor
ex0 = record {
  pool_ctr = reset;
  error_log = [];
  pools = sample_pool ∷ [];
  randomx_dataset = rx_dataset zero_vector;
  progpow_dataset = pp_dataset;
  miners = first_miner ∷ second_miner ∷ [];
  miner_jobs = mined ∷ [];
  current_job = 0;
}

abbrev epoch : ℕ → ℕ
epoch block = 23

abbrev now : Now
now = record { ms = 161; s = 1; memory = mined }

abbrev later : Now
later = record { ms = 200; s = 1; memory = mined }

abbrev job_members : Members
job_members = member (codes "job_id") (str (codes "job1")) (
    member (codes "blob") (str (codes "0a0b0c0d0e0f")) (
      member (codes "target") (str (codes "ff000000")) (
        member (codes "pow_algo") (str (codes "progpow")) (
          member (codes "height") (uint 700_000)
            (member (codes "seed_hash") (str seed_text) end)))))

abbrev job_doc : Members
job_doc =
    member (codes "method") (str (codes "job")) (member (codes "params") (obj job_members) end)

job_doc-IsJob : IsJob job_doc params
unfolding get_object_member as_uint as_object as_string read_params bytes_eq c_str strcmp_eq
job_doc-IsJob = record {
  method = str (codes "job");
  has_method = refl;
  name = codes "job";
  method_name = refl;
  is_job = refl;
  param = obj job_members;
  has_param = refl;
  members = job_members;
  param_members = refl;
  content = refl;
}

sample_job-IsSized : IsSized sample_job
sample_job-IsSized = record { id_size = refl; blob_sized = refl; seed_size = refl }

on_message-mined_example :
    (ex' : Executor) × (q : Pool) × (job : MinerJob) × (on_message epoch now 0 job_doc ex0
      ≡ some (ex', true))
    × (get_elem? ex'.pools 0 ≡ some q)
    × (q.state ≡ PoolState.has_job)
    × (job_at ex'.miner_jobs ex'.current_job ≡ some job)
    × (job.id ≡ params.jobid ++ 0 ∷ drop (length params.jobid + 1) sample_job.id)
    × (job.blob_len ≡ work_len params.blob)
    × (job.blob ≡ decode job.blob_len params.blob ++ drop job.blob_len sample_job.blob)
    × (job.target ≡ target_value (padded params.target))
    × (0 < job.target)
    × (job.nonce ≡ some 0)
    × WaitsFor ex' job
on_message-mined_example =
    on_message-mined epoch now 0 job_doc params sample_pool ex0 refl refl sample_job-IsSized
      job_doc-IsJob params-AreBytes accepted

-- The sample's executor after the share is sent.
abbrev sent_pool : Pool
sent_pool = record sample_pool { calls = sent_calls; ping_call_id = 1; ping_timestamp = pos 101 }

abbrev sent_ex : Executor
sent_ex = record ex0 { pools = sent_pool ∷ [] }

never_result {ℓ} : {A : Type ℓ} → false ≡ true → A
never_result h = absurd (cc (h))

sent_ex-IsKnown : IsKnown 0 sent_ex sent_pool
sent_ex-IsKnown = record {
  in_place = refl;
  own_id = refl;
  known = (
    λ e. omega arith,
    (
      never_result,
      (
        never_result,
        (never_result, (never_result, (never_result, (never_result, (never_result, tt))))),
      ),
    ),
  );
}

abbrev answered_pool : Pool
answered_pool = record sent_pool { calls = (find_call sent_calls 1).1 }

is_read :
    process_json_doc sent_pool accepted_doc 161
    ≡ some ((answered_pool, on_result_reply 65_535 none (161 - 101) 1 ∷ []), true)
unfolding do_send_result registered register_call place
is_read =
    (do_send_result_answered sample_pool sample_result 0 100 101 161 200 1 sent_calls accepted_doc
      (some ok_members) none refl sample_calls-IsValid (omega arith) registers accepted_doc-IsReply
      (omega arith)).0

on_message-IsKnown_example :
    (ex' : Executor) × (on_message epoch now 0 accepted_doc sent_ex ≡ some (ex', true))
    × IsKnown 0 ex' answered_pool
on_message-IsKnown_example =
    on_message-IsKnown epoch now 0 accepted_doc sent_ex sent_pool answered_pool
      (on_result_reply 65_535 none (161 - 101) 1 ∷ []) true sent_ex-IsKnown is_read

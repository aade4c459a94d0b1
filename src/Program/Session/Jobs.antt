-- ===== src/Program/Session/Jobs.antt =====
-- What a message does to the executor, and the way of a job from the server to the miners.
use epic_miner.Common.{
  ℕ, ◌+◌, ◌<◌, ◌≡◌, refl, sym, ap, ◌∙◌, inl, inr, true, List, ◌∷◌, ◌++◌, drop, length, get_elem?,
  subst, arith, some, Option-cases, codes, strcmp_eq,
}
use epic_miner.Json.{Value, Members, as_string, as_object, get_object_member}
use epic_miner.Misc.Hex.Laws.{decode}
use epic_miner.Job.{MinerJob}
use epic_miner.Pool.Fill.{JobParams, Filled, filled, rejected, read_params, fill_job, work_len}
use epic_miner.Pool.Fill.Laws.{
  AreBytes, is_filled, acceptable, padded, target_value, fill_job_accepts,
}
use epic_miner.Pool.Fill.Fields.{IsSized, fill_job-IsReady}
use epic_miner.Pool.State.{Pool, PoolState, on_pool_new_job}
use epic_miner.Pool.Messages.{accept_job, process_pool_job, handle_method, process_json_doc}
use epic_miner.Executor.State.{Executor, job_at, job_for, accept_share, reject_share}
use epic_miner.Executor.State.Laws.{WaitsFor, on_pool_new_job_lem}
use epic_miner.Program.Session.{Now, called, with_pool, on_message}
use epic_miner.Program.Session.Laws.{pool_at, on_message_lem, one_called}

-- A document that hands out a job.
pub record IsJob (doc : Members) (params : JobParams) : Type 0 where
  pub method : Value
  pub has_method : get_object_member doc (codes "method") ≡ some method
  pub name : List ℕ
  pub method_name : as_string method ≡ some name
  pub is_job : strcmp_eq name (codes "job") ≡ true
  pub param : Value
  pub has_param : get_object_member doc (codes "params") ≡ some param
  pub members : Members
  pub param_members : as_object param ≡ some members
  pub content : read_params members ≡ some params

process_json_doc-IsJob :
    (p : Pool) (doc : Members) (params : JobParams) (now : ℕ)
    → IsJob doc params
    → process_json_doc p doc now ≡ some (accept_job p (fill_job params p.my_job))
unfolding process_json_doc handle_method process_pool_job
process_json_doc-IsJob p doc params now j =
    rw (j.has_method, process_json_doc)
      (rw (j.method_name, handle_method)
        (rw (j.is_job) (
          rw (j.has_param, handle_method)
            (rw (j.param_members, handle_method) (rw (j.content, process_pool_job) refl)))))

new_job_pools :
    (f : ℕ → ℕ) (now_ms now_s pool_id : ℕ) (ex ex' : Executor)
    → epic_miner.Executor.State.on_pool_new_job f now_ms now_s pool_id ex ≡ some ex'
    → ex'.pools ≡ ex.pools
unfolding epic_miner.Executor.State.on_pool_new_job epic_miner.Executor.State.new_job
    epic_miner.Executor.State.push_job epic_miner.Executor.State.record_miner_hashes
new_job_pools f now_ms now_s pool_id ex ex' e = elim (Option-cases (get_elem? ex.pools pool_id)) [
  | inl gone ↦ absurd (ground (arith, gone))
  | inr (p, at) ↦ ground (arith, at)
]

accepts :
    (params : JobParams) (p : Pool)
    → AreBytes params
    → acceptable params ≡ true
    → (job : _) × (fill_job params p.my_job ≡ filled job)
unfolding is_filled
accepts params p b ok = by_filled (fill_job params p.my_job) refl
  where
    by_filled :
        (r : Filled)
        → fill_job params p.my_job ≡ r
        → (job : _) × (fill_job params p.my_job ≡ filled job)
    by_filled (filled job) e = (job, e)
    by_filled (rejected err job) e =
        let yes : is_filled (rejected err job) ≡ true =
          sym (ap is_filled e) ∙ fill_job_accepts params p.my_job b ∙ ok in
        absurd (cc (yes))

-- A job that the server hands out, with an acceptable algorithm, id, blob, target and seed, is what
-- the miners work on: after the message the executor's current job has the message's id, with its NUL,
-- the bytes that the blob's digits spell, and their number, the target that its digits spell, which is
-- not 0, and the pool's nonce counter; it waits for the id that its dataset is being made for; and the
-- pool takes shares.
pub on_message-mined :
    (f : ℕ → ℕ) (now : Now) (pool_id : ℕ) (doc : Members) (params : JobParams) (p : Pool)
    (ex : Executor)
    → get_elem? ex.pools pool_id ≡ some p
    → p.pool_id ≡ pool_id
    → IsSized p.my_job
    → IsJob doc params
    → AreBytes params
    → acceptable params ≡ true
    → (ex' : Executor) × (q : Pool) × (job : MinerJob) × (on_message f now pool_id doc ex
        ≡ some (ex', true))
      × (get_elem? ex'.pools pool_id ≡ some q)
      × (q.state ≡ PoolState.has_job)
      × (job_at ex'.miner_jobs ex'.current_job ≡ some job)
      × (job.id ≡ params.jobid ++ 0 ∷ drop (length params.jobid + 1) p.my_job.id)
      × (job.blob_len ≡ work_len params.blob)
      × (job.blob ≡ decode job.blob_len params.blob ++ drop job.blob_len p.my_job.blob)
      × (job.target ≡ target_value (padded params.target))
      × (0 < job.target)
      × (job.nonce ≡ some pool_id)
      × WaitsFor ex' job
unfolding accept_job called
on_message-mined f now pool_id doc params p ex at own sized j b ok =
    let (mine, filled_in) = accepts params p b ok in
    let ready = fill_job-IsReady params p.my_job mine b sized filled_in in
    let q : Pool = record p { my_job = mine; state = PoolState.has_job } in
    let handled =
      process_json_doc-IsJob p doc params now.ms j ∙ ap (λ x. some (accept_job p x)) filled_in in
    let there = pool_at ex pool_id p q at in
    let (ex', work, told, front, blob, len, pos, target, id, nonce, waits, older) =
      on_pool_new_job_lem f now.ms now.s pool_id (with_pool pool_id q ex) q there in
    let call : called f now (on_pool_new_job p.pool_id) (with_pool pool_id q ex) ≡ some ex' =
      subst
        (λ i.
          epic_miner.Executor.State.on_pool_new_job f now.ms now.s i (with_pool pool_id q ex)
          ≡ some ex')
        (sym own) told in
    let same = new_job_pools f now.ms now.s pool_id (with_pool pool_id q ex) ex' told in
    (
      ex',
      q,
      work,
      on_message_lem f now pool_id doc ex ex' p q _ true at handled
          (one_called f now _ (with_pool pool_id q ex) ex' call),
      subst (λ ps. get_elem? ps pool_id ≡ some q) (sym same) there,
      refl,
      front,
      id ∙ ready.1,
      len ∙ ready.3,
      subst (λ n. work.blob ≡ decode n params.blob ++ drop n p.my_job.blob) (sym len)
          (blob ∙ ready.5),
      target ∙ ready.6,
      subst (λ t. 0 < t) (sym target) ready.7,
      nonce,
      waits,
    )

-- ===== src/Program/Session/Served.antt =====
-- The miners that the pool's table of calls names are the executor's.
use epic_miner.Common.{
  ℕ, zero, suc, ◌<◌, ◌≡◌, refl, sym, ap, subst, ◌∙◌, inl, inr, Bool, true, List, [], ◌∷◌, All,
  length, get_elem?, arith, Option, none, some, Option-cases, Bool-cases, map,
}
use epic_miner.Json.{Members}
use epic_miner.Pool.Calls.{CallType, is_valid, result, CallMapping, CallTable, place, register_call}
use epic_miner.Pool.State.{
  Pool, Action, log_error, on_pool_new_job, on_pool_disconnect, on_result_reply, net_connect,
  net_shutdown, socket_write, send_formatted, do_send_result, registered, has_job_state,
}
use epic_miner.Job.{MinerResult}
use epic_miner.Miner.Record.{Miner, record_hashes}
use epic_miner.Executor.State.{
  Executor, accept_share, reject_share, new_job, push_job, record_miner_hashes,
}
use epic_miner.Program.Session.{Now, called, all_called, with_pool, on_message, on_found_result}
use epic_miner.Program.Session.Laws.{pool_at, on_message_lem}
use epic_miner.Pool.Messages.{process_json_doc}
use epic_miner.Program.Session.Known.{is_result, Known, Asks, Sane, IsSane, process_json_doc-Sane}

-- A miner's place is in the list.
below : (ms : List Miner) (i : ℕ) → i < length ms → (m : Miner) × (get_elem? ms i ≡ some m)
below [] i h = absurd (omega arith)
below (m ∷ ms) zero h = (m, refl)
below (m ∷ ms) (suc i) h = below ms i (omega arith)

length-hashes : (now : ℕ) (ms : List Miner) → length (map (record_hashes now) ms) ≡ length ms
length-hashes now [] = refl
length-hashes now (m ∷ ms) = ap suc (length-hashes now ms)

-- What a call of the executor leaves.
Served : Executor → Option Executor → Type 0
Served ex r =
    (ex' : Executor) × (r ≡ some ex')
    × (ex'.pools ≡ ex.pools)
    × (length ex'.miners ≡ length ex.miners)

replied :
    (target : ℕ) (err : Option (List ℕ)) (miner_id now_s : ℕ) (ex : Executor) (m : Miner)
    → get_elem? ex.miners miner_id ≡ some m
    → Served ex (epic_miner.Executor.State.on_result_reply target err miner_id now_s ex)
unfolding epic_miner.Executor.State.on_result_reply Served
replied target none miner_id now_s ex m at = (
  record ex { pool_ctr = accept_share target ex.pool_ctr },
  rw (epic_miner.Executor.State.on_result_reply, at) refl,
  refl,
  refl,
)
replied target (some msg) miner_id now_s ex m at = (
  record ex {
    pool_ctr = reject_share ex.pool_ctr;
    error_log = epic_miner.Executor.Errors.log_error msg now_s ex.error_log;
  },
  rw (epic_miner.Executor.State.on_result_reply, at) refl,
  refl,
  refl,
)

new_job-Served :
    (f : ℕ → ℕ) (now : Now) (i : ℕ) (ex : Executor) (p : Pool)
    → get_elem? ex.pools i ≡ some p
    → Served ex (epic_miner.Executor.State.on_pool_new_job f now.ms now.s i ex)
unfolding epic_miner.Executor.State.on_pool_new_job new_job push_job record_miner_hashes Served
new_job-Served f now i ex p at = (
  new_job f now.ms now.s i p.my_job ex,
  rw (epic_miner.Executor.State.on_pool_new_job, at) refl,
  refl,
  length-hashes now.ms ex.miners,
)

called-Served :
    (f : ℕ → ℕ) (now : Now) (i : ℕ) (act : Action) (ex : Executor) (p : Pool)
    → get_elem? ex.pools i ≡ some p
    → Asks (length ex.miners) i act
    → Served ex (called f now act ex)
unfolding called Served
called-Served f now i (on_result_reply target err rtt miner_id) ex p at a =
    let (m, there) = below ex.miners miner_id a in
    unfold Served in replied target err miner_id now.s ex m there
called-Served f now i (on_pool_new_job pool_id) ex p at a =
    subst (λ j. Served ex (epic_miner.Executor.State.on_pool_new_job f now.ms now.s j ex)) (sym a)
      (new_job-Served f now i ex p at)
called-Served f now i (log_error err) ex p at a = (_, refl, refl, refl)
called-Served f now i (on_pool_disconnect pool_id) ex p at a = absurd a
called-Served f now i net_connect ex p at a = (_, refl, refl, refl)
called-Served f now i net_shutdown ex p at a = (_, refl, refl, refl)
called-Served f now i (socket_write text) ex p at a = (_, refl, refl, refl)
called-Served f now i (send_formatted text) ex p at a = (_, refl, refl, refl)

all_called-Served :
    (f : ℕ → ℕ) (now : Now) (i : ℕ) (acts : List Action) (ex : Executor) (p : Pool)
    → get_elem? ex.pools i ≡ some p
    → All (Asks (length ex.miners) i) acts
    → Served ex (all_called f now acts ex)
unfolding all_called Served
all_called-Served f now i [] ex p at a = (ex, refl, refl, refl)
all_called-Served f now i (act ∷ acts) ex p at (a, rest) =
    let (ex1, e1, pools1, miners1) = called-Served f now i act ex p at a in
    let at1 = subst (λ ps. get_elem? ps i ≡ some p) (sym pools1) at in
    let rest1 = subst (λ n. All (Asks n i) acts) (sym miners1) rest in
    let (ex2, e2, pools2, miners2) = all_called-Served f now i acts ex1 p at1 rest1 in
    (ex2, rw (e1, all_called) e2, pools2 ∙ pools1, miners2 ∙ miners1)

-- The pool in place `i` has that id, and the shares that wait for a reply are from the executor's miners.
pub record IsKnown (i : ℕ) (ex : Executor) (pool : Pool) : Type 0 where
  pub in_place : get_elem? ex.pools i ≡ some pool
  pub own_id : pool.pool_id ≡ i
  pub known : Known (length ex.miners) pool.calls.call_map

-- Where the pool's replies name only miners that there are, every message that the pool can read is
-- handled to its end: the executor reads no pool and no miner that is not there, and the same holds
-- after it.
pub on_message-IsKnown :
    (f : ℕ → ℕ) (now : Now) (i : ℕ) (doc : Members) (ex : Executor) (p p' : Pool)
    (acts : List Action) (done : Bool)
    → IsKnown i ex p
    → process_json_doc p doc now.ms ≡ some ((p', acts), done)
    → (ex' : Executor) × (on_message f now i doc ex ≡ some (ex', done)) × IsKnown i ex' p'
unfolding Served with_pool
on_message-IsKnown f now i doc ex p p' acts done k e =
    let sane : Sane (length ex.miners) p.pool_id ((p', acts), done) =
      subst (IsSane (length ex.miners) p.pool_id) e
        (process_json_doc-Sane (length ex.miners) p doc now.ms k.known) in
    let there = pool_at ex i p p' k.in_place in
    let asked = subst (λ j. All (Asks (length ex.miners) j) acts) k.own_id sane.acts in
    let (ex', called_all, pools, miners) =
      all_called-Served f now i acts (with_pool i p' ex) p' there asked in
    (
      ex',
      on_message_lem f now i doc ex ex' p p' acts done k.in_place e called_all,
      record {
        in_place = subst (λ ps. get_elem? ps i ≡ some p') (sym pools) there;
        own_id = sane.same_id ∙ k.own_id;
        known = subst (λ n. Known n p'.calls.call_map) (sym miners) sane.calls;
      },
    )

place-Known :
    (n : ℕ) (new : CallMapping) (calls entries : List CallMapping)
    → (is_result new.call ≡ true → new.miner_id < n)
    → Known n calls
    → place new calls ≡ some entries
    → Known n entries
unfolding place
place-Known n new [] entries b k e = absurd (cc (e))
place-Known n new (mp ∷ rest) entries b (k, ks) e = elim (Bool-cases (is_valid mp.call)) [
  | inr free ↦
      let same : new ∷ rest ≡ entries = ground (arith, free) in subst (Known n) same (b, ks)
  | inl taken ↦ elim (Option-cases (place new rest)) [
    | inl full ↦ absurd (ground (arith, taken, full))
    | inr (later, fits) ↦
        let same : mp ∷ later ≡ entries = ground (arith, taken, fits) in
        subst (Known n) same (k, place-Known n new rest later b ks fits)
  ]
]

register_call-Known :
    (n now miner_id id : ℕ) (t t' : CallTable) (type : CallType)
    → (is_result type ≡ true → miner_id < n)
    → Known n t.call_map
    → register_call t type miner_id now ≡ some (id, t')
    → Known n t'.call_map
unfolding register_call
register_call-Known n now miner_id id t t' type b k e =
    let new : CallMapping = record {
      call_id = t.g_call_id;
      call = type;
      time_made = now;
      miner_id = miner_id;
    } in
    elim (Option-cases (place new t.call_map)) [
      | inl full ↦ absurd (ground (arith, full))
      | inr (entries, fits) ↦
          let same : entries ≡ t'.call_map = ground (arith, fits) in
          subst (Known n) same (place-Known n new t.call_map entries b k fits)
    ]

registered-Known :
    (n stack now miner_id : ℕ) (t : CallTable) (type : CallType)
    → (is_result type ≡ true → miner_id < n)
    → Known n t.call_map
    → Known n (registered (register_call t type miner_id now) stack t).1.call_map
unfolding registered
registered-Known n stack now miner_id t type b k =
    elim (Option-cases (register_call t type miner_id now)) [
      | inl full ↦ rw (full, registered) k
      | inr ((id, t'), given) ↦
          rw (given, registered) (register_call-Known n now miner_id id t t' type b k given)
    ]

-- A share of a miner that there is, and the login of a new connection, keep it.
pub on_found_result-IsKnown :
    (res : MinerResult) (stack now1 now2 : ℕ) (ex : Executor) (p : Pool)
    → IsKnown 0 ex p
    → res.miner_id < length ex.miners
    → (ex' : Executor) × (acts : List Action) × (on_found_result res stack now1 now2 ex
        ≡ some (ex', acts))
      × IsKnown 0 ex' (do_send_result p res stack now1 now2).0
unfolding on_found_result with_pool do_send_result
on_found_result-IsKnown res stack now1 now2 ex p k b =
    let sent = (do_send_result p res stack now1 now2).0 in
    let kept : (sent.pool_id ≡ p.pool_id) × Known (length ex.miners) sent.calls.call_map =
      elim (Bool-cases (has_job_state p.state)) [
        | inr other ↦ rw (other) (refl, k.known)
        | inl mining ↦ rw (mining) (
          refl,
          registered-Known (length ex.miners) stack now1 res.miner_id p.calls result (λ e. b)
              k.known,
        )
      ] in
    (
      with_pool 0 sent ex,
      (do_send_result p res stack now1 now2).1,
      rw (on_found_result, k.in_place) refl,
      record {
        in_place = pool_at ex 0 p sent k.in_place;
        own_id = kept.0 ∙ k.own_id;
        known = kept.1;
      },
    )

-- ===== src/Pool/Messages/Answer.antt =====
-- A result from the moment that it is sent to the server's answer.
use epic_miner.Common.{
  ℕ, ◌+◌, ◌-◌, ◌^◌, ◌≤◌, ◌<◌, ◌≡◌, refl, ap, ◌∙◌, true, List, [], ◌∷◌, arith, Option, some, codes,
}
use epic_miner.Common.Int.{pos, ◌-ℤ◌}
use epic_miner.Json.{Members}
use epic_miner.Job.{MinerResult}
use epic_miner.Pool.Calls.{invalid, result, CallTable, FindCallRes, find_call, register_call}
use epic_miner.Pool.Calls.Laws.{IsValid, find_call_lem}
use epic_miner.Pool.Calls.Register.{register_call_lem}
use epic_miner.Pool.State.{Pool, PoolState, on_result_reply, protocol_error, do_send_result}
use epic_miner.Pool.Messages.Effects.{IsReply}
use epic_miner.Pool.Messages.{round_trip, dispatch_reply, handle_reply, handle_id, process_json_doc}

process_json_doc-IsReply :
    (p : Pool) (doc : Members) (call_id ts_now : ℕ) (value : Option Members) (err : Option (List ℕ))
    → IsReply doc call_id value err
    → process_json_doc p doc ts_now
      ≡ dispatch_reply
          (record p { calls = (find_call p.calls call_id).1 })
          (find_call p.calls call_id).0
          call_id
          value
          err
          ts_now
unfolding process_json_doc handle_id
process_json_doc-IsReply p doc call_id ts_now value err r =
    rw (r.no_method, process_json_doc)
      (rw (r.has_id, process_json_doc)
        (rw (r.id_number, handle_id) (rw (r.content, handle_reply) (unfold handle_reply in refl))))

module _ (p : Pool) (res : FindCallRes) (call_id ts_now : ℕ) (value : Option Members)
    (err : Option (List ℕ)) where
  dispatch_reply_result :
      (rtt miner_id : ℕ)
      → res.call ≡ result
      → res.miner_id ≡ miner_id
      → round_trip p call_id ts_now ≡ rtt
      → dispatch_reply p res call_id value err ts_now
        ≡ some ((p, on_result_reply p.my_job.target err rtt miner_id ∷ []), true)
  dispatch_reply_result rtt miner_id e m t =
      rw (← m, ← t) (unfold dispatch_reply in rw (e, dispatch_reply))

  dispatch_reply_invalid :
      res.call ≡ invalid
      → dispatch_reply p res call_id value err ts_now
        ≡ some (protocol_error p (codes "Invalid call_id"))
  dispatch_reply_invalid e = unfold dispatch_reply in rw (e, dispatch_reply)

round_trip_lem :
    (p : Pool) (id now2 ts_now : ℕ)
    → p.ping_call_id ≡ id
    → p.ping_timestamp ≡ pos now2
    → now2 ≤ ts_now
    → round_trip p id ts_now ≡ ts_now - now2
unfolding round_trip ◌-ℤ◌
round_trip_lem p id now2 ts_now e t le = ground arith

module _ (p : Pool) (res : MinerResult) (stack now1 now2 id : ℕ) (calls : CallTable)
    (s : p.state ≡ PoolState.has_job)
    (e : register_call p.calls result res.miner_id now1 ≡ some (id, calls)) where
  abbrev pub sent : Pool
  sent = record p { calls = calls; ping_call_id = id; ping_timestamp = pos now2 }

  pub do_send_result-sent : (do_send_result p res stack now1 now2).0 ≡ sent
  unfolding do_send_result
  do_send_result-sent = ground arith

-- A result sent while a job is mined, where the table of calls has room (register_call gives it an id)
-- and the counter of ids does not wrap: if the next message of the server is the reply with its id, it
-- reports to the executor the target, the server's verdict, the time since the result was sent (the
-- clock does not go back) and the miner that found it; and the same reply again is refused.
pub do_send_result_answered :
    (p : Pool) (res : MinerResult) (stack now1 now2 ts_now later id : ℕ) (calls : CallTable)
    (doc : Members) (value : Option Members) (err : Option (List ℕ))
    → p.state ≡ PoolState.has_job
    → IsValid p.calls
    → p.calls.g_call_id + 1 < 2 ^ 32
    → register_call p.calls result res.miner_id now1 ≡ some (id, calls)
    → IsReply doc id value err
    → now2 ≤ ts_now
    → let sent = (do_send_result p res stack now1 now2).0 in
      let after = record sent { calls = (find_call calls id).1 } in
      let refused = record after { calls = (find_call after.calls id).1 } in
      (process_json_doc sent doc ts_now
        ≡ some
            ((after, on_result_reply p.my_job.target err (ts_now - now2) res.miner_id ∷ []), true))
      × (process_json_doc after doc later ≡ some (protocol_error refused (codes "Invalid call_id")))
do_send_result_answered p res stack now1 now2 ts_now later id calls doc value err s v small e r t =
    let q = sent p res stack now1 now2 id calls s e in
    let known = register_call_lem p.calls calls result res.miner_id now1 id id v refl small e in
    let gone = find_call_lem calls id id known.0 in
    let taken : Pool = record q { calls = (find_call calls id).1 } in
    rw (do_send_result-sent p res stack now1 now2 id calls s e) (
      process_json_doc-IsReply q doc id ts_now value err r
          ∙ dispatch_reply_result taken (find_call calls id).0 id ts_now value err (ts_now - now2)
              res.miner_id (ap (λ (f : FindCallRes). f.call) known.3)
              (ap (λ (f : FindCallRes). f.miner_id) known.3)
              (round_trip_lem taken id now2 ts_now refl refl t),
      process_json_doc-IsReply taken doc id later value err r
          ∙ dispatch_reply_invalid _ (find_call taken.calls id).0 id later value err gone.1,
    )

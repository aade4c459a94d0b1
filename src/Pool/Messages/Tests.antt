-- ===== src/Pool/Messages/Tests.antt =====
-- A share that is sent and accepted.
use epic_miner.Common.{◌-◌, ◌≡◌, refl, true, [], ◌∷◌, arith, none, some, codes}
use epic_miner.Pool.Calls.{find_call}
use epic_miner.Pool.State.{Pool, do_send_result, protocol_error, on_result_reply}
use epic_miner.Pool.Messages.{process_json_doc}
use epic_miner.Pool.Messages.Effects.{Handles}
use epic_miner.Pool.Messages.Laws.{process_json_doc-Handles}
use epic_miner.Pool.Messages.Answer.{do_send_result_answered}
use epic_miner.Pool.Samples.{sample_pool, sample_result}
use epic_miner.Pool.Messages.Samples.{
  ok_members, accepted_doc, accepted_doc-IsReply, sent_calls, registers, sample_calls-IsValid,
}

-- The pool that has sent a result.
abbrev waiting_pool : Pool
waiting_pool = record sample_pool { calls = sent_calls }

process_json_doc-Handles_example :
    Handles waiting_pool accepted_doc 1000 (process_json_doc waiting_pool accepted_doc 1000)
process_json_doc-Handles_example = process_json_doc-Handles waiting_pool accepted_doc 1000

do_send_result_answered_example :
    let sent = (do_send_result sample_pool sample_result 0 100 101).0 in
    let after = record sent { calls = (find_call sent_calls 1).1 } in
    let refused = record after { calls = (find_call after.calls 1).1 } in
    (process_json_doc sent accepted_doc 161
      ≡ some ((after, on_result_reply 65_535 none (161 - 101) 1 ∷ []), true))
    × (process_json_doc after accepted_doc 200
        ≡ some (protocol_error refused (codes "Invalid call_id")))
do_send_result_answered_example =
    do_send_result_answered sample_pool sample_result 0 100 101 161 200 1 sent_calls accepted_doc
      (some ok_members) none refl sample_calls-IsValid (omega arith) registers accepted_doc-IsReply
      (omega arith)

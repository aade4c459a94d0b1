-- ===== src/Miner/Queue/Tests.antt =====
-- Two shares: the second is found while the first is being handed on.
use epic_miner.Common.{ℕ, ◌≡◌, refl, false, [], ◌++◌}
use epic_miner.Job.{MinerResult}
use epic_miner.Miner.Queue.{
  Handover, handover, emplace_back, async_send, wake, pop_front, finds, signals, wakes, takes,
  Steps, done, more,
}
use epic_miner.Miner.Queue.Laws.{held, Steps-handed_on, Steps-delivered}

abbrev share : ℕ → MinerResult
share n = record { id = []; nonce = n; res_hash = record { bytes = [] }; miner_id = 0 }

abbrev one_taken : Handover
unfolding emplace_back async_send wake pop_front
one_taken =
    emplace_back (share 2)
      (pop_front (share 1) [] (wake (async_send (emplace_back (share 1) handover))))

one_taken-reached : Steps handover one_taken
unfolding one_taken
one_taken-reached =
    let a = emplace_back (share 1) handover in
    let b = async_send a in
    let c = wake b in
    let d = pop_front (share 1) [] c in
    more handover a one_taken (finds handover (share 1) refl) (
      more a b one_taken (signals a refl) (
        more b c one_taken (wakes b refl refl) (
          more c d one_taken (takes c (share 1) [] refl refl refl)
            (more d one_taken one_taken (finds d (share 2) refl) (done one_taken)))))

Steps-handed_on_example :
    (one_taken.found ≡ one_taken.sent ++ (held one_taken.in_hand ++ one_taken.result_q))
    × (one_taken.unsignalled ≡ false
        → one_taken.pending ≡ false
        → one_taken.draining ≡ false
        → one_taken.sent ≡ one_taken.found)
Steps-handed_on_example = Steps-handed_on one_taken one_taken-reached

Steps-delivered_example :
    (h' : Handover) × (Steps one_taken h'
      × (h'.found ≡ one_taken.found)
      × (h'.sent ≡ one_taken.found))
Steps-delivered_example = Steps-delivered one_taken one_taken-reached

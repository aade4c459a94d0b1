-- ===== src/Net/Receive/Tests.antt =====
-- The room in the receive buffer.
use epic_miner.Common.{◌≡◌, refl, [], ◌∷◌}
use epic_miner.Net.Receive.{alloc_recv_buffer}

room_runs : alloc_recv_buffer (1 ∷ 2 ∷ []) ≡ 4094
unfolding alloc_recv_buffer
room_runs = refl

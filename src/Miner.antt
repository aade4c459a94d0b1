-- ===== src/Miner.antt =====
-- miner.hpp, miner.cpp, rx_miner.cpp and pp_miner.cpp. The two hashing loops, which are Loop, share
-- their search for nonces, which is Nonces; Record is the log of the hashes, and Queue the way of a
-- result to the executor.
pub mod Nonces
pub mod Record
pub mod Loop
pub mod Queue

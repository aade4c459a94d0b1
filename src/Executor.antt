-- ===== src/Executor.antt =====
-- executor.hpp and executor.cpp: the object that ties the pools, the datasets and the miners.
pub mod Errors
pub mod State
pub mod Heartbeat
pub mod Hashrate
pub mod Report
pub mod Run
mod Tests

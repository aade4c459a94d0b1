-- ===== src/Pool.antt =====
-- pool.hpp and pool.cpp: one mining pool. The call table is Calls, the job parser is Fill, the
-- handlers are State (state and connection) and Messages (what the server says).
pub mod Calls
pub mod Fill
pub mod Wire
pub mod State
pub mod Messages
pub mod Receive
pub mod Samples
pub mod Setup

-- ===== src/Misc.antt =====
-- misc.hpp: the hex codec, the ring buffer, and durations.
pub mod Hex
pub mod RingBuffer
pub mod HumanTs

-- ===== src/Net.antt =====
-- net/net_interface.hpp and net/net_interface.cpp: one TCP connection over libuv. Send holds the
-- members and the four send buffers, Cycle the life of the connection, Receive the loop that hands
-- received bytes to the consumer, Address the parsing of the pool's address and the choice of a record.
pub mod Address
pub mod Receive
pub mod Send
pub mod Cycle
pub mod Tls
mod Tests

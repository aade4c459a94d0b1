-- ===== src/Program.antt =====
-- The components put together: a pool with its network interface, and the executor with its pool.
pub mod Link
pub mod Session

-- ===== src/Bench.antt =====
-- src/bench/: the throughput benchmark.
pub mod Protocol
pub mod Pacer
pub mod Stats
pub mod Transfer
pub mod Server
pub mod Client
pub mod Session

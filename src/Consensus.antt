-- ===== src/Consensus.antt =====
-- consensus: the driver of vetomint over a message set.
pub mod Node
pub mod Driver
pub mod Runs
pub mod Failures
pub mod Opening
mod Scenarios

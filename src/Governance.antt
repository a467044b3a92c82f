-- ===== src/Governance.antt =====
-- governance: the votes of the members on the agendas of a height.
pub mod Votes
pub mod Casting
pub mod Counts
pub mod Tallies
pub mod Advance
pub mod Cast
mod Scenarios

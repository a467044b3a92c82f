-- ===== src/Vetomint.antt =====
-- vetomint, the consensus state machine of one height.
pub mod State
pub mod Rounds
pub mod Ballots
pub mod Progress
pub mod Refusals
pub mod Moves
pub mod Counting
pub mod Tallies
pub mod Audit
pub mod Casts
pub mod Runs
pub mod Finality
pub mod Growth
pub mod Quorums
pub mod Agreement
pub mod Steps
pub mod Phases
pub mod PanicCauses
pub mod Totality
pub mod Violations
pub mod Leaders
mod Scenarios
pub mod Transitions

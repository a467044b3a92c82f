-- ===== src/Repository.antt =====
-- repository: the chain of commits in a git repository.
pub mod Git
pub mod Queries
pub mod Updates
pub mod Lock
pub mod Ancestors
pub mod Branches
pub mod BranchMap
pub mod Interface
pub mod Pending
pub mod Agenda
pub mod Refused
pub mod Unread
mod Fixtures
mod AgendaScenarios
mod Scenarios
mod BranchScenarios

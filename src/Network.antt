-- ===== src/Network.antt =====
-- The crate `network`: the storage, the distributed message set, and the exchange between peers.
pub mod Storage
pub mod Directory
pub mod Message
pub mod Reading
pub mod MessageSet
pub mod Contents
pub mod Entries
pub mod Reads
pub mod Writes
pub mod Fetch
pub mod Heights
pub mod Peers
pub mod Sync
pub mod Serving
pub mod Memory
pub mod Fixtures
mod Scenarios
pub mod Unparsed

-- ===== src/Network/Directory.antt =====
-- network/src/storage.rs: the storage in the files of a directory.
pub mod FileSystem
pub mod Files
pub mod Sound
pub mod Listing
pub mod Clearing
pub mod Waiting
pub mod Failing
mod Scenarios

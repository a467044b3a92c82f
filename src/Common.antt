-- ===== src/Common.antt =====
-- The crate `common`: hashes, the Merkle tree, the types of the chain, their verification, and the
-- light client.
pub mod Bytes
pub mod Hash
pub mod Merkle
pub mod Types
pub mod Encoding
pub mod Signing
pub mod Reserved
pub mod Errors
pub mod Headers
pub mod Sequence
pub mod Voters
pub mod LightClient
pub mod Arms
pub mod Chains
pub mod Decimal
pub mod Agendas
pub mod Fixtures
mod Scenarios
mod BlockScenarios

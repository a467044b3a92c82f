-- ===== src/Lib.antt =====
-- Simperby: the consensus of a block height, the messages and votes, and the verification of the chain.
--
-- Simperby is a blockchain engine in a git repository. A node runs the consensus protocol of one
-- block height at a time (the crate `vetomint`, driven by the crate `consensus`), exchanges signed
-- messages (`network`), keeps the chain as git commits (`repository`) and checks headers, commits and
-- proofs with the types and hashes of `common`. Modelled are the state machine of the consensus, the
-- Merkle tree, the verification of headers and commit sequences, the light client, the message
-- sets of the network with the directory that stores them, the votes of the governance, the driver of
-- the consensus, and the git repository with the agendas made on it.
--
-- Vetomint/ models vetomint/src/lib.rs and vetomint/src/progress.rs.
--   State          the types of lib.rs, `ConsensusState::new` and `decide_proposer`
--   Rounds         `start_round` and the `on_*` functions at the end of progress.rs
--   Ballots        the arms of `progress` for prevotes and precommits, and the tallies they update
--   Progress       `progress` itself: block candidates, proposals, the dispatch and the timeouts
--   Runs           several events one after the other
--   The other files hold proofs, each named for what it is about, and Scenarios runs of four
--   validators.
-- Common/ models the crate in common/src.
--   Hash, Bytes    `Hash256` of crypto.rs, and its bytes
--   Merkle         merkle_tree.rs; its children hold the proofs: Levels, Proofs,
--                  Binding and Nodes
--   Types          types.rs, the keys and signatures of crypto.rs and `ReservedState` of reserved.rs
--   Encoding       hash.rs, and `Signature::verify` and `TypedSignature::verify` of crypto.rs
--   Errors         `Phase` and `Error` of verify.rs
--   Headers        `verify_header_to_header` and `verify_finalization_proof` of verify.rs, with the
--                  proofs in Voters
--   Sequence       `CommitSequenceVerifier` of verify.rs, with the proofs in Arms and Chains
--   Signing        the keys and the making of signatures of crypto.rs
--   Reserved       `create_validator_set` of reserved.rs
--   LightClient    `LightClient` of light_client.rs, and its proofs
--   Decimal, Agendas   proofs on the hash and the refusal of agendas
--   Scenarios, BlockScenarios and Fixtures hold concrete trees and headers.
-- Network/ models network/src/dms.rs, the set of messages of one height in the files of a directory.
--   Storage        the trait `Storage` of primitives.rs, and what it promises of a sound disk
--   Message        the messages, the state and the names of the files
--   Reading        `read_messages`, `read_state` and `get_message`
--   MessageSet     `fetch`, `create`, `add_message`, `advance`, and the gossip task of `serve`
--   Serving        the tasks of `serve`, by the events in which they take the lock, with the proofs
--   Directory      network/src/storage.rs: `StorageImpl` over the calls of the file system (FileSystem,
--                  Files), what a sound directory is and when a write is done (Sound), and
--                  the proofs (Listing, Clearing, Waiting, Failing)
--   Contents       what a well-formed set holds; Entries, Reads, Unparsed, Writes, Fetch, Heights, Peers
--                  and Sync hold the proofs, Memory and Fixtures a storage in memory, and Scenarios
--                  concrete sets
-- Governance/ models governance/src/lib.rs, the votes on agendas over a message set.
--   Votes          the votes and `read`;  Casting: `vote` and `advance`
--   Counts, Tallies, Advance and Cast hold the proofs, and Scenarios concrete votes.
-- Consensus/ models consensus/src/lib.rs, which drives vetomint with the messages of a message set.
--   Node           `State` (DriverState) and `Consensus` (Node), `create`, `new`,
--                  `register_verified_block_hash` and the filter
--   Driver         `progress`; only prevotes for a block and broadcasts of nil prevotes are implemented
--   Runs, Failures and Opening hold the proofs, and Scenarios concrete nodes.
-- Repository/ models repository/src.
--   Git            the calls of git2, a record of functions, and the types and errors of raw/mod.rs
--   Queries        what raw/implementation.rs reads of the repository;  Updates: what it changes
--   Lock           the mutex of raw/mod.rs and the helpers through which every call goes
--   Interface      `RawRepository` of raw/mod.rs, a record, and its implementation over the mutex
--   Pending        what `create_agenda` of lib.rs reads and checks, with format.rs;  Agenda: the rest
--   Branches, BranchMap, Ancestors, Refused and Unread hold the specifications and the proofs; Fixtures
--                  and the files of Scenarios concrete repositories.
-- A client of the storage is a state-passing action over any state of the disk (Results/Actions): it
-- panics, or gives `Ok` or an error with the new state. Results is code that reads only.
-- The crates blake3, ed25519_dalek and serde_json are parameters, the functions of the record `Crates`
-- of Encoding; the Merkle tree takes blake3 alone. The keys of Signing are `Keys`, with the law of
-- ed25519 that a signature verifies under the key's public key. The JSON of the messages and the
-- hexadecimal digits of a hash are the record `Codec`, that of the votes `VoteCodec` and that of the
-- driver `DriverCodec`, with the law that what was printed parses back. The properties that write or
-- read files assume a disk that does not fail (`IsReliable`), and some of them no two messages with one
-- file name (`NoClash`). A directory is sound (`IsSound` of Directory) when it lists
-- each name once, and its files can be created, read and removed. That a write succeeds is apart
-- (`Writes`): tokio writes in the background, and the storage does not flush, so the content is in
-- the file only after the pending writes have ended. A disk that does not fail (`IsReliable`) is
-- therefore the storage whose calls come after that (`waiting_disk`). What libgit2 documents of branches is `BranchLaws`. Each theorem names what it assumes.
-- BtreeMap models what the code uses of `BTreeMap`: an association list in the order of its keys.
-- Prelude has the shared names, the lemmas on lists, `u64` and `i64` with the wrap-around of a
-- release build (Words), and the type Outcome of code that returns or panics (Panics).
--
-- State is passed explicitly: `progress` takes the state and the event, and gives a panic, or the
-- answer (`None` or a list of responses) with the next state. A `&mut` function of the source gives
-- its result and the new state. An index out of range, a missing key of a map and a remainder by zero
-- are `panics`. Powers and milliseconds are words and wrap around; rounds and indices are `usize`
-- values that only count up by one from the input, and are taken unbounded. The texts of violation
-- reports are kept as they are in the source.
--
-- The `while` of `merkle_tree` runs on fuel, the length of the list of leaves: a level of two or more
-- has a shorter one above it. On the empty list the source does not end, and the model's fuel runs
-- out; `root` and `create_merkle_proof` test for it first.
--
-- A result `Ok(())` or `Err` is `none` or the error; its text is kept without the values formatted in.
-- What the source does not implement (`todo!()`, `unimplemented!()`) panics.
--
-- The tasks of `fetch` run concurrently, but each holds the lock of the storage while it stores the
-- messages of its peer: the model takes the peers in the order of their answers, and the theorems hold
-- for every order. The messages that a peer is asked for are decided before any of them.
--
-- Not modelled: the timers of `serve` and the transport of its RPC server, the unlocking of a storage that is dropped, the
-- discovery of peers and the operations of lib.rs of the repository whose bodies are `unimplemented!()`,
-- the node and the command line, `generate_keypair` (a call of the generator of ed25519_dalek), and the
-- functions that only pass on their arguments.
pub mod BtreeMap
pub mod Common
pub mod Consensus
pub mod Governance
pub mod Network
pub mod Prelude
pub mod Repository
pub mod Results
pub mod Vetomint

-- ===== src/Consensus/Scenarios.antt =====
-- A concrete node for the theorems on consensus/src/lib.rs.
use pdao_simperby.Prelude.{
  sum64, add_i64, ℕ, ◌≡◌, refl, false, none, some, List, [], ◌∷◌, Outcome, returns, panics, pos,
}
use pdao_simperby.Results.{Result, ok}
use pdao_simperby.Common.Bytes.{Bytes, bytes_eq}
use pdao_simperby.Common.Encoding.{verify_typed}
use pdao_simperby.Common.Hash.{Hash256, hash_bytes}
use pdao_simperby.Common.Types.{PublicKey, VotingPower}
use pdao_simperby.Common.Signing.{Keys}
use pdao_simperby.Network.Memory.{
  Files, memory, memory_disk, plain, look_up, file_names, overwrite, decode,
}
use pdao_simperby.Network.Fixtures.{open_crates, greeting, greeting_set}
use pdao_simperby.Network.Message.{Message, new_message, into_message, Error}
use pdao_simperby.Network.Reading.{read_messages, but_state, has_hash, read_entry, parse_entry}
use pdao_simperby.Results.{traverse}
use pdao_simperby.Vetomint.Progress
use pdao_simperby.Vetomint.Progress.{
  take_event, await_candidate, dispatch, finish, handle_timeout, handle_block_proposal,
}
use pdao_simperby.Vetomint.State
use pdao_simperby.Vetomint.Ballots.{
  handle_non_nil_prevote, after_non_nil_prevote, open_prevotes, open_round, cast_prevote,
  count_prevote, record_vote,
}
use pdao_simperby.Vetomint.Rounds.{on_4f_non_nil_prevote_in_prevote_step}
use pdao_simperby.BtreeMap.{get, insert}
use pdao_simperby.Vetomint.State.{ConsensusState, ConsensusParams, HeightInfo, decide_proposer}
use pdao_simperby.Consensus.Node.{
  Node, DriverState, DriverCodec, non_nil_pre_voted, check_key, state_file_name,
}
use pdao_simperby.Consensus.Driver.{
  ProgressResult, event_of, signer_position, hash_position, new_messages, respond_all, update,
  update_all, save, progress,
}
use pdao_simperby.Consensus.Runs.{IsRun, progress-IsRun}
use pdao_simperby.Consensus.Failures.{second_vote_panics}
use pdao_simperby.Consensus.Opening.{Opens, first_state, new-Opens}

abbrev params : ConsensusParams
params = record { timeout_ms = 1000; repeat_round_for_first_leader = 1 }

abbrev validators : List (PublicKey × VotingPower)
validators = (record { key = 9 ∷ [] }, 1) ∷ (record { key = 2 ∷ [] }, 1) ∷ []

abbrev voted_hash : Hash256
voted_hash = record { hash = 8 ∷ [] }

abbrev opened : DriverState
opened = first_state validators none (pos 0) params

-- Every text is a prevote for one block, and every file has the state of a new node.
abbrev toy_driver : DriverCodec
toy_driver = record {
  message_json = λ m. [];
  parse_message = λ text. some (non_nil_pre_voted 0 voted_hash);
  state_json = λ st. 1 ∷ [];
  parse_state = λ text. some opened;
}

abbrev no_keys : Keys
no_keys = record {
  is_secret_key = λ bytes. false;
  public_of = λ key. key;
  sign_with = λ key message. [];
}

abbrev silent : Bytes → Result (Error ℕ) (Unit {0})
silent json = ok tt

-- The greeting is in the set of the node, from the second validator.
abbrev node_of : ConsensusState → Node Files
node_of c = record {
  dms = greeting_set;
  storage = [];
  state = record opened { consensus_state = c; verified_block_hashes = voted_hash ∷ [] };
  verified_block_hashes = [];
  this_node_key = none;
  filter_validators = [];
}

abbrev node : Node Files
node = node_of opened.consensus_state

abbrev node_after : Outcome (Result (Error ℕ) (List ProgressResult) × Node Files) → Node Files
node_after (returns (r, n)) = n
node_after panics = node

abbrev progressed : Node Files
progressed = node_after (progress memory open_crates plain toy_driver no_keys silent (pos 1) node)

-- The second validator voted for another block.
abbrev voted_node : Node Files
voted_node =
    node_of (record opened.consensus_state { prevote_history = (0, (1, some 5) ∷ []) ∷ [] })

greeting_listed : read_messages memory open_crates plain greeting_set ≡ returns (ok (greeting ∷ []))
unfolding read_messages read_entry parse_entry but_state memory look_up file_names traverse plain
    decode into_message new_message verify_typed hash_bytes bytes_eq
greeting_listed = refl

new-Opens_example :
    Opens memory open_crates plain memory_disk toy_driver no_keys opened greeting_set
      ((state_file_name, 1 ∷ []) ∷ [])
      none
unfolding check_key memory_disk look_up bytes_eq
new-Opens_example =
    new-Opens memory open_crates plain memory_disk toy_driver no_keys opened greeting_set
      ((state_file_name, 1 ∷ []) ∷ []) none refl refl refl

second_vote_panics_example :
    progress memory open_crates plain toy_driver no_keys silent (pos 1) voted_node ≡ panics
unfolding new_messages has_hash event_of signer_position hash_position State.new bytes_eq get
    open_round
second_vote_panics_example =
    second_vote_panics memory open_crates plain toy_driver no_keys silent (pos 1) greeting
      (greeting ∷ []) [] voted_node (State.non_nil_prevote 0 1 0 (pos 1)) 1 (some 5) greeting_listed
      refl refl refl refl refl refl refl (λ e. cc)

-- The functions that the node's progress computes with.
machine : Unit {0}
unfolding progress update_all update respond_all save new_messages has_hash event_of signer_position
    hash_position read_messages read_entry parse_entry but_state memory look_up file_names overwrite
    traverse plain decode into_message new_message verify_typed hash_bytes bytes_eq State.new
    Progress.progress take_event dispatch finish handle_timeout handle_non_nil_prevote
    after_non_nil_prevote open_prevotes open_round cast_prevote count_prevote record_vote
    on_4f_non_nil_prevote_in_prevote_step get insert sum64 add_i64
machine = tt

progress_ends :
    progress memory open_crates plain toy_driver no_keys silent (pos 1) node
    ≡ returns (ok [], progressed)
unfolding machine
progress_ends = refl

progress-IsRun_example :
    (ms : List Message) × (read_messages memory open_crates plain node.dms ≡ returns (ok ms))
    × IsRun memory open_crates plain toy_driver no_keys silent
        (pos 1)
        (new_messages open_crates plain node.state.updated_messages ms)
        node.state
        progressed.state
    × (progressed.state.updated_messages ≡ node.state.updated_messages)
progress-IsRun_example =
    progress-IsRun memory open_crates plain toy_driver no_keys silent (pos 1) node progressed []
      progress_ends

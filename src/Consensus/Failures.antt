-- ===== src/Consensus/Failures.antt =====
-- Where `progress` of consensus/src/lib.rs panics: a violation of the protocol stops the node.
use pdao_simperby.Prelude.{
  ◌≡◌, ◌≢◌, refl, false, Option, some, none, List, [], ◌∷◌, returns, panics, String,
}
use pdao_simperby.Results.{Result, ok}
use pdao_simperby.Common.Bytes.{Bytes}
use pdao_simperby.Common.Encoding.{Crates}
use pdao_simperby.Common.Signing.{Keys, PrivateKey}
use pdao_simperby.Network.Storage.{Storage}
use pdao_simperby.Network.Message.{Message, Codec, Error}
use pdao_simperby.Network.Reading.{read_messages}
use pdao_simperby.Vetomint.State.{
  ConsensusState, ConsensusEvent, Timestamp, BlockIdentifier, ValidatorIndex, violation_report,
}
use pdao_simperby.Vetomint.Progress
use pdao_simperby.Vetomint.Refusals.{vote_round}
use pdao_simperby.Vetomint.PanicCauses.{vote_signer}
use pdao_simperby.Vetomint.Violations.{recorded, vote_of, is_nil_prevote, second_vote_reported}
use pdao_simperby.Consensus.Node.{Node, DriverCodec}
use pdao_simperby.Consensus.Driver.{
  event_of, respond, respond_all, update, update_all, new_messages, progress,
}

module _ {E S : Type 0} (storage : Storage E S) (crates : Crates) (codec : Codec)
    (driver : DriverCodec) (keys : Keys) (broadcast : Bytes → Result (Error E) (Unit {0})) where
  report_unanswered :
      (time : Timestamp) (key : Option PrivateKey) (i : ValidatorIndex) (text : String) (s : S)
      → respond storage crates codec driver keys broadcast time key (violation_report i text) s
        ≡ panics
  unfolding respond
  report_unanswered time none i text s = refl
  report_unanswered time (some key) i text s = refl

  report_panics :
      (time : Timestamp) (m : Message) (n : Node S) (e : ConsensusEvent) (i : ValidatorIndex)
      (text : String) (c : ConsensusState)
      → event_of driver n.state time m ≡ returns e
      → Progress.progress n.state.consensus_state e
        ≡ returns (some (violation_report i text ∷ []), c)
      → update storage crates codec driver keys broadcast time m n ≡ panics
  unfolding update respond_all respond
  report_panics time m n e i text c p q =
      rw (p, q, report_unanswered time n.this_node_key i text n.dms) refl

  first_panics :
      (time : Timestamp) (m : Message) (ms rest : List Message) (n : Node S)
      → read_messages storage crates codec n.dms ≡ returns (ok ms)
      → new_messages crates codec n.state.updated_messages ms ≡ m ∷ rest
      → update storage crates codec driver keys broadcast time m n ≡ panics
      → progress storage crates codec driver keys broadcast time n ≡ panics
  unfolding progress update_all
  first_panics time m ms rest n p q r = rw (p, q, r) refl

  -- If the first message of the set that is not marked as updated is a prevote for a block in the
  -- current round, and its signer has another prevote in the history, then `progress` panics, unless
  -- the state machine waits for a block candidate.
  pub second_vote_panics :
      (time : Timestamp) (m : Message) (ms rest : List Message) (n : Node S) (e : ConsensusEvent)
      (i : ValidatorIndex) (past : Option BlockIdentifier)
      → read_messages storage crates codec n.dms ≡ returns (ok ms)
      → new_messages crates codec n.state.updated_messages ms ≡ m ∷ rest
      → event_of driver n.state time m ≡ returns e
      → n.state.consensus_state.waiting_for_proposal_creation ≡ false
      → is_nil_prevote e ≡ false
      → vote_round e ≡ some n.state.consensus_state.round
      → vote_signer e ≡ some i
      → recorded n.state.consensus_state e ≡ some past
      → past ≢ vote_of e
      → progress storage crates codec driver keys broadcast time n ≡ panics
  second_vote_panics time m ms rest n e i past p q r w k v g h d =
      let (text, c, a, b) = second_vote_reported n.state.consensus_state e i past w k v g h d in
      first_panics time m ms rest n p q (report_panics time m n e i text c r a)

-- ===== src/Governance/Votes.antt =====
-- governance/src/lib.rs: the votes on the agendas of a height, and their count.
use pdao_simperby.Prelude.{
  Option, none, some, List, [], ◌∷◌, Outcome, returns, panics, if◌then◌else◌,
}
use pdao_simperby.Results.{Call, pure, completes, ◌>>=◌}
use pdao_simperby.Common.Bytes.{Bytes}
use pdao_simperby.Common.Hash.{Hash256, hash_eq}
use pdao_simperby.Common.Types.{PublicKey, Signature, BlockHeight}
use pdao_simperby.Common.Headers.{has_key}
use pdao_simperby.Common.Encoding.{Crates}
use pdao_simperby.Network.Storage.{Storage}
use pdao_simperby.Network.Message.{Message, Codec, Error}
use pdao_simperby.Network.Reading.{read_messages, read_height}

-- `HashMap<Hash256, HashSet<PublicKey>>`, in the order in which the agendas come.
abbrev pub Votes : Type 0
Votes = List (Hash256 × List PublicKey)

pub record GovernanceStatus : Type 0 where
  pub votes : Votes
  pub height : BlockHeight

pub record Vote : Type 0 where
  pub agenda_hash : Hash256
  pub voter : PublicKey
  pub signature : Signature

-- `serde_json` on the votes.
pub record VoteCodec : Type 0 where
  pub vote_json : Vote → Bytes
  pub parse_vote : Bytes → Option Vote

-- `insert` of a set of keys.
unfoldable pub insert_key : PublicKey → List PublicKey → List PublicKey
unfolding has_key
insert_key k ks = if has_key k ks then ks else k ∷ ks

-- `entry(agenda_hash).or_insert_with(HashSet::new).insert(voter)`.
unfoldable pub insert_vote : Hash256 → PublicKey → Votes → Votes
unfolding insert_key
insert_vote a v [] = (a, insert_key v []) ∷ []
insert_vote a v ((b, vs) ∷ rest) =
    let others = insert_vote a v rest in
    if hash_eq b a then (b, insert_key v vs) ∷ rest else (b, vs) ∷ others

-- The voters of an agenda.
unfoldable pub voters_of : Hash256 → Votes → List PublicKey
voters_of a [] = []
voters_of a ((b, vs) ∷ rest) = let others = voters_of a rest in if hash_eq b a then vs else others

module _ (votes : VoteCodec) where
  -- The `fold` of `read` from the votes so far; a message that is no vote panics.
  unfoldable pub collect_votes : Votes → List Message → Outcome Votes
  unfolding insert_vote
  collect_votes so_far [] = returns so_far
  collect_votes so_far (m ∷ ms) = elim (votes.parse_vote m.text) [
    | none ↦ panics
    | some v ↦ collect_votes (insert_vote v.agenda_hash v.voter so_far) ms
  ]

module _ {E S : Type 0} (storage : Storage E S) (crates : Crates) (codec : Codec)
    (votes : VoteCodec) where
  unfoldable pub read : S → Call (Error E) GovernanceStatus
  unfolding collect_votes
  read s = do
    messages ← read_messages storage crates codec s
    collected ← completes (collect_votes votes [] messages)
    height ← read_height storage crates codec s
    pure (record { votes = collected; height = height })

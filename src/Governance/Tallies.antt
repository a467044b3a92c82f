-- ===== src/Governance/Tallies.antt =====
-- What governance/src/lib.rs reads from the votes that the set holds.
use pdao_simperby.Prelude.{◌≡◌, ◌↔◌, inl, inr, refl, true, some, none, [], returns, panics}
use pdao_simperby.Results.{ok}
use pdao_simperby.Common.Encoding.{Crates}
use pdao_simperby.Common.Hash.{Hash256}
use pdao_simperby.Common.Types.{PublicKey}
use pdao_simperby.Network.Storage.{Storage, IsReliable}
use pdao_simperby.Network.Message.{Message, Codec}
use pdao_simperby.Network.Contents.{IsFaithful, IsVerified, Holds, IsWellFormed}
use pdao_simperby.Network.Reading.{read_height}
use pdao_simperby.Network.Reads.{read_messages_total}
use pdao_simperby.Network.Fetch.{read_state-eq}
use pdao_simperby.Governance.Votes.{Vote, VoteCodec, read, Votes}
use pdao_simperby.Governance.Counts.{
  voted, Claims, collect_votes-voted, collect_votes_total, collect_votes_panics, not_voted_nil,
}

module _ {E S : Type 0} (storage : Storage E S) (crates : Crates) (codec : Codec)
    (disk : IsReliable storage) (faithful : IsFaithful codec) (votes : VoteCodec) where
  -- The set holds the message, and its signature verifies.
  abbrev pub Has : S → Message → Type 0
  Has s m = IsVerified crates m × Holds storage crates codec disk faithful s m

  unfoldable pub IsVote : Message → Type 0
  IsVote m = (x : Vote) × (votes.parse_vote m.text ≡ some x)

  -- Just the votes that some message of the set claims are counted.
  abbrev pub Counts : S → Votes → Type 0
  Counts s collected =
      (a : Hash256) (v : PublicKey)
      → ((voted collected a v ≡ true) ↔ ((m : Message) × Has s m × Claims votes m a v))

  -- On a disk that does not fail, `read` of a well-formed storage whose messages are all votes gives
  -- the height of the storage, and counts a voter for an agenda just if some message of the set has a
  -- vote for the agenda that names the voter. Who signed the message, and the signature inside the
  -- vote, make no difference.
  pub read-Counts :
      (s : S) (w : IsWellFormed storage crates codec disk faithful s)
      → ((m : Message) → Has s m → IsVote m)
      → (collected : Votes) × (read storage crates codec votes s
          ≡ returns (ok (record { votes = collected; height = w.state.height })))
        × Counts s collected
  unfolding read read_height IsVote
  read-Counts s w all =
      let (ms, p, listed) = read_messages_total storage crates codec disk faithful s w in
      let (collected, q) = collect_votes_total votes [] ms (λ m k. all m ((listed m).0 k)) in
      let r = read_state-eq storage crates codec disk faithful s w.state w.state_file in
      (
        collected,
        rw (p, q, r) refl,
        λ a v. (
          (λ e. elim ((collect_votes-voted votes [] ms a v collected q).0 e) [
            | inl (m, k, c) ↦ (m, (listed m).0 k, c)
            | inr n ↦ absurd (not_voted_nil a v n)
          ]),
          (λ (m, h, c).
              (collect_votes-voted votes [] ms a v collected q).1 (inl (m, (listed m).1 h, c))),
        ),
      )

  -- On a disk that does not fail, one message of a well-formed storage that is verified and is no vote
  -- makes `read` panic.
  pub read_panics :
      (s : S) (m : Message)
      → IsWellFormed storage crates codec disk faithful s
      → Has s m
      → votes.parse_vote m.text ≡ none
      → read storage crates codec votes s ≡ panics
  unfolding read
  read_panics s m w h e =
      let (ms, p, listed) = read_messages_total storage crates codec disk faithful s w in
      rw (p, collect_votes_panics votes [] ms m ((listed m).1 h) e) refl

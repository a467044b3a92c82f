-- ===== src/Governance/Scenarios.antt =====
-- Concrete votes for the theorems on governance/src/lib.rs.
use pdao_simperby.Prelude.{
  ℕ, ◌≡◌, ◌≢◌, ◌⊎◌, inl, inr, refl, true, Option, none, some, [], ◌∷◌, returns, panics,
}
use pdao_simperby.Results.{ok}
use pdao_simperby.Common.Encoding.{verify_typed}
use pdao_simperby.Common.Hash.{Hash256, hash_bytes}
use pdao_simperby.Common.Types.{PublicKey, BlockHeight}
use pdao_simperby.Common.Signing.{Keys, PrivateKey, IsKeyPair}
use pdao_simperby.Network.Memory.{
  Files, memory, memory_disk, plain, plain_faithful, encode, decode, decode-encode,
}
use pdao_simperby.Network.Fixtures.{
  open_crates, empty_set, IsSound, empty_set-IsSound, no_clash, empty_state, only_state,
}
use pdao_simperby.Network.Message.{Message, RawMessage, new_message, from_message, file_name}
use pdao_simperby.Network.Contents.{IsVerified, file_name-ne-state}
use pdao_simperby.Network.Writes.{
  same, stores, with_message, Accepts-IsWellFormed, Accepts-filtered, Holds-with_message,
}
use pdao_simperby.Governance.Votes.{Vote, VoteCodec, Votes, read}
use pdao_simperby.Governance.Casting.{vote}
use pdao_simperby.Governance.Counts.{voted, Claims}
use pdao_simperby.Governance.Tallies.{Has, IsVote, Counts, read-Counts, read_panics}
use pdao_simperby.Governance.Advance.{IsRefused, IsAdvanced, advance_cases}
use pdao_simperby.Governance.Cast.{
  IsFaithfulVote, vote_filter, vote_filter-some, vote_filter-none, vote_counted,
}

-- A vote is written as a message with its agenda for the text.
abbrev as_message : Vote → Message
as_message x = record {
  text = x.agenda_hash.hash;
  signature = record { signature = x.signature; signer = x.voter };
}

abbrev as_vote : Option RawMessage → Option Vote
as_vote none = none
as_vote (some raw) = some (record {
  agenda_hash = record { hash = raw.text };
  voter = raw.signature.signer;
  signature = raw.signature.signature;
})

unfoldable plain_votes : VoteCodec
plain_votes = record {
  vote_json = λ x. encode (as_message x);
  parse_vote = λ b. as_vote (decode b);
}

plain_votes-IsFaithful : IsFaithfulVote plain_votes
unfolding plain_votes from_message
plain_votes-IsFaithful = record { parse_vote-json = λ x. rw (decode-encode (as_message x)) refl }

abbrev all_keys : Keys
all_keys = record {
  is_secret_key = λ bytes. true;
  public_of = λ key. key;
  sign_with = λ key message. message;
}

all_pairs : IsKeyPair open_crates all_keys
all_pairs = record {
  public_of-IsKey = λ k h. refl;
  sign_with-IsSignature = λ k m h. refl;
  sign_with-verifies = λ k m h. refl;
}

abbrev carol : PrivateKey
carol = record { key = 3 ∷ [] }

abbrev agenda : Hash256
agenda = record { hash = 6 ∷ 6 ∷ [] }

-- A vote in the name of the key 4, in a message that the key 3 signed.
abbrev borrowed : Message
borrowed = record {
  text = 2 ∷ 0 ∷ 6 ∷ 6 ∷ 4 ∷ [];
  signature = record { signature = record { signature = [] }; signer = record { key = 3 ∷ [] } };
}

abbrev blank : Message
blank = record {
  text = [];
  signature = record { signature = record { signature = [] }; signer = record { key = 3 ∷ [] } };
}

abbrev one_message : Message → Files
one_message m = with_message memory open_crates plain memory_disk plain_faithful m empty_set

abbrev HasMessage : Files → Message → Type 0
HasMessage s m = Has memory open_crates plain memory_disk plain_faithful plain_votes s m

abbrev IsVoteHere : Message → Type 0
IsVoteHere m = IsVote memory open_crates plain memory_disk plain_faithful plain_votes m

nothing_held : (m : Message) → HasMessage empty_set m → ⊥
unfolding memory_disk
nothing_held m (v, h) =
    file_name-ne-state open_crates plain plain_faithful m
      (only_state (file_name open_crates plain m) (plain.message_json m) h)

every-IsVerified : (m : Message) → IsVerified open_crates m
unfolding new_message verify_typed hash_bytes
every-IsVerified m = refl

borrowed_vote : (x : Vote) × (plain_votes.parse_vote borrowed.text ≡ some x)
unfolding plain_votes decode
borrowed_vote = (
  record {
    agenda_hash = agenda;
    voter = record { key = 4 ∷ [] };
    signature = record { signature = [] };
  },
  refl,
)

one_message-IsSound : (m : Message) → IsSound (one_message m)
one_message-IsSound m =
    Accepts-IsWellFormed memory open_crates plain memory_disk plain_faithful {filter = λ n. none}
      (stores m same (every-IsVerified m) refl refl) empty_set-IsSound

borrowed_votes : (m : Message) → HasMessage (one_message borrowed) m → IsVoteHere m
borrowed_votes m (v, h) =
    let passes =
      vote_filter-some memory open_crates plain memory_disk plain_faithful plain_votes all_keys
        all_pairs borrowed borrowed_vote.0 borrowed_vote.1 in
    elim (Accepts-filtered memory open_crates plain memory_disk plain_faithful
      {filter = vote_filter plain_votes} m no_clash
      (stores borrowed same (every-IsVerified borrowed) passes refl) h) [
        | inl g ↦ absurd (nothing_held m (v, g))
        | inr f ↦
            vote_filter-none memory open_crates plain memory_disk plain_faithful plain_votes
              all_keys all_pairs m f
      ]

read-Counts_example :
    (collected : Votes) × (read memory open_crates plain plain_votes (one_message borrowed)
      ≡ returns
          (ok (record { votes = collected; height = (one_message-IsSound borrowed).state.height })))
    × Counts memory open_crates plain memory_disk plain_faithful plain_votes
        (one_message borrowed)
        collected
read-Counts_example =
    read-Counts memory open_crates plain memory_disk plain_faithful plain_votes
      (one_message borrowed) (one_message-IsSound borrowed) borrowed_votes

blank_is_none : plain_votes.parse_vote blank.text ≡ none
unfolding plain_votes decode
blank_is_none = refl

read_panics_example : read memory open_crates plain plain_votes (one_message blank) ≡ panics
read_panics_example =
    read_panics memory open_crates plain memory_disk plain_faithful plain_votes (one_message blank)
      blank (one_message-IsSound blank)
      (
        every-IsVerified blank,
        Holds-with_message memory open_crates plain memory_disk plain_faithful blank empty_set,
      )
      blank_is_none

vote_counted_example :
    (t : Files) × (collected : Votes) × (height : BlockHeight) × (vote memory open_crates plain
        plain_votes all_keys
        (λ json. ok tt)
        agenda
        carol
        carol
        empty_set
      ≡ returns (ok tt, t))
    × (read memory open_crates plain plain_votes t
        ≡ returns (ok (record { votes = collected; height = height })))
    × (voted collected agenda (record { key = 3 ∷ [] }) ≡ true)
    × ((a : Hash256) (v : PublicKey) (m : Message)
        → HasMessage empty_set m
        → Claims plain_votes m a v
        → voted collected a v ≡ true)
vote_counted_example =
    vote_counted memory open_crates plain memory_disk plain_faithful plain_votes all_keys all_pairs
      plain_votes-IsFaithful (λ json. ok tt) agenda carol carol empty_set no_clash empty_set-IsSound
      (λ m h. absurd (nothing_held m h)) refl refl

abbrev five : ℕ
five = 5

advance_cases_example :
    (five ≢ five) × IsRefused memory open_crates plain memory_disk plain_faithful 5 empty_set
    ⊎ (five ≡ five)
      × IsAdvanced memory open_crates plain memory_disk plain_faithful 5
          (record { height = 5; key = 7 ∷ [] })
          empty_set
advance_cases_example =
    advance_cases memory open_crates plain memory_disk plain_faithful empty_set
      (record { height = 5; key = 7 ∷ [] }) 5 empty_set-IsSound empty_state

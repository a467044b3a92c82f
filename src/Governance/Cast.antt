-- ===== src/Governance/Cast.antt =====
-- `vote` of governance/src/lib.rs: a vote that is cast is counted, and those before it still are.
use pdao_simperby.Prelude.{◌≡◌, inl, inr, refl, arith, true, some, none, returns, Option-cases}
use pdao_simperby.Results.{Result, ok}
use pdao_simperby.Common.Bytes.{Bytes}
use pdao_simperby.Common.Encoding.{Crates}
use pdao_simperby.Common.Hash.{Hash256, hash_bytes}
use pdao_simperby.Common.Types.{PublicKey, TypedSignature, BlockHeight}
use pdao_simperby.Common.Signing.{
  Keys, PrivateKey, IsKeyPair, sign, sign_typed, public_key, sign_typed-verify_typed,
}
use pdao_simperby.Network.Storage.{Storage, IsReliable}
use pdao_simperby.Network.Message.{Message, Codec, new_message, Error}
use pdao_simperby.Network.Contents.{IsFaithful, IsVerified, IsWellFormed}
use pdao_simperby.Network.MessageSet.{add_message, Filter}
use pdao_simperby.Network.Writes.{
  Accepts, same, stores, with_message, NoClash, Holds-with_message, Accepts-IsWellFormed,
  Accepts-Holds, Accepts-filtered,
}
use pdao_simperby.Network.Fetch.{add_message_but_not_broadcast-eq}
use pdao_simperby.Governance.Votes.{Vote, VoteCodec, Votes, read}
use pdao_simperby.Governance.Casting.{vote}
use pdao_simperby.Governance.Counts.{voted, Claims}
use pdao_simperby.Governance.Tallies.{Has, IsVote, read-Counts}

-- A vote that was printed is parsed again.
pub record IsFaithfulVote (votes : VoteCodec) : Type 0 where
  pub parse_vote-json : (x : Vote) → votes.parse_vote (votes.vote_json x) ≡ some x

module _ (votes : VoteCodec) where
  -- What passes is a vote.
  pub vote_filter : Filter
  vote_filter m = elim (votes.parse_vote m.text) [ none ↦ some "no vote" | some x ↦ none ]

module _ (crates : Crates) (keys : Keys) (votes : VoteCodec) where
  -- The vote of a key for an agenda.
  unfoldable pub vote_of : Hash256 → PrivateKey → Vote
  vote_of agenda key = record {
    agenda_hash = agenda;
    voter = record { key = keys.public_of key.key };
    signature = record { signature = keys.sign_with key.key agenda.hash };
  }

  unfoldable pub signed_by : Bytes → PrivateKey → TypedSignature
  signed_by text key = record {
    signature = record { signature = keys.sign_with key.key (hash_bytes crates.blake3 text).hash };
    signer = record { key = keys.public_of key.key };
  }

  -- The message that `vote` makes.
  unfoldable pub vote_message : Hash256 → PrivateKey → PrivateKey → Message
  vote_message agenda key network_key =
      let text = votes.vote_json (vote_of agenda key) in
      record { text = text; signature = signed_by text network_key }

  sign_typed-eq :
      (text : Bytes) (key : PrivateKey)
      → keys.is_secret_key key.key ≡ true
      → sign_typed keys (hash_bytes crates.blake3) text key ≡ returns (ok (signed_by text key))
  unfolding sign_typed sign public_key signed_by
  sign_typed-eq text key h = ground (arith, h)

  new_message-signed_by :
      (pair : IsKeyPair crates keys) (text : Bytes) (key : PrivateKey)
      → keys.is_secret_key key.key ≡ true
      → new_message crates text (signed_by text key)
        ≡ ok (record { text = text; signature = signed_by text key })
  unfolding new_message
  new_message-signed_by pair text key h =
      let accepted =
        (sign_typed-verify_typed crates keys pair (hash_bytes crates.blake3) text key
          (signed_by text key) (sign_typed-eq text key h)).0 in
      rw (new_message, accepted) refl

module _ {E S : Type 0} (storage : Storage E S) (crates : Crates) (codec : Codec)
    (disk : IsReliable storage) (faithful : IsFaithful codec) (votes : VoteCodec) (keys : Keys)
    (pair : IsKeyPair crates keys) where
  vote-eq :
      (broadcast : Bytes → Result (Error E) (Unit {0})) (agenda : Hash256)
      (key network_key : PrivateKey) (s : S)
      → keys.is_secret_key key.key ≡ true
      → keys.is_secret_key network_key.key ≡ true
      → vote storage crates codec votes keys broadcast agenda key network_key s
        ≡ returns (
          broadcast (codec.message_json (vote_message crates keys votes agenda key network_key)),
          with_message storage crates codec disk faithful
              (vote_message crates keys votes agenda key network_key)
              s,
        )
  unfolding vote public_key sign vote_message vote_of add_message
  vote-eq broadcast agenda key network_key s h k =
      let text = votes.vote_json (vote_of crates keys votes agenda key) in
      rw
        (
          h,
          sign_typed-eq crates keys votes text network_key k,
          new_message-signed_by crates keys votes pair text network_key k,
          add_message_but_not_broadcast-eq storage crates codec disk faithful
              (vote_message crates keys votes agenda key network_key) s,
        )
        refl

  pub vote_filter-none :
      (m : Message) → vote_filter votes m ≡ none → IsVote storage crates codec disk faithful votes m
  unfolding vote_filter IsVote
  vote_filter-none m h = elim (Option-cases (votes.parse_vote m.text)) [
    | inl q ↦ absurd (ground (arith, h, q))
    | inr (x, q) ↦ (x, q)
  ]

  pub vote_filter-some :
      (m : Message) (x : Vote) → votes.parse_vote m.text ≡ some x → vote_filter votes m ≡ none
  unfolding vote_filter
  vote_filter-some m x e = rw (vote_filter, e) refl

  -- On a disk that does not fail, with valid keys, and in a well-formed storage whose messages are all
  -- votes, `vote` gives what the broadcast gives; the votes that are read after it have the voter for
  -- the agenda, and every voter that they had before. No two messages may have the same file name.
  pub vote_counted :
      (printed : IsFaithfulVote votes) (broadcast : Bytes → Result (Error E) (Unit {0}))
      (agenda : Hash256) (key network_key : PrivateKey) (s : S)
      → NoClash storage crates codec disk faithful
      → IsWellFormed storage crates codec disk faithful s
      → ((m : Message)
          → Has storage crates codec disk faithful votes s m
          → IsVote storage crates codec disk faithful votes m)
      → keys.is_secret_key key.key ≡ true
      → keys.is_secret_key network_key.key ≡ true
      → (t : S) × (collected : Votes) × (height : BlockHeight) × (vote storage crates codec votes
            keys broadcast agenda key network_key s
          ≡ returns (
            broadcast (codec.message_json (vote_message crates keys votes agenda key network_key)),
            t,
          ))
        × (read storage crates codec votes t
            ≡ returns (ok (record { votes = collected; height = height })))
        × (voted collected agenda (record { key = keys.public_of key.key }) ≡ true)
        × ((a : Hash256) (v : PublicKey) (m : Message)
            → Has storage crates codec disk faithful votes s m
            → Claims votes m a v
            → voted collected a v ≡ true)
  unfolding vote_message vote_of Claims
  vote_counted printed broadcast agenda key network_key s clash w all h k =
      let m = vote_message crates keys votes agenda key network_key in
      let t = with_message storage crates codec disk faithful m s in
      let parsed : votes.parse_vote m.text ≡ some (vote_of crates keys votes agenda key) =
        printed.parse_vote-json (vote_of crates keys votes agenda key) in
      let verified : IsVerified crates m =
        new_message-signed_by crates keys votes pair m.text network_key k in
      let passes = vote_filter-some m (vote_of crates keys votes agenda key) parsed in
      let added : Accepts storage crates codec disk faithful (vote_filter votes) s t =
        stores m same verified passes refl in
      let w' = Accepts-IsWellFormed storage crates codec disk faithful added w in
      let (collected, p, counts) =
        read-Counts storage crates codec disk faithful votes t w' (λ n (v, g).
          elim (Accepts-filtered storage crates codec disk faithful n clash added g) [
            | inl g' ↦ all n (v, g')
            | inr f ↦ vote_filter-none n f
          ]) in
      (
        t,
        collected,
        w'.state.height,
        vote-eq broadcast agenda key network_key s h k,
        p,
        (counts agenda (record { key = keys.public_of key.key })).1 (
          m,
          (verified, Holds-with_message storage crates codec disk faithful m s),
          (vote_of crates keys votes agenda key, parsed, refl, refl),
        ),
        λ a v n (u, g) c.
            (counts a v).1
              (n, (u, Accepts-Holds storage crates codec disk faithful n clash added g), c),
      )

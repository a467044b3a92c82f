-- ===== src/Governance/Counts.antt =====
-- The count of the votes in governance/src/lib.rs, against the messages that claim them.
use pdao_simperby.Prelude.{
  ◌≡◌, ◌⊎◌, ◌↔◌, inl, inr, refl, arith, sym, ◌∙◌, ap, Bool, true, false, Bool-cases, none, some,
  Option-cases, List, [], ◌∷◌, returns, panics, Elem, here, there, not-Elem-nil, ◌||◌, ◌&&◌,
}
use pdao_simperby.Common.Hash.{Hash256, hash_eq, eq_of_hash_eq, hash_eq_refl}
use pdao_simperby.Common.Bytes.{eq_of_bytes_eq, bytes_eq_refl}
use pdao_simperby.Common.Types.{PublicKey, key_eq}
use pdao_simperby.Common.Headers.{has_key}
use pdao_simperby.Network.Message.{Message}
use pdao_simperby.Governance.Votes.{
  Votes, Vote, VoteCodec, insert_key, insert_vote, voters_of, collect_votes,
}

-- The voter is among those of the agenda.
abbrev pub voted : Votes → Hash256 → PublicKey → Bool
voted votes a v = has_key v (voters_of a votes)

eq_of_key_eq : (k l : PublicKey) → key_eq k l ≡ true → k ≡ l
eq_of_key_eq k l h = ground (arith, eq_of_bytes_eq k.key l.key)

key_eq_refl : (k : PublicKey) → key_eq k k ≡ true
key_eq_refl k = bytes_eq_refl k.key

has_key-insert_key :
    (k l : PublicKey) (ks : List PublicKey)
    → has_key l (insert_key k ks) ≡ (key_eq k l || has_key l ks)
unfolding insert_key has_key
has_key-insert_key k l ks = elim (Bool-cases (has_key k ks)) [
  | inl e ↦ elim (Bool-cases (key_eq k l)) [
    | inl q ↦ ground (arith, e, q, eq_of_key_eq k l q, ap (λ x. has_key x ks) (eq_of_key_eq k l q))
    | inr q ↦ ground (arith, e, q)
  ]
  | inr e ↦ ground (arith, e)
]

other_agenda : (a b c : Hash256) → hash_eq c a ≡ false → hash_eq c b ≡ true → hash_eq a b ≡ false
other_agenda a b c e q = elim (Bool-cases (hash_eq a b)) [
  | inl p ↦ absurd (
      ground (
        arith,
        e,
        ap (λ x. hash_eq x a) (eq_of_hash_eq c b q ∙ sym (eq_of_hash_eq a b p)),
        hash_eq_refl a,
      ))
  | inr p ↦ p
]

-- An inserted vote is there, and the others are as they were.
pub voted-insert_vote :
    (a b : Hash256) (v w : PublicKey) (votes : Votes)
    → voted (insert_vote a v votes) b w ≡ (hash_eq a b && key_eq v w || voted votes b w)
unfolding insert_vote voters_of has_key
voted-insert_vote a b v w [] = ground arith
voted-insert_vote a b v w ((c, vs) ∷ rest) = elim (Bool-cases (hash_eq c a)) [
  | inl e ↦
      ground (arith, e, ap (λ x. hash_eq x b) (eq_of_hash_eq c a e), has_key-insert_key v w vs)
  | inr e ↦ elim (Bool-cases (hash_eq c b)) [
    | inl q ↦ ground (arith, e, q, other_agenda a b c e q)
    | inr q ↦ ground (arith, e, q, voted-insert_vote a b v w rest)
  ]
]

voted-insert_vote_iff :
    (a b : Hash256) (v w : PublicKey) (votes : Votes)
    → (voted (insert_vote a v votes) b w ≡ true) ↔ ((a ≡ b) × (v ≡ w) ⊎ (voted votes b w ≡ true))
voted-insert_vote_iff a b v w votes = (
  λ h. elim (Bool-cases (hash_eq a b)) [
    | inl p ↦ elim (Bool-cases (key_eq v w)) [
      | inl q ↦ inl (eq_of_hash_eq a b p, eq_of_key_eq v w q)
      | inr q ↦ inr (ground (arith, h, p, q, voted-insert_vote a b v w votes))
    ]
    | inr p ↦ inr (ground (arith, h, p, voted-insert_vote a b v w votes))
  ],
  λ c. elim c [
    | inl (p, q) ↦ ground (
      arith,
      voted-insert_vote a b v w votes,
      ap (λ x. hash_eq a x) p,
      hash_eq_refl a,
      ap (λ x. key_eq v x) q,
      key_eq_refl v,
    )
    | inr h ↦ ground (arith, h, voted-insert_vote a b v w votes)
  ],
)

pub not_voted_nil : (a : Hash256) (v : PublicKey) → voted [] a v ≡ true → ⊥
unfolding voters_of has_key
not_voted_nil a v h = ground (arith, h)

module _ (votes : VoteCodec) where
  -- The message is a vote for the agenda in the name of the voter.
  unfoldable pub Claims : Message → Hash256 → PublicKey → Type 0
  Claims m a v =
      (x : Vote) × (votes.parse_vote m.text ≡ some x) × (x.agenda_hash ≡ a) × (x.voter ≡ v)

  claim_of_vote :
      (m n : Message) (x : Vote) (a : Hash256) (v : PublicKey)
      → votes.parse_vote m.text ≡ some x
      → n ≡ m
      → Claims n a v
      → (x.agenda_hash ≡ a) × (x.voter ≡ v)
  unfolding Claims
  claim_of_vote m n x a v q e (y, p, p1, p2) =
      let same : x ≡ y = ground (arith, p, q, ap (λ (z : Message). votes.parse_vote z.text) e) in
      (ap (λ (z : Vote). z.agenda_hash) same ∙ p1, ap (λ (z : Vote). z.voter) same ∙ p2)

  -- Some message of the list claims the vote.
  abbrev pub IsClaimed : List Message → Hash256 → PublicKey → Type 0
  IsClaimed ms a v = (m : Message) × Elem m ms × Claims m a v

  collect_votes-vote :
      (so_far : Votes) (m : Message) (ms : List Message) (x : Vote)
      → votes.parse_vote m.text ≡ some x
      → collect_votes votes so_far (m ∷ ms)
        ≡ collect_votes votes (insert_vote x.agenda_hash x.voter so_far) ms
  unfolding collect_votes
  collect_votes-vote so_far m ms x e = rw (collect_votes, e) refl

  collect_votes-other :
      (so_far : Votes) (m : Message) (ms : List Message)
      → votes.parse_vote m.text ≡ none
      → collect_votes votes so_far (m ∷ ms) ≡ panics
  unfolding collect_votes
  collect_votes-other so_far m ms e = rw (collect_votes, e) refl

  pub collect_votes-voted :
      (so_far : Votes) (ms : List Message) (a : Hash256) (v : PublicKey) (result : Votes)
      → collect_votes votes so_far ms ≡ returns result
      → (voted result a v ≡ true) ↔ (IsClaimed ms a v ⊎ (voted so_far a v ≡ true))
  unfolding collect_votes Claims
  collect_votes-voted so_far [] a v result h = (
    λ e. inr (ground (arith, h, e)),
    λ c. elim c [ inl (m, k, c') ↦ absurd (not-Elem-nil k) | inr e ↦ ground (arith, h, e) ],
  )
  collect_votes-voted so_far (m ∷ ms) a v result h = elim (Option-cases (votes.parse_vote m.text)) [
    | inl q ↦ absurd (ground (arith, h, collect_votes-other so_far m ms q))
    | inr (x, q) ↦
        let (below, above) =
          collect_votes-voted (insert_vote x.agenda_hash x.voter so_far) ms a v result
            (sym (collect_votes-vote so_far m ms x q) ∙ h) in
        (
          (λ e. elim (below e) [
            | inl (n, k, c) ↦ inl (n, there k, c)
            | inr p ↦ elim ((voted-insert_vote_iff x.agenda_hash a x.voter v so_far).0 p) [
              | inl (p1, p2) ↦ inl (m, here refl, (x, q, p1, p2))
              | inr p' ↦ inr p'
            ]
          ]),
          (λ c. elim c [
            | inr p ↦
                above (inr ((voted-insert_vote_iff x.agenda_hash a x.voter v so_far).1 (inr p)))
            | inl (n, k, claim) ↦ elim k [
              | here e' ↦ above (
                  inr (
                    (voted-insert_vote_iff x.agenda_hash a x.voter v so_far).1
                      (inl (claim_of_vote m n x a v q e' claim))))
              | there k' ↦ above (inl (n, k', claim))
            ]
          ]),
        )
  ]

  pub collect_votes_total :
      (so_far : Votes) (ms : List Message)
      → ((m : Message) → Elem m ms → (x : Vote) × (votes.parse_vote m.text ≡ some x))
      → (result : Votes) × (collect_votes votes so_far ms ≡ returns result)
  unfolding collect_votes
  collect_votes_total so_far [] h = (so_far, refl)
  collect_votes_total so_far (m ∷ ms) h =
      let (x, e) = h m (here refl) in
      let (result, p) =
        collect_votes_total (insert_vote x.agenda_hash x.voter so_far) ms (λ n k. h n (there k)) in
      (result, collect_votes-vote so_far m ms x e ∙ p)

  pub collect_votes_panics :
      (so_far : Votes) (ms : List Message) (m : Message)
      → Elem m ms
      → votes.parse_vote m.text ≡ none
      → collect_votes votes so_far ms ≡ panics
  unfolding collect_votes
  collect_votes_panics so_far [] m k e = absurd (not-Elem-nil k)
  collect_votes_panics so_far (n ∷ ms) m k e = elim (Option-cases (votes.parse_vote n.text)) [
    | inl q ↦ collect_votes-other so_far n ms q
    | inr (x, q) ↦ elim k [
      | here e' ↦ absurd (ground (arith, e, q, ap (λ (y : Message). y.text) e'))
      | there k' ↦
          collect_votes-vote so_far n ms x q
          ∙ collect_votes_panics (insert_vote x.agenda_hash x.voter so_far) ms m k' e
    ]
  ]

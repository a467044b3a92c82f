-- ===== src/Vetomint/Tallies.antt =====
-- What the tallies of a round mean: the votes in the histories, and the credits of this node.
use pdao_simperby.Prelude.{
  ℕ, ◌+◌, Option, none, some, [], ◌≡◌, arith, get_elem?, get_or as nth_or, get_or-eq_of_some, ◌==◌,
  if◌then◌else◌, add64, Bool, true, false, ◌&&◌,
}
use pdao_simperby.BtreeMap.{BtreeMap, get, insert, get_or}
use pdao_simperby.BtreeMap.Laws.{Ascending, get-insert, insert-Ascending}
use pdao_simperby.Vetomint.State.{
  BlockIdentifier, ValidatorIndex, Round, VotingPower, HeightInfo, Votes, no_votes, VoteHistory,
}
use pdao_simperby.Vetomint.Counting.{
  cast_power, cast_for, weight_for, cast_power-insert, cast_for-insert, Counts, Counts-vote,
}

abbrev pub history_at : BtreeMap VoteHistory → Round → VoteHistory
history_at h r = get_or h r []

abbrev pub tallies_at : BtreeMap Votes → Round → Votes
tallies_at votes r = get_or votes r no_votes

-- This node's power, 0 if it is no validator.
abbrev pub own_power : HeightInfo → ℕ
own_power info = elim info.this_node_index [ none ↦ 0 | some x ↦ nth_or info.validators x 0 ]

-- The tallies of one kind of vote in one round, against the history of the round.
pub record Matches (info : HeightInfo) (h : VoteHistory) (total : VotingPower)
    (favor : BtreeMap VotingPower) (n : ℕ) (c : BlockIdentifier → ℕ) : Type 0 where
  pub once : Ascending 0 h
  pub in_total : Counts total (cast_power info.validators h) (own_power info) n
  pub in_favor :
      (p : BlockIdentifier)
      → Counts (get_or favor p 0) (cast_for p info.validators h) (own_power info) (c p)

-- One more vote in favour of `q`, seen at `p`.
favor-insert :
    (favor : BtreeMap VotingPower) (q p : BlockIdentifier) (w : VotingPower)
    → get_or (insert q (add64 (get_or favor q 0) w) favor) p 0
      ≡ (if q == p then add64 (get_or favor p 0) w else get_or favor p 0)
favor-insert favor q p w = ground (arith, get-insert q p (add64 (get_or favor q 0) w) favor)

Counts-favor :
    (favor : BtreeMap VotingPower) (q p : BlockIdentifier) (w votes own credits : ℕ)
    → Counts (get_or favor p 0) votes own credits
    → Counts
        (get_or (insert q (add64 (get_or favor q 0) w) favor) p 0)
        (votes + weight_for p (some q) w)
        own
        credits
Counts-favor favor q p w votes own credits (k, l, e) =
    (k, l, ground (arith, favor-insert favor q p w))

module _ (info : HeightInfo) (n : ℕ) (c : BlockIdentifier → ℕ) where
  -- A fresh vote of a validator keeps the match.
  pub Matches-vote :
      (h : VoteHistory) (total : VotingPower) (favor : BtreeMap VotingPower)
      (vote : Option BlockIdentifier) (i : ValidatorIndex) (w : VotingPower)
      → get h i ≡ none
      → get_elem? info.validators i ≡ some w
      → Matches info h total favor n c
      → Matches info
          (insert i vote h)
          (add64 total w)
          (elim vote [ none ↦ favor | some p ↦ insert p (add64 (get_or favor p 0) w) favor ])
          n
          c
  Matches-vote h total favor none i w fresh known m = record {
    once = insert-Ascending 0 i none h (omega arith) m.once;
    in_total =
        rw
          (
            cast_power-insert info.validators i none h fresh,
            get_or-eq_of_some info.validators i 0 known,
          )
          (Counts-vote total _ _ n w m.in_total);
    in_favor = λ p.
        let (k, l, e) = m.in_favor p in
        (k, l, ground (arith, cast_for-insert p info.validators i none h));
  }
  Matches-vote h total favor (some q) i w fresh known m = record {
    once = insert-Ascending 0 i (some q) h (omega arith) m.once;
    in_total =
        rw
          (
            cast_power-insert info.validators i (some q) h fresh,
            get_or-eq_of_some info.validators i 0 known,
          )
          (Counts-vote total _ _ n w m.in_total);
    in_favor = λ p.
        rw
          (
            cast_for-insert p info.validators i (some q) h fresh,
            get_or-eq_of_some info.validators i 0 known,
          )
          (Counts-favor favor q p w _ _ (c p) (m.in_favor p));
  }

  -- A credit of this node keeps the match, at one more credit.
  pub Matches-credit :
      (h : VoteHistory) (total : VotingPower) (favor : BtreeMap VotingPower) (favored : Bool)
      (q : BlockIdentifier)
      → Matches info h total favor n c
      → Matches info h
          (add64 total (own_power info))
          (if favored then insert q (add64 (get_or favor q 0) (own_power info)) favor else favor)
          (n + 1)
          (λ p. c p + (if favored && q == p then 1 else 0))
  Matches-credit h total favor false q m = record {
    once = m.once;
    in_total = let (k, l, e) = m.in_total in (k + 1, omega arith, omega arith);
    in_favor = λ p. let (k, l, e) = m.in_favor p in (k, omega arith, e);
  }
  Matches-credit h total favor true q m = record {
    once = m.once;
    in_total = let (k, l, e) = m.in_total in (k + 1, omega arith, omega arith);
    in_favor = λ p.
        let (k, l, e) = m.in_favor p in
        (
          k + (if q == p then 1 else 0),
          ground arith,
          ground (arith, favor-insert favor q p (own_power info)),
        );
  }

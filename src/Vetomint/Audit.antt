-- ===== src/Vetomint/Audit.antt =====
-- The invariant of the records of the votes, over every transition and every run.
use pdao_simperby.Prelude.{
  ℕ, ◌+◌, ◌≤◌, Bool, true, false, Option, none, some, [], ◌≡◌, arith, if◌then◌else◌, ◌==◌,
  get_elem?, ◌&&◌,
}
use pdao_simperby.BtreeMap.{BtreeMap, get, insert}
use pdao_simperby.BtreeMap.Laws.{get-insert}
use pdao_simperby.Vetomint.Moves.{Ledger}
use pdao_simperby.Vetomint.Tallies.{
  history_at, tallies_at, own_power, Matches, Matches-vote, Matches-credit,
}
use pdao_simperby.Vetomint.State.{
  ConsensusEvent, Round, HeightInfo, block_proposal_received, BlockIdentifier, VoteHistory,
  ValidatorIndex, Votes, VotingPower,
}
use pdao_simperby.Vetomint.Ballots.{open_round, record_vote, count_prevote, count_precommit}
use pdao_simperby.Vetomint.Counting.{Counts-mono}
use pdao_simperby.Vetomint.Rounds.{credit_votes}

-- A proposal without a valid round may credit this node's power to the totals of its round.
abbrev pub credits : ConsensusEvent → Round → ℕ
credits (block_proposal_received p none i round time favor) r = if round == r then 1 else 0
credits _ r = 0

-- A proposal in favour, to the tallies of its block too.
abbrev pub credits_for : ConsensusEvent → Round → BlockIdentifier → ℕ
credits_for (block_proposal_received p none i round time favor) r q =
    if round == r then (if favor && p == q then 1 else 0) else 0
credits_for _ r q = 0

-- The tallies of every round count the votes in its histories, with at most `n` credits of this
-- node, of which at most `c` are for each block.
pub record IsTallied (l : Ledger) (n : Round → ℕ) (c : Round → BlockIdentifier → ℕ) : Type 0 where
  pub prevotes :
      (r : Round)
      → Matches l.height_info
          (history_at l.prevote_history r)
          (tallies_at l.votes r).prevotes_total
          (tallies_at l.votes r).prevotes_favor
          (n r)
          (c r)
  pub precommits :
      (r : Round)
      → Matches l.height_info
          (history_at l.precommit_history r)
          (tallies_at l.votes r).precommits_total
          (tallies_at l.votes r).precommits_favor
          (n r)
          (c r)

pub Matches-mono :
    (info : HeightInfo) (h : VoteHistory) (total : VotingPower) (favor : BtreeMap VotingPower)
    (n n' : ℕ) (c c' : BlockIdentifier → ℕ)
    → n ≤ n'
    → ((p : BlockIdentifier) → c p ≤ c' p)
    → Matches info h total favor n c
    → Matches info h total favor n' c'
Matches-mono info h total favor n n' c c' l g m = record {
  once = m.once;
  in_total = Counts-mono total _ _ n n' l m.in_total;
  in_favor = λ p. Counts-mono _ _ _ (c p) (c' p) (g p) (m.in_favor p);
}

-- More credits may be allowed for.
pub IsTallied-mono :
    (l : Ledger) (n n' : Round → ℕ) (c c' : Round → BlockIdentifier → ℕ)
    → ((r : Round) → n r ≤ n' r)
    → ((r : Round) (p : BlockIdentifier) → c r p ≤ c' r p)
    → IsTallied l n c
    → IsTallied l n' c'
IsTallied-mono l n n' c c' g f v = record {
  prevotes = λ r. Matches-mono _ _ _ _ (n r) (n' r) (c r) (c' r) (g r) (f r) (v.prevotes r);
  precommits = λ r. Matches-mono _ _ _ _ (n r) (n' r) (c r) (c' r) (g r) (f r) (v.precommits r);
}

pub history_at-open :
    (round r : Round) (h : BtreeMap VoteHistory)
    → history_at (open_round round h) r ≡ history_at h r
unfolding open_round
history_at-open round r h = ground (arith, get-insert round r [] h)

pub history_at-record :
    (round r : Round) (i : ValidatorIndex) (v : Option BlockIdentifier) (h : BtreeMap VoteHistory)
    → history_at (record_vote round i v h) r
      ≡ (if round == r then insert i v (history_at h r) else history_at h r)
unfolding record_vote
history_at-record round r i v h =
    ground (arith, get-insert round r (insert i v (history_at h round)) h)

pub tallies_at-insert :
    (round r : Round) (f : Votes → Votes) (votes : BtreeMap Votes)
    → tallies_at (insert round (f (tallies_at votes round)) votes) r
      ≡ (if round == r then f (tallies_at votes r) else tallies_at votes r)
tallies_at-insert round r f votes =
    ground (arith, get-insert round r (f (tallies_at votes round)) votes)

module _ (info : HeightInfo) (n : ℕ) (c : BlockIdentifier → ℕ) (h : VoteHistory)
    (votes : Votes) where
  pub count_prevote-Matches :
      (vote : Option BlockIdentifier) (i : ValidatorIndex) (w : VotingPower)
      → get h i ≡ none
      → get_elem? info.validators i ≡ some w
      → Matches info h votes.prevotes_total votes.prevotes_favor n c
      → let counted = count_prevote vote w votes in
        Matches info (insert i vote h) counted.prevotes_total counted.prevotes_favor n c
  unfolding count_prevote
  count_prevote-Matches none i w fresh known m = Matches-vote info n c h _ _ none i w fresh known m
  count_prevote-Matches (some p) i w fresh known m =
      Matches-vote info n c h _ _ (some p) i w fresh known m

  pub count_prevote-precommits :
      (vote : Option BlockIdentifier) (w : VotingPower)
      → Matches info h votes.precommits_total votes.precommits_favor n c
      → let counted = count_prevote vote w votes in
        Matches info h counted.precommits_total counted.precommits_favor n c
  unfolding count_prevote
  count_prevote-precommits none w m = m
  count_prevote-precommits (some p) w m = m

  pub count_precommit-Matches :
      (vote : Option BlockIdentifier) (i : ValidatorIndex) (w : VotingPower)
      → get h i ≡ none
      → get_elem? info.validators i ≡ some w
      → Matches info h votes.precommits_total votes.precommits_favor n c
      → let counted = count_precommit vote w votes in
        Matches info (insert i vote h) counted.precommits_total counted.precommits_favor n c
  unfolding count_precommit
  count_precommit-Matches none i w fresh known m =
      Matches-vote info n c h _ _ none i w fresh known m
  count_precommit-Matches (some p) i w fresh known m =
      Matches-vote info n c h _ _ (some p) i w fresh known m

  pub count_precommit-prevotes :
      (vote : Option BlockIdentifier) (w : VotingPower)
      → Matches info h votes.prevotes_total votes.prevotes_favor n c
      → let counted = count_precommit vote w votes in
        Matches info h counted.prevotes_total counted.prevotes_favor n c
  unfolding count_precommit
  count_precommit-prevotes none w m = m
  count_precommit-prevotes (some p) w m = m

  pub credit_votes-prevotes :
      (p : BlockIdentifier) (favor : Bool)
      → Matches info h votes.prevotes_total votes.prevotes_favor n c
      → let credited = credit_votes p favor (own_power info) votes in
        Matches info h credited.prevotes_total credited.prevotes_favor
          (n + 1)
          (λ q. c q + (if favor && p == q then 1 else 0))
  unfolding credit_votes
  credit_votes-prevotes p false m = Matches-credit info n c h _ _ false p m
  credit_votes-prevotes p true m = Matches-credit info n c h _ _ true p m

  pub credit_votes-precommits :
      (p : BlockIdentifier) (favor : Bool)
      → Matches info h votes.precommits_total votes.precommits_favor n c
      → let credited = credit_votes p favor (own_power info) votes in
        Matches info h credited.precommits_total credited.precommits_favor
          (n + 1)
          (λ q. c q + (if favor && p == q then 1 else 0))
  unfolding credit_votes
  credit_votes-precommits p false m = Matches-credit info n c h _ _ false p m
  credit_votes-precommits p true m = Matches-credit info n c h _ _ true p m

-- Any event may come on top.
pub IsTallied-more :
    {l : Ledger} (e : ConsensusEvent) (n : Round → ℕ) (c : Round → BlockIdentifier → ℕ)
    → IsTallied l n c
    → IsTallied l (λ r. n r + credits e r) (λ r p. c r p + credits_for e r p)
IsTallied-more {l} e n c v = IsTallied-mono l n _ c _ (λ r. omega arith) (λ r p. omega arith) v

-- ===== src/Common/Reserved.antt =====
-- common/src/reserved.rs: the validator set that the leader order gives.
use pdao_simperby.Prelude.{
  ℕ, zero, suc, ◌≡◌, ◌⊎◌, inl, inr, refl, arith, ◌≤◌, none, some, Option-cases, List, [], ◌∷◌,
  String, Elem, here, there, length, get_elem?,
}
use pdao_simperby.Results.{Result, ok, err, traverse}
use pdao_simperby.Common.Types.{PublicKey, VotingPower, Member, ReservedState}

-- The key and the power of a member, by its index.
unfoldable pub validator_of : List Member → ℕ → Result String (PublicKey × VotingPower)
validator_of members leader = elim (get_elem? members leader) [
  | none ↦ err "invalid consensus_leader_order"
  | some member ↦ ok (member.public_key, member.consensus_voting_power)
]

unfoldable pub create_validator_set : ReservedState → Result String (List (PublicKey × VotingPower))
unfolding validator_of
create_validator_set st = traverse (validator_of st.members) st.consensus_leader_order

-- Each validator is the member that the order names at its place.
pub IsOrdered : List Member → List ℕ → List (PublicKey × VotingPower) → Type 0
IsOrdered members [] [] = Unit {0}
IsOrdered members (l ∷ ls) (v ∷ vs) =
    ((m : Member) × (get_elem? members l ≡ some m) × (v ≡ (m.public_key, m.consensus_voting_power)))
    × IsOrdered members ls vs
IsOrdered members _ _ = ⊥

get_elem?-none : (members : List Member) (l : ℕ) → get_elem? members l ≡ none → length members ≤ l
get_elem?-none [] l h = omega arith
get_elem?-none (m ∷ ms) zero h = absurd (ground (arith, h))
get_elem?-none (m ∷ ms) (suc l) h = omega (arith, get_elem?-none ms l h)

-- Every leader has a member, or the first without one is refused.
IsMade : List Member → List ℕ → Result String (List (PublicKey × VotingPower)) → Type 0
IsMade members ls r =
    ((vs : List (PublicKey × VotingPower)) × (r ≡ ok vs) × IsOrdered members ls vs)
    ⊎ ((l : ℕ) × Elem l ls × (length members ≤ l) × (r ≡ err "invalid consensus_leader_order"))

traverse-IsMade :
    (members : List Member) (ls : List ℕ) → IsMade members ls (traverse (validator_of members) ls)
unfolding traverse validator_of IsMade IsOrdered
traverse-IsMade members [] = inl ([], refl, tt)
traverse-IsMade members (l ∷ ls) = elim (Option-cases (get_elem? members l)) [
  | inl e ↦ inr (l, here refl, get_elem?-none members l e, ground (arith, e))
  | inr (m, e) ↦ elim (traverse-IsMade members ls) [
    | inl (vs, p, o) ↦
        inl ((m.public_key, m.consensus_voting_power) ∷ vs, ground (arith, e, p), ((m, e, refl), o))
    | inr (k, i, h, p) ↦ inr (k, there i, h, ground (arith, e, p))
  ]
]

-- `create_validator_set` gives the keys and powers of the members in the leader order, one for each
-- place; or an error, and then some leader of the order is no index of a member.
pub create_validator_set_cases :
    (st : ReservedState)
    → ((vs : List (PublicKey × VotingPower)) × (create_validator_set st ≡ ok vs)
        × IsOrdered st.members st.consensus_leader_order vs)
      ⊎ ((l : ℕ) × Elem l st.consensus_leader_order
          × (length st.members ≤ l)
          × (create_validator_set st ≡ err "invalid consensus_leader_order"))
unfolding create_validator_set IsMade
create_validator_set_cases st = traverse-IsMade st.members st.consensus_leader_order

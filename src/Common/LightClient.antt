-- ===== src/Common/LightClient.antt =====
-- common/src/light_client.rs: `LightClient`.
use pdao_simperby.Prelude.{
  ℕ, ◌≡◌, refl, arith, Option, none, some, List, [], ◌∷◌, ◌++◌, ◌+◌, ◌<◌, suc, length, u64_mod,
  Option-cases, inl, inr, ◌⊎◌, subst, ◌≤◌, sym, ap,
}
use pdao_simperby.Common.Headers.{verify_finalization_proof, verify_header_to_header}
use pdao_simperby.Common.Voters.{IsChild, verify_header_to_header_iff}
use pdao_simperby.Common.Hash.{Hash256}
use pdao_simperby.Common.Types.{BlockHeader, FinalizationProof}
use pdao_simperby.Common.Encoding.{Crates}
use pdao_simperby.Common.Errors.{Error}

pub record LightClient : Type 0 where
  pub repository_roots : List Hash256
  pub state_roots_height_offset : ℕ
  pub commit_roots : List Hash256
  pub commit_roots_height_offset : ℕ
  pub last_header : BlockHeader

-- `LightClient::new`.
unfoldable pub new : BlockHeader → LightClient
new h = record {
  repository_roots = h.repository_merkle_root ∷ [];
  state_roots_height_offset = h.height;
  commit_roots = h.commit_merkle_root ∷ [];
  commit_roots_height_offset = h.height;
  last_header = h;
}

-- The root of the last place.
unfoldable pub last_root : List Hash256 → Option Hash256
last_root [] = none
last_root (r ∷ []) = some r
last_root (r ∷ s ∷ rs) = last_root (s ∷ rs)

-- There is a root of both kinds for each height from the offset to that of the last header, whose
-- roots are the last.
pub IsAligned : LightClient → Type 0
IsAligned c =
    (c.state_roots_height_offset + length c.repository_roots ≡ suc c.last_header.height)
    × (c.commit_roots_height_offset + length c.commit_roots ≡ suc c.last_header.height)
    × (last_root c.repository_roots ≡ some c.last_header.repository_merkle_root)
    × (last_root c.commit_roots ≡ some c.last_header.commit_merkle_root)

last_root-append : (rs : List Hash256) (r : Hash256) → last_root (rs ++ r ∷ []) ≡ some r
unfolding last_root
last_root-append [] r = refl
last_root-append (a ∷ []) r = refl
last_root-append (a ∷ b ∷ rs) r = last_root-append (b ∷ rs) r

length-push : (rs : List Hash256) (r : Hash256) → length (rs ++ r ∷ []) ≡ suc (length rs)
length-push [] r = refl
length-push (a ∷ rs) r = omega (arith, length-push rs r)

new-IsAligned : (h : BlockHeader) → IsAligned (new h)
unfolding IsAligned new last_root
new-IsAligned h = (omega arith, omega arith, refl, refl)

-- The last three lines of `update`.
unfoldable pub push_header : BlockHeader → LightClient → LightClient
push_header h c = record c {
  repository_roots = c.repository_roots ++ h.repository_merkle_root ∷ [];
  commit_roots = c.commit_roots ++ h.commit_merkle_root ∷ [];
  last_header = h;
}

push_header-IsAligned :
    (h : BlockHeader) (c : LightClient)
    → h.height ≡ suc c.last_header.height
    → IsAligned c
    → IsAligned (push_header h c)
unfolding IsAligned push_header
push_header-IsAligned h c next (a, b, d, e) = (
  omega (arith, a, next, length-push c.repository_roots h.repository_merkle_root),
  omega (arith, b, next, length-push c.commit_roots h.commit_merkle_root),
  last_root-append c.repository_roots h.repository_merkle_root,
  last_root-append c.commit_roots h.commit_merkle_root,
)

module _ (crates : Crates) where
  -- `LightClient::update`; an error is `Err(String)`, here before it is printed.
  unfoldable pub update : BlockHeader → FinalizationProof → LightClient → Option Error × LightClient
  update h proof c = elim (verify_header_to_header crates c.last_header h) [
    | some e ↦ (some e, c)
    | none ↦ elim (verify_finalization_proof crates h proof) [
      | some e ↦ (some e, c)
      | none ↦ (none, push_header h c)
    ]
  ]

  -- The updates one after the other, whatever each of them answers.
  unfoldable pub update_all : List (BlockHeader × FinalizationProof) → LightClient → LightClient
  update_all [] c = c
  update_all ((h, proof) ∷ rest) c = update_all rest (update h proof c).1

  -- An update changes nothing, or accepts a child of the last header with a proof of its own.
  update-cases :
      (h : BlockHeader) (proof : FinalizationProof) (c : LightClient)
      → ((update h proof c).1 ≡ c)
        ⊎ (IsChild crates c.last_header h
            × (verify_finalization_proof crates h proof ≡ none)
            × ((update h proof c).1 ≡ push_header h c))
  unfolding update
  update-cases h proof c = elim (Option-cases (verify_header_to_header crates c.last_header h)) [
    | inr (x, k) ↦ inl (ground arith)
    | inl k ↦ elim (Option-cases (verify_finalization_proof crates h proof)) [
      | inr (x, l) ↦ inl (ground arith)
      | inl l ↦ inr ((verify_header_to_header_iff crates c.last_header h).0 k, l, ground arith)
    ]
  ]

  update-IsAligned :
      (h : BlockHeader) (proof : FinalizationProof) (c : LightClient)
      → suc c.last_header.height < u64_mod
      → IsAligned c
      → IsAligned (update h proof c).1
  unfolding IsChild
  update-IsAligned h proof c small a = elim (update-cases h proof c) [
    | inl e ↦ subst IsAligned (sym e) a
    | inr ((height, _, _, _, _), _, e) ↦
        subst IsAligned (sym e) (push_header-IsAligned h c (omega (arith, height, small)) a)
  ]

  update_height :
      (h : BlockHeader) (proof : FinalizationProof) (c : LightClient)
      → suc c.last_header.height < u64_mod
      → (update h proof c).1.last_header.height ≤ suc c.last_header.height
  unfolding IsChild push_header
  update_height h proof c small = elim (update-cases h proof c) [
    | inl e ↦ omega (arith, ap (λ (d : LightClient). d.last_header.height) e)
    | inr ((height, _, _, _, _), _, e) ↦
        omega (arith, height, small, ap (λ (d : LightClient). d.last_header.height) e)
  ]

  update_all-IsAligned :
      (us : List (BlockHeader × FinalizationProof)) (c : LightClient)
      → c.last_header.height + length us < u64_mod
      → IsAligned c
      → IsAligned (update_all us c)
  unfolding update_all
  update_all-IsAligned [] c small a = a
  update_all-IsAligned ((h, proof) ∷ us) c small a =
      update_all-IsAligned us (update h proof c).1
        (omega (arith, small, update_height h proof c (omega (arith, small))))
        (update-IsAligned h proof c (omega (arith, small)) a)

  -- After any updates of a new light client, accepted or not, it has a repository root and a commit
  -- root for each height from that of the initial header to that of the last header, and the last of
  -- them are the last header's, given that the heights do not reach 2^64.
  pub update_all-new-IsAligned :
      (us : List (BlockHeader × FinalizationProof)) (h : BlockHeader)
      → h.height + length us < u64_mod
      → IsAligned (update_all us (new h))
  unfolding new
  update_all-new-IsAligned us h small = update_all-IsAligned us (new h) small (new-IsAligned h)

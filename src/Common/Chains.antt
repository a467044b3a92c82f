-- ===== src/Common/Chains.antt =====
-- What `CommitSequenceVerifier` of common/src/verify.rs accepts: chains of headers.
use pdao_simperby.Prelude.{
  ◌≡◌, ◌⊎◌, inl, inr, refl, arith, none, some, List, [], ◌∷◌, Option, returns, ◌>>=◌,
  >>=-eq-returns, subst, is_none, false, sym, ap, Option-cases, ◌∙◌,
}
use pdao_simperby.Common.Sequence.{
  apply_arm, apply_commit, push_commit, CommitSequenceVerifier, Applied,
}
use pdao_simperby.Common.Arms.{apply_arm-Arm, Arm}
use pdao_simperby.Common.Types.{
  Commit, block, transaction, agenda, agenda_proof, extra_agenda_transaction, chat_log, BlockHeader,
}
use pdao_simperby.Common.Errors.{block_phase, Error}
use pdao_simperby.Common.Encoding.{Crates}
use pdao_simperby.Common.Headers.{verify_header_to_header}

-- The headers of the blocks among the commits.
unfoldable pub blocks_of : List Commit → List BlockHeader
blocks_of [] = []
blocks_of (block h ∷ cs) = h ∷ blocks_of cs
blocks_of (_ ∷ cs) = blocks_of cs

module _ (crates : Crates) where
  -- Each header is accepted after the one before it, from the first to the last.
  unfoldable pub IsChain : BlockHeader → List BlockHeader → BlockHeader → Type 0
  IsChain first [] last = last ≡ first
  IsChain first (h ∷ hs) last = (verify_header_to_header crates first h ≡ none) × IsChain h hs last

  -- The commits one after another, up to the first error.
  unfoldable pub apply_all : List Commit → CommitSequenceVerifier → Applied
  apply_all [] v = returns (none, v)
  apply_all (c ∷ cs) v = apply_commit crates c v >>= λ (answer, next). elim answer [
    | some e ↦ returns (some e, next)
    | none ↦ apply_all cs next
  ]

  -- An accepted commit is pushed; an error leaves what the arm left.
  Pushed : Commit → CommitSequenceVerifier → Option Error → CommitSequenceVerifier → Type 0
  Pushed c u answer t =
      ((is_none answer ≡ false) × (t ≡ u)) ⊎ ((answer ≡ none) × (t ≡ push_commit c u))

  push-Pushed :
      (c : Commit) (a answer : Option Error) (u t : CommitSequenceVerifier)
      → ◌≡◌ {A = Applied}
          (elim a [ some e ↦ returns (some e, u) | none ↦ returns (none, push_commit c u) ])
          (returns (answer, t))
      → (a ≡ answer) × Pushed c u answer t
  unfolding Pushed
  push-Pushed c none answer u t e = (ground arith, inr (ground arith, ground arith))
  push-Pushed c (some x) answer u t e = (ground arith, inl (ground arith, ground arith))

  apply_commit-Arm :
      (c : Commit) (v t : CommitSequenceVerifier) (answer : Option Error)
      → apply_commit crates c v ≡ returns (answer, t)
      → (u : CommitSequenceVerifier) × Arm crates c v answer u × Pushed c u answer t
  unfolding apply_commit
  apply_commit-Arm c v t answer e =
      let ((a, u), p, q) = >>=-eq-returns (apply_arm crates c v.phase v) _ e in
      let (same, pushed) = push-Pushed c a answer u t q in
      (u, subst (λ x. Arm crates c v x u) same (apply_arm-Arm crates c v.phase v u a p), pushed)

  Arm-refused :
      (c : Commit) (v u : CommitSequenceVerifier) (answer : Option Error)
      → is_none answer ≡ false
      → Arm crates c v answer u
      → u ≡ v
  Arm-refused (block h) v u answer n a = ground arith
  Arm-refused (transaction x) v u answer n a = ground arith
  Arm-refused (agenda x) v u answer n a = ground arith
  Arm-refused (agenda_proof x) v u answer n a = ground arith
  Arm-refused (extra_agenda_transaction x) v u answer n a = ground arith
  Arm-refused chat_log v u answer n a = ground arith

  Arm-kept :
      (c : Commit) (v u : CommitSequenceVerifier)
      → blocks_of (c ∷ []) ≡ []
      → Arm crates c v none u
      → u.header ≡ v.header
  unfolding blocks_of
  Arm-kept (block h) v u n a = absurd (ground arith)
  Arm-kept (transaction x) v u n a = ground arith
  Arm-kept (agenda x) v u n a = ground arith
  Arm-kept (agenda_proof x) v u n a = ground arith
  Arm-kept (extra_agenda_transaction x) v u n a = ground arith
  Arm-kept chat_log v u n a = ground arith

  -- A commit that `apply_commit` answers with an error leaves the verifier as it was.
  pub apply_commit-error :
      (c : Commit) (e : Error) (v t : CommitSequenceVerifier)
      → apply_commit crates c v ≡ returns (some e, t)
      → t ≡ v
  unfolding Pushed
  apply_commit-error c e v t h =
      let (u, arm, pushed) = apply_commit-Arm c v t (some e) h in
      ground (arith, pushed, Arm-refused c v u (some e) refl arm)

  -- A block that `apply_commit` accepts is accepted after the verifier's header, and leaves a verifier
  -- in the block phase whose header is the block and whose only commit is the block itself.
  pub apply_commit-block :
      (h : BlockHeader) (v t : CommitSequenceVerifier)
      → apply_commit crates (block h) v ≡ returns (none, t)
      → (verify_header_to_header crates v.header h ≡ none)
        × (t ≡ record v { header = h; phase = block_phase; commits = block h ∷ [] })
  unfolding Pushed push_commit
  apply_commit-block h v t e =
      let (u, arm, pushed) = apply_commit-Arm (block h) v t none e in ground (arith, pushed, arm)

  apply_commit-header :
      (c : Commit) (v t : CommitSequenceVerifier)
      → blocks_of (c ∷ []) ≡ []
      → apply_commit crates c v ≡ returns (none, t)
      → t.header ≡ v.header
  unfolding Pushed push_commit
  apply_commit-header c v t n e =
      let (u, arm, pushed) = apply_commit-Arm c v t none e in
      ground (arith, pushed, Arm-kept c v u n arm)

  IsChain-on :
      (c : Commit) (cs : List Commit) (v next : CommitSequenceVerifier) (last : BlockHeader)
      → blocks_of (c ∷ []) ≡ []
      → blocks_of (c ∷ cs) ≡ blocks_of cs
      → apply_commit crates c v ≡ returns (none, next)
      → IsChain next.header (blocks_of cs) last
      → IsChain v.header (blocks_of (c ∷ cs)) last
  IsChain-on c cs v next last n m e k =
      subst (λ hs. IsChain v.header hs last) (sym m)
        (subst (λ h. IsChain h (blocks_of cs) last) (apply_commit-header c v next n e) k)

  IsChain-step :
      (c : Commit) (cs : List Commit) (v next : CommitSequenceVerifier) (last : BlockHeader)
      → apply_commit crates c v ≡ returns (none, next)
      → IsChain next.header (blocks_of cs) last
      → IsChain v.header (blocks_of (c ∷ cs)) last
  unfolding blocks_of IsChain
  IsChain-step (block h) cs v next last e k =
      let (a, b) = apply_commit-block h v next e in
      (a, subst (λ g. IsChain g (blocks_of cs) last) (ap (λ w. w.header) b) k)
  IsChain-step (transaction x) cs v next last e k =
      IsChain-on (transaction x) cs v next last refl refl e k
  IsChain-step (agenda x) cs v next last e k = IsChain-on (agenda x) cs v next last refl refl e k
  IsChain-step (agenda_proof x) cs v next last e k =
      IsChain-on (agenda_proof x) cs v next last refl refl e k
  IsChain-step (extra_agenda_transaction x) cs v next last e k =
      IsChain-on (extra_agenda_transaction x) cs v next last refl refl e k
  IsChain-step chat_log cs v next last e k = IsChain-on chat_log cs v next last refl refl e k

  -- Where a sequence of commits is accepted one after another, its blocks are a chain from the
  -- verifier's header to the header that it ends with: each is accepted by `verify_header_to_header`
  -- after the one before it.
  pub apply_all-IsChain :
      (cs : List Commit) (v t : CommitSequenceVerifier)
      → apply_all cs v ≡ returns (none, t)
      → IsChain v.header (blocks_of cs) t.header
  unfolding apply_all IsChain blocks_of
  apply_all-IsChain [] v t e = ground arith
  apply_all-IsChain (c ∷ cs) v t e =
      let ((answer, next), p, q) = >>=-eq-returns (apply_commit crates c v) _ e in
      elim (Option-cases answer) [
        | inl k ↦
            IsChain-step c cs v next t.header (p ∙ ap (λ x. returns (x, next)) k)
              (apply_all-IsChain cs next t (ground arith))
        | inr (x, k) ↦ absurd (ground arith)
      ]

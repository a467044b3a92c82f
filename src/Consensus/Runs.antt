-- ===== src/Consensus/Runs.antt =====
-- `progress` of consensus/src/lib.rs as a run of the state machine.
use pdao_simperby.Prelude.{
  ◌≡◌, refl, arith, sym, ap, ◌∙◌, List, [], ◌∷◌, ◌++◌, Outcome, returns, panics, Outcome-cases, inl,
  inr, Option, subst,
}
use pdao_simperby.Results.{Result, ok, err}
use pdao_simperby.Results.Actions.{
  ◌>>◌, Action, pure, ◌>>=◌, continue-eq-ok, reads, after_call-eq-ok,
}
use pdao_simperby.Common.Bytes.{Bytes}
use pdao_simperby.Common.Encoding.{Crates}
use pdao_simperby.Common.Signing.{Keys}
use pdao_simperby.Network.Storage.{Storage}
use pdao_simperby.Network.Message.{Message, Codec, Error}
use pdao_simperby.Network.Reading.{read_messages}
use pdao_simperby.Vetomint.State.{ConsensusState, ConsensusEvent, ConsensusResponse, Timestamp}
use pdao_simperby.Vetomint.Progress
use pdao_simperby.Vetomint.Runs.{run}
use pdao_simperby.Network.MessageSet.{stored}
use pdao_simperby.Consensus.Node.{state_file_name, Node, DriverState, DriverCodec}
use pdao_simperby.Consensus.Driver.{
  ProgressResult, event_of, respond_all, responses, commit, update, update_all, new_messages, save,
  progress,
}

module _ (driver : DriverCodec) where
  -- The events of the messages, in their order.
  unfoldable pub AreEvents : DriverState → Timestamp → List Message → List ConsensusEvent → Type 0
  AreEvents state time [] [] = Unit {0}
  AreEvents state time (m ∷ ms) (e ∷ es) =
      (event_of driver state time m ≡ returns e) × AreEvents state time ms es
  AreEvents state time _ _ = ⊥

  -- The event of a message does not depend on the state machine.
  event_of-state :
      (st : DriverState) (c : ConsensusState) (time : Timestamp) (m : Message)
      → event_of driver (record st { consensus_state = c }) time m ≡ event_of driver st time m
  unfolding event_of
  event_of-state st c time m = refl

module _ {E S : Type 0} (storage : Storage E S) (crates : Crates) (codec : Codec)
    (driver : DriverCodec) (keys : Keys) (broadcast : Bytes → Result (Error E) (Unit {0})) where
  commit-state :
      (n n' : Node S) (c : ConsensusState) (rs : List ProgressResult)
      (o : Outcome (Result (Error E) (List ProgressResult) × S))
      → commit storage crates codec driver keys broadcast n c o ≡ returns (ok rs, n')
      → n'.state ≡ record n.state { consensus_state = c }
  commit-state n n' c rs panics h = cc
  commit-state n n' c rs (returns (err e, s)) h = cc
  commit-state n n' c rs (returns (ok results, s)) h =
      let same : n' ≡ record n { dms = s; state = record n.state { consensus_state = c } } = cc in
      ap (λ (x : Node S). x.state) same

  -- The state machine of the node ran through the events of the messages, and the rest of the state is
  -- as it was.
  pub IsRun : Timestamp → List Message → DriverState → DriverState → Type 0
  IsRun time ms st st' =
      (es : List ConsensusEvent) × (c : ConsensusState) × AreEvents driver st time ms es
      × (run st.consensus_state es ≡ returns c)
      × (st' ≡ record st { consensus_state = c })

  update-step :
      (time : Timestamp) (m : Message) (n n' : Node S) (rs : List ProgressResult)
      → update storage crates codec driver keys broadcast time m n ≡ returns (ok rs, n')
      → (e : ConsensusEvent) × (r : Option (List ConsensusResponse)) × (c : ConsensusState)
        × (event_of driver n.state time m ≡ returns e)
        × (Progress.progress n.state.consensus_state e ≡ returns (r, c))
        × (n'.state ≡ record n.state { consensus_state = c })
  unfolding update
  update-step time m n n' rs h = elim (Outcome-cases (event_of driver n.state time m)) [
    | inl p ↦ absurd (ground (arith, h, p))
    | inr (e, p) ↦ elim (Outcome-cases (Progress.progress n.state.consensus_state e)) [
      | inl q ↦ absurd (ground (arith, h, p, q))
      | inr ((result, c), q) ↦ (
        e,
        result,
        c,
        p,
        q,
        commit-state n n' c rs
            (respond_all storage crates codec driver keys broadcast time n.this_node_key
              (responses storage crates codec driver keys broadcast result) n.dms)
            (ground (arith, h, p, q)),
      )
    ]
  ]

  AreEvents-state :
      (st : DriverState) (c : ConsensusState) (time : Timestamp) (ms : List Message)
      (es : List ConsensusEvent)
      → AreEvents driver (record st { consensus_state = c }) time ms es
      → AreEvents driver st time ms es
  unfolding AreEvents
  AreEvents-state st c time [] [] h = tt
  AreEvents-state st c time [] (e ∷ es) h = absurd h
  AreEvents-state st c time (m ∷ ms) [] h = absurd h
  AreEvents-state st c time (m ∷ ms) (e ∷ es) (p, h) =
      (sym (event_of-state driver st c time m) ∙ p, AreEvents-state st c time ms es h)

  IsRun-cons :
      (time : Timestamp) (m : Message) (ms : List Message) (st st' : DriverState)
      (e : ConsensusEvent) (r : Option (List ConsensusResponse)) (c : ConsensusState)
      → event_of driver st time m ≡ returns e
      → Progress.progress st.consensus_state e ≡ returns (r, c)
      → IsRun time ms (record st { consensus_state = c }) st'
      → IsRun time (m ∷ ms) st st'
  unfolding IsRun AreEvents run
  IsRun-cons time m ms st st' e r c p q (es, d, h, k, s) =
      (e ∷ es, d, (p, AreEvents-state st c time ms es h), rw (q) k, s)

  update_all-IsRun :
      (time : Timestamp) (ms : List Message) (n n' : Node S) (rs : List ProgressResult)
      → update_all storage crates codec driver keys broadcast time ms n ≡ returns (ok rs, n')
      → IsRun time ms n.state n'.state
  unfolding update_all IsRun AreEvents run
  update_all-IsRun time [] n n' rs h =
      let same : n ≡ n' = cc in
      ([], n.state.consensus_state, tt, refl, sym (ap (λ (x : Node S). x.state) same))
  update_all-IsRun time (m ∷ ms) n n' rs h =
      let (r, u, p, q) =
        continue-eq-ok (update storage crates codec driver keys broadcast time m n)
          (λ results. update_all storage crates codec driver keys broadcast time ms >>= λ others.
            pure (results ++ others))
          h in
      let (r', v, p', q') =
        continue-eq-ok (update_all storage crates codec driver keys broadcast time ms u)
          (λ others. pure (r ++ others)) q in
      let same : v ≡ n' = cc in
      let (e, res, c, a, b, d) = update-step time m n u r p in
      IsRun-cons time m ms n.state n'.state e res c a b (
        subst (λ x. IsRun time ms x n'.state) d
          (subst (λ (x : Node S). IsRun time ms u.state x.state) same
            (update_all-IsRun time ms u v r' p')))

  save-state :
      (n n' : Node S) {x : Unit {0}}
      → save storage crates codec driver keys broadcast n ≡ returns (ok x, n')
      → n'.state ≡ n.state
  unfolding save
  save-state n n' h =
      elim (Outcome-cases (
        stored (storage.add_or_overwrite_file state_file_name (driver.state_json n.state))
          n.storage)) [
            | inl p ↦ absurd (ground (arith, h, p))
            | inr ((r, s), p) ↦
                let same : n' ≡ record n { storage = s } = ground (arith, h, p) in
                ap (λ (z : Node S). z.state) same
          ]

  saved_last :
      (w y n' : Node S) (results rs : List ProgressResult)
      → y.state ≡ w.state
      → pure {E = Error E} results y ≡ returns (ok rs, n')
      → w.state ≡ n'.state
  saved_last w y n' results rs p q =
      let same : y ≡ n' = cc in sym p ∙ ap (λ (z : Node S). z.state) same

  IsRun-updated_messages :
      (time : Timestamp) (ms : List Message) (st st' : DriverState)
      → IsRun time ms st st'
      → st'.updated_messages ≡ st.updated_messages
  unfolding IsRun
  IsRun-updated_messages time ms st st' (es, c, h, k, s) =
      ap (λ (z : DriverState). z.updated_messages) s

  -- When `progress` ends with `Ok`, the state machine of the node ran through the events of the messages
  -- of the set, in their order, without those that are marked as updated; everything else of the state
  -- is as it was, the marks too.
  pub progress-IsRun :
      (time : Timestamp) (n n' : Node S) (rs : List ProgressResult)
      → progress storage crates codec driver keys broadcast time n ≡ returns (ok rs, n')
      → (ms : List Message) × (read_messages storage crates codec n.dms ≡ returns (ok ms))
        × IsRun time (new_messages crates codec n.state.updated_messages ms) n.state n'.state
        × (n'.state.updated_messages ≡ n.state.updated_messages)
  unfolding progress
  progress-IsRun time n n' rs h =
      let last : List ProgressResult → Action (Error E) (Node S) (List ProgressResult) =
        λ results. save storage crates codec driver keys broadcast >> pure results in
      let update_new : List Message
          → DriverState
          → Action (Error E) (Node S) (List ProgressResult) =
        λ ms state.
          update_all storage crates codec driver keys broadcast time
            (new_messages crates codec state.updated_messages ms)
          >>= last in
      let (ms, u, p, q) =
        continue-eq-ok (reads (λ x. read_messages storage crates codec x.dms) n)
          (λ ms. reads (λ x. returns (ok x.state)) >>= update_new ms) h in
      let (listed, same) = after_call-eq-ok (read_messages storage crates codec n.dms) n p in
      let (st, v, p', q') =
        continue-eq-ok (reads (λ x. returns (ok x.state)) u) (update_new ms) q in
      let (state, same') = after_call-eq-ok (returns (ok u.state)) u p' in
      let (results, w, p2, q2) =
        continue-eq-ok
          (update_all storage crates codec driver keys broadcast time
            (new_messages crates codec st.updated_messages ms) v)
          last q' in
      let (x, y, p3, q3) =
        continue-eq-ok (save storage crates codec driver keys broadcast w) (λ x. pure results) q2 in
      let ran =
        update_all-IsRun time (new_messages crates codec st.updated_messages ms) v w results p2 in
      let before : v.state ≡ n.state = ap (λ (z : Node S). z.state) (sym (same ∙ same')) in
      let marks : st ≡ n.state = ground (arith, state, ap (λ (z : Node S). z.state) same) in
      let after : w.state ≡ n'.state = saved_last w y n' results rs (save-state w y p3) q3 in
      let ran' =
        subst (λ z. IsRun time (new_messages crates codec z.updated_messages ms) z n'.state) marks
          (subst (λ z. IsRun time (new_messages crates codec st.updated_messages ms) z n'.state)
            (before ∙ sym marks)
            (subst (λ z. IsRun time (new_messages crates codec st.updated_messages ms) v.state z)
              after ran)) in
      (
        ms,
        listed,
        ran',
        IsRun-updated_messages time (new_messages crates codec n.state.updated_messages ms) n.state
            n'.state ran',
      )

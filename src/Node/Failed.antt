-- ===== src/Node/Failed.antt =====
-- An attempt that fails.
use dpx.Base.{
  ℕ, true, false, ◌≡◌, ◌≢◌, refl, sym, ap, ◌∙◌, List, [], ◌∷◌, ◌++◌, Option, none, some, Result, ok,
  err, panic, Bool-cases, Option-cases, inl, inr, arith,
}
use dpx.Codec.{add64, encode_uint64}
use dpx.Engine.{StorageEngine, set, applied_key}
use dpx.Proposal.{Proposal}
use dpx.Fsm.{ApplyResult, detect_conflict, engine_failed, failed}
use dpx.Tx.{Snapshot, Tx, is_empty, validate}
use dpx.Direct.{
  Direct, Group, new_group, stack_entry, close_entry, entries, group_entries, finish_group,
  commit_group, apply_batch_direct, fail_applied, is_applied,
}
use dpx.ShardedDirect.{inline_ops}
use dpx.ShardedDirect.Inline.{stack_writes-batch}
use dpx.Node.Progress.{single_applied}
use dpx.Tx.{TxError}
use dpx.Node.{
  on_snapshot, after_validate, NodeError, Body, outcome, first_result, proposal_of, Node,
  propose_tx, after_fn, run_once, Race, answered, lost, applied_unanswered, after_propose,
  apply_failed, direct_closed,
}

abbrev or_else : NodeError → Option NodeError → NodeError
or_else e none = e
or_else e (some x) = x

outcome-failed :
    (results : List ApplyResult)
    → results ≡ failed engine_failed ∷ []
    → outcome (first_result results) ≡ some (apply_failed engine_failed)
unfolding outcome
outcome-failed results h = ap (λ rs. outcome (first_result rs)) h

module _ (eng : StorageEngine) where
  blocked_store :
      (p : Proposal) (d : Direct eng)
      → detect_conflict d.fsm.key_epoch [] p.read_set ≡ true
      → (apply_batch_direct eng (p ∷ []) d).1.fsm.store ≡ d.fsm.store
  unfolding apply_batch_direct group_entries entries stack_entry finish_group commit_group
  blocked_store p d clash = rw clash refl

  lost_outcome :
      (p : Proposal) (d : Direct eng)
      → detect_conflict d.fsm.key_epoch [] p.read_set ≡ false
      → let idx = add64 d.index 1 in
        eng.apply_batch
            (inline_ops idx p.writes ++ (set applied_key (encode_uint64 idx) ∷ []))
            d.fsm.store
          ≡ none
        → (apply_batch_direct eng (p ∷ []) d).0 ≡ failed engine_failed ∷ []
  unfolding apply_batch_direct group_entries entries stack_entry close_entry finish_group
      commit_group fail_applied is_applied
  lost_outcome p d clear gone =
      let g : Group = record (new_group eng d) { index = add64 d.index 1 } in
      rw (clear, stack_writes-batch (add64 d.index 1) p.writes g, gone) (rw clear refl)

  failed_proposal :
      (p : Proposal) (d : Direct eng) (e : NodeError)
      → let r = apply_batch_direct eng (p ∷ []) d in
        outcome (first_result r.0) ≡ some e
        → e ≢ apply_failed engine_failed
        → r.1.fsm.store ≡ d.fsm.store
  failed_proposal p d e is_e own =
      let idx = add64 d.index 1 in
      let ops = inline_ops idx p.writes ++ (set applied_key (encode_uint64 idx) ∷ []) in
      elim (Bool-cases (detect_conflict d.fsm.key_epoch [] p.read_set)) [
        | inl clash ↦ blocked_store p d clash
        | inr clear ↦ elim (Option-cases (eng.apply_batch ops d.fsm.store)) [
          | inl gone ↦
              let same =
                outcome-failed (apply_batch_direct eng (p ∷ []) d).0
                  (lost_outcome p d clear gone) in
              absurd (own (ap (or_else e) (sym is_e ∙ same)))
          | inr (s, committed) ↦
              let (results, _) = single_applied eng p d s clear committed in
              let no_error = sym (ap (λ rs. outcome (first_result rs)) results) ∙ is_e in
              absurd (unfold outcome in ground (arith, no_error))
        ]
      ]

  module _ (get_snapshot : eng.State → Option Snapshot) (tick : ℕ × ℕ) where
    -- The state of the engine is as it was.
    abbrev Keeps :
        Node eng get_snapshot tick → Option NodeError × Node eng get_snapshot tick → Type 0
    Keeps n r =
        (e : NodeError)
        → r.0 ≡ some e
        → e ≢ apply_failed engine_failed
        → e ≢ direct_closed
        → r.1.proposer.fsm.store ≡ n.proposer.fsm.store

    after_propose-Keeps :
        (race : Race) (p : Proposal) (n : Node eng get_snapshot tick)
        → Keeps n (
            after_propose eng get_snapshot tick race (apply_batch_direct eng (p ∷ []) n.proposer) n)
    after_propose-Keeps answered p n e failed own shut = failed_proposal p n.proposer e failed own
    after_propose-Keeps lost p n e failed own shut = refl
    after_propose-Keeps applied_unanswered p n e failed own shut =
        absurd (shut (ap (or_else e) (sym failed)))

    after_validate-Keeps :
        (race : Race) (v : Result TxError (Unit {0})) (snap : Snapshot) (tx : Tx)
        → (n : Node eng get_snapshot tick)
        → Keeps n (after_validate eng get_snapshot tick race v snap tx n)
    after_validate-Keeps race (ok u) snap tx n e =
        after_propose-Keeps race (proposal_of tick snap tx) n e
    after_validate-Keeps race (err x) snap tx n e = λ failed own shut. refl
    after_validate-Keeps race panic snap tx n e = λ failed own shut. refl

    after_fn-Keeps :
        (race : Race) (snap : Snapshot) (r : Option NodeError × Tx × ℕ)
        (n : Node eng get_snapshot tick)
        → Keeps n (after_fn eng get_snapshot tick race snap r n)
    unfolding propose_tx
    after_fn-Keeps race snap (some x, tx, seq) n e = λ failed own shut. refl
    after_fn-Keeps race snap (none, tx, seq) n e =
        let n' : Node eng get_snapshot tick = record n { seq_counter = seq } in
        elim (Bool-cases (is_empty tx)) [
          | inl nothing ↦ rw nothing (λ failed own shut. refl)
          | inr full ↦ rw full (after_validate-Keeps race (validate tx) snap tx n' e)
        ]

    on_snapshot-Keeps :
        (race : Race) (taken : Option Snapshot) (fn : Body) (n : Node eng get_snapshot tick)
        → Keeps n (on_snapshot eng get_snapshot tick race taken fn n)
    on_snapshot-Keeps race none fn n e = λ failed own shut. refl
    on_snapshot-Keeps race (some snap) fn n e = after_fn-Keeps race snap (fn snap n.seq_counter) n e

    -- An attempt that ends with an error of the snapshot, of the function, of the validation or with a
    -- conflict, so with any but the engine's own and that of a proposer which is shut down meanwhile,
    -- leaves the engine in the state that it found.
    pub refused_attempt_keeps_store :
        (race : Race) (fn : Body) (n : Node eng get_snapshot tick) (e : NodeError)
        → let r = run_once eng get_snapshot tick race fn n in
          r.0 ≡ some e
          → e ≢ apply_failed engine_failed
          → e ≢ direct_closed
          → r.1.proposer.fsm.store ≡ n.proposer.fsm.store
    unfolding run_once
    refused_attempt_keeps_store race fn n =
        on_snapshot-Keeps race (get_snapshot n.proposer.fsm.store) fn n

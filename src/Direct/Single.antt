-- ===== src/Direct/Single.antt =====
-- A group of one proposal, against the state machine.
use dpx.Base.{
  ℕ, true, false, ◌≡◌, refl, All, List, [], ◌∷◌, ◌++◌, append-nil, Option, none, some, Bool-cases,
  Option-cases, inl, inr,
}
use dpx.Codec.{add64}
use dpx.Engine.{BatchOp, StorageEngine}
use dpx.Proposal.{WriteEntry, Proposal}
use dpx.Fsm.{
  SyncPolicy, FsmError, is_sync_batch, ApplyResult, applied_ok, conflicted, failed, detect_conflict,
  write_op, Staged, stage, stage_one, start, Fsm, commit, finish, apply_proposal, apply_decoded,
}
use dpx.Direct.{
  Group, stack_write, stack_writes, close_entry, stack_entry, entries, group_entries, is_applied,
  fail_applied, to_notify, Direct, new_group, commit_group, finish_group, apply_batch_direct,
}

-- The operation is one of the four.
abbrev pub IsKnown : WriteEntry → Type 0
IsKnown w = (op : BatchOp) × (write_op w ≡ some op)

-- The stack path and the state machine's loop have built the same.
abbrev Agrees : Group → Staged → Type 0
Agrees g st = (g.batch ≡ st.batch) × (g.key_epoch ≡ st.key_epoch) × (st.unknown ≡ none)

stack_write-Agrees :
    (idx : ℕ) (w : WriteEntry) (op : BatchOp) (g : Group) (st : Staged)
    → write_op w ≡ some op
    → Agrees g st
    → Agrees (stack_write idx w g) (stage_one idx w op st)
unfolding stack_write stage_one
stack_write-Agrees idx w op g st e (b, k, u) = (rw (e, b) refl, rw k refl, refl)

pub stack_writes-Agrees :
    (idx : ℕ) (ws : List WriteEntry) (g : Group) (st : Staged)
    → All IsKnown ws
    → Agrees g st
    → Agrees (stack_writes idx ws g) (stage idx ws st)
unfolding stack_writes stage
stack_writes-Agrees idx [] g st ks a = a
stack_writes-Agrees idx (w ∷ ws) g st ((op, e), ks) a =
    rw (stage, e)
      (stack_writes-Agrees idx ws (stack_write idx w g) (stage_one idx w op st) ks
        (stack_write-Agrees idx w op g st e a))

stack_writes-index :
    (idx : ℕ) (ws : List WriteEntry) (g : Group) → ((stack_writes idx ws g).index ≡ g.index)
unfolding stack_writes stack_write
stack_writes-index idx [] g = refl
stack_writes-index idx (w ∷ ws) g = stack_writes-index idx ws (stack_write idx w g)

-- What the state machine makes of a commit: its result, and who is told.
abbrev reported :
    {eng : StorageEngine} → Proposal → Option FsmError → Fsm eng → ApplyResult × Fsm eng
reported p none f = (applied_ok, record f { notified = f.notified ++ (p.writes ∷ []) })
reported p (some e) f = (failed e, f)

module _ (eng : StorageEngine) (policy : SyncPolicy) (unsynced : is_sync_batch policy ≡ false) where
  finish_group-commit :
      (idx : ℕ) (p : Proposal) (g : Group) (f : Fsm eng)
      → g.has_write ≡ true
      → g.index ≡ idx
      → let c = commit eng policy idx g.batch (record f { key_epoch = g.key_epoch }) in
        let s = finish_group eng (p ∷ []) (applied_ok ∷ []) g f in
        (s.0 ≡ (reported p c.0 c.1).0 ∷ []) × (s.1.fsm ≡ (reported p c.0 c.1).1) × (s.1.index ≡ idx)
  unfolding finish_group fail_applied to_notify is_applied commit
  finish_group-commit idx p g f w i = elim (Option-cases (eng.apply_batch g.batch f.store)) [
    | inl e ↦
        rw (w, commit_group, commit, e)
          (
            refl,
            λ j. record f {
              store = eng.failed_batch g.batch f.store;
              key_epoch = g.key_epoch;
              notified = append-nil f.notified j;
            },
            i,
          )
    | inr (s, e) ↦ rw (w, commit_group, commit, e, unsynced) (refl, rw i refl, i)
  ]

  -- `finish` of what is staged with no unknown operation is one commit.
  finish-commit :
      (idx : ℕ) (g : Group) (st : Staged) (f : Fsm eng)
      → Agrees g st
      → let c =
          commit eng policy idx (close_entry idx g).batch (record f { key_epoch = g.key_epoch }) in
        let r = finish eng policy idx st f in (r.0 ≡ c.0) × (r.2 ≡ c.1)
  unfolding finish close_entry
  finish-commit idx g st f (b, k, u) = rw (u, b, k) (refl, refl)

  reported-apply_decoded :
      (idx : ℕ) (p : Proposal) (f : Fsm eng)
      → detect_conflict f.key_epoch [] p.read_set ≡ false
      → let r = apply_decoded eng policy idx p [] f in
        let c = apply_proposal eng policy idx p [] f in
        (r.0 ≡ (reported p c.0 c.2).0) × (r.2 ≡ (reported p c.0 c.2).1)
  unfolding apply_decoded
  reported-apply_decoded idx p f clear =
      elim (Option-cases (apply_proposal eng policy idx p [] f).0) [
        | inl e ↦ rw (clear, e) (refl, refl)
        | inr (x, e) ↦ rw (clear, e) (refl, refl)
      ]

  apply_decoded_conflict :
      (idx : ℕ) (p : Proposal) (f : Fsm eng)
      → detect_conflict f.key_epoch [] p.read_set ≡ true
      → apply_decoded eng policy idx p [] f ≡ (conflicted, [], f)
  unfolding apply_decoded
  apply_decoded_conflict idx p f clash = rw clash refl

  apply_proposal-commit :
      (idx : ℕ) (p : Proposal) (g : Group) (f : Fsm eng)
      → All IsKnown p.writes
      → g.batch ≡ []
      → g.key_epoch ≡ f.key_epoch
      → let g' = close_entry idx (stack_writes idx p.writes g) in
        let c = commit eng policy idx g'.batch (record f { key_epoch = g'.key_epoch }) in
        let r = apply_proposal eng policy idx p [] f in (r.0 ≡ c.0) × (r.2 ≡ c.1)
  unfolding apply_proposal close_entry
  apply_proposal-commit idx p g f ks b k =
      let g' = stack_writes idx p.writes g in
      unfold close_entry in
      finish-commit idx g' (stage idx p.writes (start eng [] f)) f
        (stack_writes-Agrees idx p.writes g (start eng [] f) ks (b, k, refl))

  -- A proposal that is applied alone, with the four known operations, has the result and leaves the
  -- state that the state machine gives it under the next index, whether it is a conflict, the
  -- engine fails, or it is applied, where the state machine has no sync of its own to do.
  pub single_refines_fsm :
      (p : Proposal) (d : Direct eng)
      → All IsKnown p.writes
      → let r = apply_decoded eng policy (add64 d.index 1) p [] d.fsm in
        let s = apply_batch_direct eng (p ∷ []) d in
        (s.0 ≡ r.0 ∷ []) × (s.1.fsm ≡ r.2) × (s.1.index ≡ add64 d.index 1)
  unfolding apply_batch_direct group_entries entries stack_entry
  single_refines_fsm p d ks = elim (Bool-cases (detect_conflict d.fsm.key_epoch [] p.read_set)) [
    | inl clash ↦
        rw
          (
            apply_batch_direct,
            group_entries,
            entries,
            stack_entry,
            clash,
            apply_decoded_conflict (add64 d.index 1) p d.fsm clash,
          )
          (unfold finish_group commit_group to_notify is_applied in
            (refl, λ j. record d.fsm { notified = append-nil d.fsm.notified j }, refl))
    | inr clear ↦
        let idx = add64 d.index 1 in
        let g : Group = record (new_group eng d) { index = idx } in
        let s =
          finish_group-commit idx p (close_entry idx (stack_writes idx p.writes g)) d.fsm
            (unfold close_entry in refl)
            (unfold close_entry in stack_writes-index idx p.writes g) in
        let c = apply_proposal-commit idx p g d.fsm ks refl refl in
        let r = reported-apply_decoded idx p d.fsm clear in rw (clear, r.0, r.1, c.0, c.1) s
  ]

-- ===== src/Fsm/Overdraft.antt =====
-- Two debits of one key with a credit between them.
use dpx.Base.{ℕ, ◌<◌, ◌≡◌, refl, Bytes, true, false, [], ◌∷◌, some, lookup, =ᵇ_iff, arith}
use dpx.Engine.{BatchOp, merge}
use dpx.Proposal.{ReadEntry, WriteEntry, op_credit, op_debit}
use dpx.Fsm.{
  Staged, stage, stage_one, write_op, epoch_record, epoch_of, entry_conflicts, detect_conflict,
}
use dpx.Fsm.Staging.{epoch_of-insert}

abbrev pub debit_write : Bytes → Bytes → WriteEntry
debit_write k v = record { op = op_debit; key = k; value = v }

abbrev pub credit_write : Bytes → Bytes → WriteEntry
credit_write k v = record { op = op_credit; key = k; value = v }

-- What a transaction's debit of the key has read.
abbrev pub debit_read : Bytes → ℕ → ReadEntry
debit_read k e = record { key = k; epoch = e; is_debit = true }

staged_one :
    (i : ℕ) (w : WriteEntry) (op : BatchOp) (st : Staged)
    → write_op w ≡ some op
    → epoch_of (stage i (w ∷ []) st).key_epoch w.key ≡ epoch_record i w
unfolding stage stage_one
staged_one i w op st e = rw (
  stage,
  e,
  epoch_of-insert w.key w.key (epoch_record i w) st.key_epoch,
  (=ᵇ_iff w.key w.key).1 refl,
)

is_merged :
    (k v : Bytes)
    → (write_op (debit_write k v) ≡ some (merge k v))
      × (write_op (credit_write k v) ≡ some (merge k v))
unfolding write_op
is_merged k v = (refl, refl)

-- A credit hides an earlier debit: a debit that read the key before another debit of it was applied
-- is a conflict, and is none once a credit of the key has been applied behind that debit, since
-- only the last record of a key is kept.
pub credit_hides_debit :
    (k u v : Bytes) (st : Staged) (e i j : ℕ)
    → e < i
    → let debited = stage i (debit_write k u ∷ []) st in
      let credited = stage j (credit_write k v ∷ []) debited in
      (detect_conflict debited.key_epoch [] (debit_read k e ∷ []) ≡ true)
      × (detect_conflict credited.key_epoch [] (debit_read k e ∷ []) ≡ false)
unfolding detect_conflict entry_conflicts epoch_record lookup
credit_hides_debit k u v st e i j h =
    let debited = stage i (debit_write k u ∷ []) st in
    let a = staged_one i (debit_write k u) (merge k u) st (is_merged k u).0 in
    let b = staged_one j (credit_write k v) (merge k v) debited (is_merged k v).1 in
    (
      rw (detect_conflict, entry_conflicts, a) (unfold epoch_record in ground arith),
      rw (detect_conflict, entry_conflicts, b) (unfold epoch_record in ground arith),
    )

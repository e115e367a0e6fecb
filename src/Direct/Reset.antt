-- ===== src/Direct/Reset.antt =====
-- The index of a proposer that has been opened on a store with epochs.
use dpx.Base.{
  ℕ, ◌≤◌, Bytes, false, ◌≡◌, refl, ◌∙◌, List, [], ◌∷◌, Option, some, Option-cases, inl, inr, Result,
  ok, err, panic, arith, lookup, =ᵇ_iff,
}
use dpx.Codec.{add64, encode_epoch_record, encode_uint64}
use dpx.Engine.{BatchOp, StorageEngine, set, effects, is_reserved, applied_key, version_key}
use dpx.Engine.Reserved.{reserved_apart, version_key_reserved, applied_key_reserved}
use dpx.Proposal.{ReadEntry, Proposal, op_set}
use dpx.Fsm.{
  FsmError, applied_ok, detect_conflict, entry_conflicts, epoch_of, write_op, epoch_record, Fsm,
  open_fsm,
}
use dpx.Fsm.Staging.{epoch_of-insert}
use dpx.Direct.{
  stack_write, stack_writes, close_entry, stack_entry, entries, group_entries, is_applied,
  fail_applied, Direct, commit_group, finish_group, apply_batch_direct, open_direct, started,
}

-- A transaction that sets one key.
abbrev pub set_key : Bytes → Bytes → Proposal
set_key k v = record {
  read_set = [];
  writes = record { op = op_set; key = k; value = v } ∷ [];
  timestamp_wall = 0;
  timestamp_counter = 0;
}

abbrev pub plain_read_at : Bytes → ℕ → ReadEntry
plain_read_at k e = record { key = k; epoch = e; is_debit = false }

abbrev pub set_batch : ℕ → Bytes → Bytes → List BatchOp
set_batch i k v =
    set k v
    ∷ set (version_key k) (encode_epoch_record (record { epoch = i; is_credit = false }))
    ∷ set applied_key (encode_uint64 i)
    ∷ []

pub effects-set_batch :
    (i : ℕ) (k v : Bytes) (old : Option Bytes)
    → is_reserved k ≡ false
    → effects k (set_batch i k v) old ≡ some v
unfolding effects
effects-set_batch i k v old user = rw (
  (=ᵇ_iff k k).1 refl,
  reserved_apart (version_key k) k (version_key_reserved k) user,
  reserved_apart applied_key k applied_key_reserved user,
)

module _ (eng : StorageEngine) where
  -- What an applied proposal of one write leaves.
  applied_set :
      (k v : Bytes) (d : Direct eng)
      → is_reserved k ≡ false
      → let r = apply_batch_direct eng (set_key k v ∷ []) d in
        r.0 ≡ applied_ok ∷ []
        → (epoch_of r.1.fsm.key_epoch k ≡ record { epoch = add64 d.index 1; is_credit = false })
          × (eng.get r.1.fsm.store k ≡ some v)
  unfolding apply_batch_direct group_entries entries stack_entry stack_writes stack_write
      close_entry finish_group commit_group detect_conflict write_op epoch_record fail_applied
      is_applied
  applied_set k v d user done =
      let i = add64 d.index 1 in
      elim (Option-cases (eng.apply_batch (set_batch i k v) d.fsm.store)) [
        | inl e ↦ absurd (ground (arith, e, done))
        | inr (s, e) ↦ rw e (
          rw
              (
                epoch_of-insert k k (record { epoch = i; is_credit = false }) d.fsm.key_epoch,
                (=ᵇ_iff k k).1 refl,
              )
              refl,
          eng.get-apply_batch (set_batch i k v) d.fsm.store s k e
              ∙ effects-set_batch i k v (eng.get d.fsm.store k) user,
        )
      ]

  started-index :
      (r : Result FsmError (Fsm eng)) (d : Direct eng) → started eng r ≡ ok d → d.index ≡ 0
  started-index (ok f) d h = ground arith
  started-index (err e) d h = absurd (ground arith)
  started-index panic d h = absurd (ground arith)

  -- A reopened proposer misses conflicts: its index starts again at one, so that its first proposal,
  -- which sets the key `k`, records an epoch that is not above the epoch of any read of `k` with a
  -- positive one. Such a read passes the check although the value of `k` has changed.
  pub reopened_misses_conflict :
      (seq : ℕ) (s : eng.State) (d : Direct eng) (k v : Bytes) (e : ℕ)
      → open_direct eng seq s ≡ ok d
      → is_reserved k ≡ false
      → 1 ≤ e
      → let r = apply_batch_direct eng (set_key k v ∷ []) d in
        r.0 ≡ applied_ok ∷ []
        → (detect_conflict r.1.fsm.key_epoch [] (plain_read_at k e ∷ []) ≡ false)
          × (eng.get r.1.fsm.store k ≡ some v)
  unfolding detect_conflict entry_conflicts lookup
  reopened_misses_conflict seq s d k v e opened user positive done =
      let (epoch, value) = applied_set k v d user done in
      let zero_index = started-index (open_fsm eng seq s) d (unfold open_direct in opened) in
      (rw (epoch, zero_index) (unfold add64 in ground arith), value)

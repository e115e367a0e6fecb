-- ===== src/ShardedDirect/Inline.antt =====
-- One shard over an engine with batches, against the direct proposer and the state machine.
use dpx.Base.{
  ℕ, true, false, ◌≡◌, refl, sym, ap, ◌∙◌, All, List, [], ◌∷◌, ◌++◌, append-nil, append_assoc,
  Bool-cases, Option-cases, inl, inr, leb, length, ==_iff,
}
use dpx.Codec.{add64, encode_uint64}
use dpx.Engine.{StorageEngine, set, applied_key}
use dpx.Proposal.{WriteEntry, Proposal}
use dpx.Fsm.{
  SyncPolicy, is_sync_batch, ApplyResult, detect_conflict, Fsm, apply_decoded, applied_ok,
  conflicted,
}
use dpx.Direct.{
  max_stack_shadow, Group, stack_write, stack_writes, close_entry, stack_entry, entries,
  group_entries, is_applied, fail_applied, to_notify, Direct, new_group, commit_group, finish_group,
  apply_batch_direct,
}
use dpx.Direct.Single.{IsKnown, single_refines_fsm}
use dpx.ShardedDirect.{
  ShardedDirect, inline_conflict, record_epochs, inline_ops, commit_batch, apply_inline, put_shard,
  Commit,
}

pub stack_writes-batch :
    (idx : ℕ) (ws : List WriteEntry) (g : Group)
    → (stack_writes idx ws g).batch ≡ g.batch ++ inline_ops idx ws
unfolding stack_writes stack_write inline_ops
stack_writes-batch idx [] g = sym (append-nil g.batch)
stack_writes-batch idx (w ∷ ws) g =
    rw (stack_writes-batch idx ws (stack_write idx w g)) (simp append_assoc)

pub stack_writes-key_epoch :
    (idx : ℕ) (ws : List WriteEntry) (g : Group)
    → (stack_writes idx ws g).key_epoch ≡ record_epochs idx ws g.key_epoch
unfolding stack_writes stack_write record_epochs
stack_writes-key_epoch idx [] g = refl
stack_writes-key_epoch idx (w ∷ ws) g = stack_writes-key_epoch idx ws (stack_write idx w g)

pub stack_writes-index :
    (idx : ℕ) (ws : List WriteEntry) (g : Group) → (stack_writes idx ws g).index ≡ g.index
unfolding stack_writes stack_write
stack_writes-index idx [] g = refl
stack_writes-index idx (w ∷ ws) g = stack_writes-index idx ws (stack_write idx w g)

pub apply_inline_blocked :
    {S : Type 0} (commit : Commit S) (i : ℕ) (p : Proposal) (d : ShardedDirect S)
    → inline_conflict (d.shards i).key_epoch p ≡ true
    → apply_inline commit i p d
      ≡ (conflicted, put_shard i (record (d.shards i) { index = add64 (d.shards i).index 1 }) d)
unfolding apply_inline
apply_inline_blocked commit i p d h = rw h refl

abbrev first_or : ApplyResult → List ApplyResult → ApplyResult
first_or r [] = r
first_or r (x ∷ xs) = x

module _ (eng : StorageEngine) where
  -- A shard with the shared engine, as a state machine.
  abbrev pub shard_view : ℕ → ShardedDirect eng.State → Fsm eng
  shard_view i d =
      let sp = d.shards i in
      record {
        applied = sp.applied;
        store = d.store;
        key_epoch = sp.key_epoch;
        notified = d.notified;
      }

  -- What the shard's call and the direct proposer's have in common.
  abbrev SameOutcome :
      ℕ → ApplyResult × ShardedDirect eng.State → List ApplyResult × Direct eng → Type 0
  SameOutcome i s r =
      (r.0 ≡ s.0 ∷ []) × (r.1.fsm ≡ shard_view i s.1) × (r.1.index ≡ (s.1.shards i).index)

  -- The inline call of a proposal that passes, and the direct proposer's behind its loop.
  passed-SameOutcome :
      (i : ℕ) (p : Proposal) (d : ShardedDirect eng.State) (g : Group)
      → inline_conflict (d.shards i).key_epoch p ≡ false
      → let idx = add64 (d.shards i).index 1 in
        g.batch ≡ inline_ops idx p.writes ++ (set applied_key (encode_uint64 idx) ∷ [])
        → g.key_epoch ≡ record_epochs idx p.writes (d.shards i).key_epoch
        → g.index ≡ idx
        → g.has_write ≡ true
        → SameOutcome i
            (apply_inline (commit_batch eng) i p d)
            (finish_group eng (p ∷ []) (applied_ok ∷ []) g (shard_view i d))
  unfolding finish_group commit_group fail_applied to_notify is_applied apply_inline commit_batch
  passed-SameOutcome i p d g clear b k n w =
      let self = (==_iff i i).1 refl in
      elim (Option-cases (eng.apply_batch g.batch d.store)) [
        | inl e ↦
            rw (w, clear, ← b, e, self, k, n)
              (
                refl,
                λ j. record (shard_view i d) {
                  store = eng.failed_batch (b j) d.store;
                  key_epoch =
                      record_epochs (add64 (d.shards i).index 1) p.writes (d.shards i).key_epoch;
                  notified = append-nil d.notified j;
                },
                refl,
              )
        | inr (s, e) ↦ rw (w, clear, ← b, e, self, k, n) (refl, refl, refl)
      ]

  inline-SameOutcome :
      (i : ℕ) (p : Proposal) (d : ShardedDirect eng.State)
      → leb (length p.read_set) max_stack_shadow ≡ true
      → SameOutcome i (apply_inline (commit_batch eng) i p d) (
          apply_batch_direct eng
            (p ∷ [])
            (record { fsm = shard_view i d; index = (d.shards i).index }))
  unfolding apply_batch_direct group_entries entries stack_entry close_entry
  inline-SameOutcome i p d few =
      let sp = d.shards i in
      let idx = add64 sp.index 1 in
      let f = shard_view i d in
      let direct : Direct eng = record { fsm = f; index = sp.index } in
      let g : Group = record (new_group eng direct) { index = idx } in
      elim (Bool-cases (detect_conflict sp.key_epoch [] p.read_set)) [
        | inl clash ↦
            rw
              (
                clash,
                apply_inline_blocked (commit_batch eng) i p d
                    (unfold inline_conflict in rw (few, clash) refl),
                (==_iff i i).1 refl,
              )
              (unfold finish_group commit_group to_notify is_applied in
                (refl, λ j. record f { notified = append-nil f.notified j }, refl))
        | inr clear ↦ rw clear (
            passed-SameOutcome i p d (close_entry idx (stack_writes idx p.writes g))
              (unfold inline_conflict in rw (few, clear) refl)
              (ap (λ b. b ++ (set applied_key (encode_uint64 idx) ∷ []))
                (stack_writes-batch idx p.writes g))
              (stack_writes-key_epoch idx p.writes g) (stack_writes-index idx p.writes g) refl)
      ]

  module _ (policy : SyncPolicy) (unsynced : is_sync_batch policy ≡ false) where
    -- On an engine with batches, against a state machine whose policy is not to call `Sync` behind each
    -- batch: a proposal of at most 64 reads, with the four known operations, has on its shard the result that the state machine gives it under the shard's next index, with the
    -- shard's epochs and the shared engine, and leaves the state that the state machine does.
    pub inline_refines_fsm :
        (i : ℕ) (p : Proposal) (d : ShardedDirect eng.State)
        → leb (length p.read_set) max_stack_shadow ≡ true
        → All IsKnown p.writes
        → let s = apply_inline (commit_batch eng) i p d in
          let idx = add64 (d.shards i).index 1 in
          let r = apply_decoded eng policy idx p [] (shard_view i d) in
          (s.0 ≡ r.0) × (shard_view i s.1 ≡ r.2) × ((s.1.shards i).index ≡ idx)
    inline_refines_fsm i p d few ks =
        let direct : Direct eng = record { fsm = shard_view i d; index = (d.shards i).index } in
        let (results, fsm, index) = inline-SameOutcome i p d few in
        let (results', fsm', index') = single_refines_fsm eng policy unsynced p direct ks in
        (ap (first_or applied_ok) (sym results ∙ results'), sym fsm ∙ fsm', sym index ∙ index')

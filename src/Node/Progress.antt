-- ===== src/Node/Progress.antt =====
-- A transaction that no other runs against.
use dpx.Base.{
  ℕ, Bytes, false, ◌≡◌, refl, sym, ap, ◌∙◌, All, List, [], ◌∷◌, ◌++◌, Option, none, some, ok,
  Option-cases, inl, inr, arith, lookup,
}
use dpx.Codec.{EpochRecord, no_epoch, add64, encode_uint64, decode_epoch_record_or_zero}
use mathlib.Core.Path.{subst}
use dpx.Codec.Records.{decode_or_zero-encode}
use dpx.Engine.{BatchOp, set, StorageEngine, effects, is_reserved, applied_key, version_key}
use dpx.Engine.Reserved.{reserved_apart, version_key_reserved, applied_key_reserved}
use dpx.Proposal.{ReadEntry, WriteEntry, Proposal}
use dpx.Fsm.{Fsm, Epochs, epoch_of, write_op, applied_ok, detect_conflict}
use dpx.Fsm.Conflict.{Passes, detect_conflict_iff}
use dpx.Fsm.Recorded.{IsRecorded, stored}
use dpx.Fsm.Restart.{EpochsFit}
use dpx.Tx.{Snapshot, Tx, is_empty, validate}
use dpx.Tx.Calls.{Calls, epoch_in, IsHydrated, read_set_slice-IsHydrated}
use dpx.Direct.{
  Direct, Group, known_op, new_group, stack_entry, close_entry, entries, group_entries,
  finish_group, commit_group, apply_batch_direct,
}
use dpx.ShardedDirect.{inline_ops}
use dpx.ShardedDirect.Inline.{stack_writes-batch}
use dpx.Node.{
  NodeError, Body, done, outcome, proposal_of, Node, propose_tx, after_fn, run_once, run_in_tx,
  count_tried, Retry, answered,
}

-- What the writes of a transaction do, one behind the other.
abbrev pub written_ops : List WriteEntry → List BatchOp
written_ops [] = []
written_ops (w ∷ ws) = known_op (write_op w) ++ written_ops ws

effects-inline_ops :
    (idx : ℕ) (k : Bytes) (ws : List WriteEntry) (old : Option Bytes)
    → is_reserved k ≡ false
    → effects k (inline_ops idx ws ++ (set applied_key (encode_uint64 idx) ∷ [])) old
      ≡ effects k (written_ops ws) old
unfolding inline_ops effects
effects-inline_ops idx k [] old user =
    rw (reserved_apart applied_key k applied_key_reserved user) refl
effects-inline_ops idx k (w ∷ ws) old user =
    let apart = reserved_apart (version_key w.key) k (version_key_reserved w.key) user in
    elim (Option-cases (write_op w)) [
      | inl none_known ↦ rw (none_known, apart) (effects-inline_ops idx k ws old user)
      | inr (op, known) ↦ rw (known, apart) (effects-inline_ops idx k ws _ user)
    ]

abbrev version_in : Option Bytes → EpochRecord
version_in none = no_epoch
version_in (some v) = decode_epoch_record_or_zero v

-- `GetVersion`: the record under the version key, the zero record where there is none.
abbrev pub HasVersionsOf : (eng : StorageEngine) → eng.State → Snapshot → Type 0
HasVersionsOf eng s snap =
    (k : Bytes) → epoch_in snap k ≡ (version_in (eng.get s (version_key k))).epoch

module _ (eng : StorageEngine) where
  recorded-epoch_in :
      (f : Fsm eng) (snap : Snapshot) (k : Bytes)
      → IsRecorded eng f
      → EpochsFit f.key_epoch
      → HasVersionsOf eng f.store snap
      → epoch_in snap k ≡ (epoch_of f.key_epoch k).epoch
  unfolding epoch_of decode_epoch_record_or_zero
  recorded-epoch_in f snap k recorded fit versions = elim (Option-cases (lookup k f.key_epoch)) [
    | inl e ↦ rw e (versions k ∙ ap (λ o. (version_in o).epoch) (recorded k ∙ ap stored e))
    | inr (er, e) ↦ rw e (
        versions k
        ∙ ap (λ o. (version_in o).epoch) (recorded k ∙ ap stored e)
        ∙ ap (λ (r : EpochRecord). r.epoch) (decode_or_zero-encode er (fit k er e)))
  ]

  pub single_applied :
      (p : Proposal) (d : Direct eng) (s : eng.State)
      → detect_conflict d.fsm.key_epoch [] p.read_set ≡ false
      → let idx = add64 d.index 1 in
        eng.apply_batch
            (inline_ops idx p.writes ++ (set applied_key (encode_uint64 idx) ∷ []))
            d.fsm.store
          ≡ some s
        → let r = apply_batch_direct eng (p ∷ []) d in (r.0 ≡ applied_ok ∷ []) × (r.1.fsm.store ≡ s)
  unfolding apply_batch_direct group_entries entries stack_entry close_entry finish_group
      commit_group
  single_applied p d s clear committed =
      let idx = add64 d.index 1 in
      let g : Group = record (new_group eng d) { index = idx } in
      rw (clear, stack_writes-batch idx p.writes g, committed) (rw clear refl, refl)

  fresh_reads_pass :
      (m : Epochs) (snap : Snapshot) (rs : List ReadEntry)
      → ((k : Bytes) → epoch_in snap k ≡ (epoch_of m k).epoch)
      → All (IsHydrated snap) rs
      → All (Passes m []) rs
  unfolding lookup
  fresh_reads_pass m snap [] same h = tt
  fresh_reads_pass m snap (re ∷ rs) same ((user, known), hs) = (
    (inl (omega (arith, known, same re.key)), λ s e. absurd (cc)),
    fresh_reads_pass m snap rs same hs,
  )

module _ (eng : StorageEngine) (get_snapshot : eng.State → Option Snapshot) (tick : ℕ × ℕ) where
  -- The engine takes every batch.
  abbrev pub Accepts : eng.State → Type 0
  Accepts s = (ops : List BatchOp) → (s' : eng.State) × (eng.apply_batch ops s ≡ some s')

  -- The values after the transaction are those before it with its writes done.
  abbrev pub Commits : Tx → eng.State → Option NodeError × Node eng get_snapshot tick → Type 0
  Commits tx s r =
      (r.0 ≡ none)
      × ((k : Bytes)
          → is_reserved k ≡ false
          → eng.get r.1.proposer.fsm.store k ≡ effects k (written_ops tx.writes) (eng.get s k))

  propose_tx-Commits :
      (n : Node eng get_snapshot tick) (snap : Snapshot) {tx : Tx}
      → let f = n.proposer.fsm in
        IsRecorded eng f
        → EpochsFit f.key_epoch
        → HasVersionsOf eng f.store snap
        → Accepts f.store
        → Calls snap tx
        → validate tx ≡ ok tt
        → Commits tx f.store (propose_tx eng get_snapshot tick answered snap tx n)
  unfolding propose_tx outcome
  propose_tx-Commits n snap {tx} recorded fit versions accepts calls valid =
      let d = n.proposer in
      let p = proposal_of tick snap tx in
      let clear = (detect_conflict_iff d.fsm.key_epoch [] p.read_set).1 (
        fresh_reads_pass eng d.fsm.key_epoch snap p.read_set
          (λ k. recorded-epoch_in eng d.fsm snap k recorded fit versions)
          (read_set_slice-IsHydrated snap calls)) in
      let idx = add64 d.index 1 in
      let ops = inline_ops idx p.writes ++ (set applied_key (encode_uint64 idx) ∷ []) in
      let (s, committed) = accepts ops in
      let (results, stored_in) = single_applied eng p d s clear committed in
      rw (propose_tx, valid, results)
        (
          refl,
          λ k user.
              ap (λ s. eng.get s k) stored_in
              ∙ eng.get-apply_batch ops d.fsm.store s k committed
              ∙ effects-inline_ops idx k p.writes (eng.get d.fsm.store k) user,
        )

  -- An attempt without an error ends the retries.
  abbrev pub StopsAtOnce : Retry eng get_snapshot tick → Type 0
  StopsAtOnce retry =
      (f : Node eng get_snapshot tick → Option NodeError × Node eng get_snapshot tick)
      → (n : Node eng get_snapshot tick) → (f n).0 ≡ none
      → retry f n ≡ (done, (f n).1)

  -- A transaction with no other beside it commits at its first attempt: on an open node whose engine
  -- holds the epochs that the proposer has in memory, all below 2 ^ 64, and takes every batch, and
  -- whose proposer is not shut down meanwhile, let the function make any calls on the snapshot and
  -- return no error, with buffers that are valid and have writes. Then the transaction returns no error, and leaves each user's key with the
  -- value that its writes make of the one before, one behind the other.
  pub quiet_commit :
      (retry : Retry eng get_snapshot tick) (fn : Body) (n : Node eng get_snapshot tick)
      → (snap : Snapshot) {tx : Tx} (seq : ℕ)
      → let f = n.proposer.fsm in
        StopsAtOnce retry
        → n.closed ≡ false
        → IsRecorded eng f
        → EpochsFit f.key_epoch
        → Accepts f.store
        → get_snapshot f.store ≡ some snap
        → HasVersionsOf eng f.store snap
        → fn snap n.seq_counter ≡ (none, tx, seq)
        → Calls snap tx
        → validate tx ≡ ok tt
        → is_empty tx ≡ false
        → Commits tx f.store (run_in_tx eng get_snapshot tick retry (λ m. answered) fn n)
  unfolding run_in_tx run_once count_tried
  quiet_commit retry fn n snap {tx} seq stops opened recorded fit accepts taken versions ran calls
        valid full =
      let n' : Node eng get_snapshot tick = record n { seq_counter = seq } in
      let once : run_once eng get_snapshot tick answered fn n
          ≡ propose_tx eng get_snapshot tick answered snap tx n' =
        rw (run_once, taken)
          (ap (λ r. after_fn eng get_snapshot tick answered snap r n) ran ∙ rw full refl) in
      let (fine, values) =
        subst (Commits tx n.proposer.fsm.store) (sym once)
          (propose_tx-Commits n' snap recorded fit versions accepts calls valid) in
      let ended = stops (run_once eng get_snapshot tick answered fn) n fine in
      rw (run_in_tx, ended) (simp opened (refl, values))

-- ===== src/Tx/Reads.antt =====
-- `RunInTx` from the snapshot to the commit: the reads of a transaction that passes the check.
use dpx.Base.{Bytes, ◌≡◌, refl, ◌<◌, false, All, List, [], ◌∷◌, Option, some, none, sym, ◌∙◌, ap}
use dpx.Engine.{is_reserved, StorageEngine}
use dpx.Proposal.{ReadEntry}
use dpx.Fsm.{SyncPolicy, Epochs, Fsm, Log, apply_batch, detect_conflict}
use dpx.Fsm.Conflict.{Passes, detect_conflict_iff}
use dpx.Fsm.Unchanged.{read_unchanged}
use mathlib.Core.Path.{subst}
use dpx.Tx.{Snapshot, Tx, Answer, got, not_found, read_set_slice, or_missing, hydrate, plain_read}
use dpx.Tx.Gets.{Gets, Gets-Calls, Gets-Held, All-hydrate_all, hydrate-plain}
use dpx.Tx.Calls.{Calls, epoch_in, IsHydrated, read_set_slice-IsHydrated}

abbrev pub answer : Option Bytes → Answer Bytes
answer none = not_found
answer (some v) = got v

or_missing-answer : (o : Option Bytes) → or_missing (answer o) ≡ o
or_missing-answer none = refl
or_missing-answer (some v) = refl

-- The snapshot shows the users' keys of a state of the engine.
abbrev pub IsSnapshotOf : (eng : StorageEngine) → eng.State → Snapshot → Type 0
IsSnapshotOf eng s snap = (k : Bytes) → is_reserved k ≡ false → snap.get k ≡ answer (eng.get s k)

-- A read that is no debit's has in the state the value that the snapshot shows.
abbrev pub IsCurrent : (eng : StorageEngine) → eng.State → Snapshot → ReadEntry → Type 0
IsCurrent eng s snap re = re.is_debit ≡ false → snap.get re.key ≡ answer (eng.get s re.key)

module _ (eng : StorageEngine) (policy : SyncPolicy) (f : Fsm eng) (logs : List Log)
    (snap : Snapshot) (taken : IsSnapshotOf eng f.store snap)
    (later : (k : Bytes) → All (λ (l : Log). epoch_in snap k < l.index) logs) where
  passed-IsCurrent :
      (re : ReadEntry) (shadow : Epochs)
      → IsHydrated snap re
      → Passes (apply_batch eng policy logs f).1.key_epoch shadow re
      → IsCurrent eng (apply_batch eng policy logs f).1.store snap re
  passed-IsCurrent re shadow (user, known) passes plain =
      let above : All (λ (l : Log). re.epoch < l.index) logs = rw known (later re.key) in
      taken re.key user
      ∙ ap answer (sym (read_unchanged eng policy logs f re shadow (user, plain, above) passes))

  all_passed-IsCurrent :
      (rs : List ReadEntry) (shadow : Epochs)
      → All (IsHydrated snap) rs
      → All (Passes (apply_batch eng policy logs f).1.key_epoch shadow) rs
      → All (IsCurrent eng (apply_batch eng policy logs f).1.store snap) rs
  all_passed-IsCurrent [] shadow h p = tt
  all_passed-IsCurrent (re ∷ rs) shadow (h, hs) (p, ps) =
      (passed-IsCurrent re shadow h p, all_passed-IsCurrent rs shadow hs ps)

  slice-IsCurrent :
      {tx : Tx} (shadow : Epochs)
      → Calls snap tx
      → detect_conflict (apply_batch eng policy logs f).1.key_epoch shadow (read_set_slice snap tx)
        ≡ false
      → All (IsCurrent eng (apply_batch eng policy logs f).1.store snap) (read_set_slice snap tx)
  slice-IsCurrent {tx} shadow calls clear =
      let rs = read_set_slice snap tx in
      all_passed-IsCurrent rs shadow (read_set_slice-IsHydrated snap calls)
        ((detect_conflict_iff (apply_batch eng policy logs f).1.key_epoch shadow rs).0 clear)

  -- A transaction that commits has got current values: let it read from a snapshot of a state, with
  -- whatever calls, while any logs with indices above the snapshot's epochs are applied to that
  -- state. If its read set then passes the check, then every key for which one of its calls of `Get`
  -- has returned a value, and which no `AtomicAdd` behind that call debits, has that value in the new
  -- state.
  pub committed_reads_current :
      {tx : Tx} (shadow : Epochs) (k v : Bytes)
      → Gets snap k v tx
      → detect_conflict (apply_batch eng policy logs f).1.key_epoch shadow (read_set_slice snap tx)
        ≡ false
      → eng.get (apply_batch eng policy logs f).1.store k ≡ some v
  unfolding read_set_slice
  committed_reads_current {tx} shadow k v gets clear =
      let s' = (apply_batch eng policy logs f).1.store in
      let (shown, held) = Gets-Held snap k v gets in
      let (same_key, plain) = hydrate-plain snap k v in
      let current : IsCurrent eng s' snap (hydrate snap (plain_read k)) =
        All-hydrate_all snap k v (IsCurrent eng s' snap) tx.read_set (plain_read k) held
          (slice-IsCurrent shadow (Gets-Calls snap k v gets) clear) in
      let now : snap.get k ≡ answer (eng.get s' k) =
        subst (λ j. snap.get j ≡ answer (eng.get s' j)) same_key (current plain) in
      sym (or_missing-answer (eng.get s' k)) ∙ ap or_missing (sym now ∙ shown)

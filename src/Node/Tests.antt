-- ===== src/Node/Tests.antt =====
-- A node over the plain engine, with one transaction.
use dpx.Base.{◌≡◌, refl, false, [], ◌∷◌, Option, none, some, arith, ok}
use dpx.Fsm.Tests.{eng, begin, key_a, key_b, program}
use dpx.Fsm.Recorded.{IsRecorded}
use dpx.Fsm.Restart.{EpochsFit}
use dpx.Tx.{
  Snapshot, Tx, new_tx, get, set, got, validate, deletes_credited, is_credited, record_read,
  read_set_slice, hydrate, hydrate_all, is_empty,
}
use dpx.Tx.Calls.{started, got_key, set_key}
use dpx.Tx.Reads.{answer}
use dpx.Direct.{
  stack_write, stack_writes, close_entry, stack_entry, entries, group_entries, is_applied,
  fail_applied, to_notify, commit_group, finish_group, apply_batch_direct,
}
use dpx.Memory.{apply_batch_legacy}
use dpx.Memory.SortedTree.{sorted_tree}
use dpx.Node.Failed.{refused_attempt_keeps_store}
use dpx.Node.{
  outcome, propose_tx, run_in_tx, Node, Body, Tried, done, refused, NodeError, err_conflict,
  run_once, Retry, answered,
}
use dpx.Node.Progress.{HasVersionsOf, Accepts, StopsAtOnce, Commits, quiet_commit}

abbrev state_snapshot : eng.State → Option Snapshot
state_snapshot s = some (record {
  get = λ k. answer (eng.get s k);
  get_version = λ k. got (record { epoch = 0; is_credit = false });
  new_iter = λ start end. [];
  sequence = 4;
})

abbrev node : Node eng state_snapshot (1, 0)
node = record {
  proposer = record { fsm = begin; index = 4 };
  closed = false;
  seq_counter = 0;
  transactions_total = 0;
  exhausted_total = 0;
}

-- It tries once.
abbrev tried :
    Option NodeError × Node eng state_snapshot (1, 0) → Tried × Node eng state_snapshot (1, 0)
tried (none, n) = (done, n)
tried (some e, n) = (refused e, n)

abbrev try_once : Retry eng state_snapshot (1, 0)
try_once f n = tried (f n)

tried_once :
    (r : Option NodeError × Node eng state_snapshot (1, 0)) → r.0 ≡ none → tried r ≡ (done, r.1)
tried_once (none, n) fine = refl
tried_once (some e, n) fine = absurd (ground (arith, fine))

try_once-StopsAtOnce : StopsAtOnce eng state_snapshot (1, 0) try_once
try_once-StopsAtOnce f n fine = tried_once (f n) fine

abbrev copy_a : Snapshot → Tx
copy_a snap = (set key_b (5 ∷ []) (get snap key_a new_tx).1).1

abbrev copies : Body
copies snap seq = (none, copy_a snap, seq)

node_program : Unit {0}
unfolding program get set record_read validate deletes_credited is_credited read_set_slice
    hydrate_all hydrate stack_write stack_writes close_entry stack_entry entries group_entries
    is_applied fail_applied to_notify commit_group finish_group apply_batch_direct outcome
    propose_tx run_once
node_program = tt

abbrev at_begin : Snapshot
at_begin = record {
  get = λ k. answer (eng.get begin.store k);
  get_version = λ k. got (record { epoch = 0; is_credit = false });
  new_iter = λ start end. [];
  sequence = 4;
}

begin-IsRecorded : IsRecorded eng begin
unfolding program
begin-IsRecorded k = refl

begin-EpochsFit : EpochsFit begin.key_epoch
unfolding program
begin-EpochsFit u er h = absurd (ground (arith, h))

unversioned-HasVersionsOf : HasVersionsOf eng begin.store at_begin
unfolding program
unversioned-HasVersionsOf k = refl

plain-Accepts : Accepts eng state_snapshot (1, 0) begin.store
unfolding program
plain-Accepts ops = (apply_batch_legacy sorted_tree ops begin.store, refl)

copied : copies at_begin 0 ≡ (none, copy_a at_begin, 0)
copied = refl

copy_a-validates : validate (copy_a at_begin) ≡ ok tt
unfolding node_program
copy_a-validates = refl

copy_a_writes : is_empty (copy_a at_begin) ≡ false
unfolding node_program
copy_a_writes = refl

quiet_commit_example :
    Commits eng state_snapshot
      (1, 0)
      (copy_a at_begin)
      begin.store
      (run_in_tx eng state_snapshot (1, 0) try_once (λ m. answered) copies node)
quiet_commit_example =
    quiet_commit eng state_snapshot (1, 0) try_once copies node at_begin 0 try_once-StopsAtOnce refl
      begin-IsRecorded begin-EpochsFit plain-Accepts refl unversioned-HasVersionsOf copied
      (set_key (got_key started key_a) key_b (5 ∷ [])) copy_a-validates copy_a_writes

-- The proposer has a newer epoch of `a` than the snapshot.
abbrev behind : Node eng state_snapshot (1, 0)
behind = record node {
  proposer = record {
    fsm = record begin { key_epoch = (key_a, record { epoch = 9; is_credit = false }) ∷ [] };
    index = 9;
  };
}

conflicts : (run_once eng state_snapshot (1, 0) answered copies behind).0 ≡ some err_conflict
unfolding node_program
conflicts = refl

refused_attempt_keeps_store_example :
    (run_once eng state_snapshot (1, 0) answered copies behind).1.proposer.fsm.store ≡ begin.store
refused_attempt_keeps_store_example =
    refused_attempt_keeps_store eng state_snapshot (1, 0) answered copies behind err_conflict
      conflicts (λ e. absurd (ground (arith, e))) (λ e. absurd (ground (arith, e)))

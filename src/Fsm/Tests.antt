-- ===== src/Fsm/Tests.antt =====
-- The state machine over the plain engine, on concrete logs.
use dpx.Base.{
  if◌then◌else◌, none, ap, ok, err, panic, Result, Bytes, ◌≡◌, refl, true, false, All, List, [],
  ◌∷◌, lookup, insert, ◌=ᵇ◌, arith,
}
use mathlib.Core.Path.{subst}
use dpx.Codec.{
  put_uint, encode_int64, decode_int64, add64, uint, encode_epoch_record, encode_uint64,
}
use dpx.Engine.{set, is_reserved, version_key, StorageEngine}
use dpx.Engine.Order.{◌≺◌}
use dpx.Proposal.{DecodeError, WriteEntry, Proposal, ReadEntry, op_set, marshal, codec_runs}
use dpx.Memory.{new_plain, get_plain, apply_batch_legacy, apply_ops, apply_op}
use dpx.Memory.SortedTree.{sorted_tree}
use dpx.Memory.Interface.{plain_engine, apply_plain}
use dpx.Fsm.{
  Fsm, open_fsm, Staged, ApplyResult, Log, applied_ok, sync_full, epoch_of, entry_conflicts,
  detect_conflict, write_op, epoch_record, stage_one, stage, commit, finish, apply_proposal,
  apply_decoded, apply_content, apply_log, apply_logs, apply_batch,
}
use dpx.Fsm.Overdraft.{debit_write, credit_write, debit_read, credit_hides_debit}
use dpx.Fsm.Recorded.{IsUserWrite, HasUserWrites, IsRecorded, apply_batch-IsRecorded}
use dpx.Fsm.Restart.{is_recoverable, EpochsFit, open_rebuilds}
use dpx.Fsm.Unchanged.{passed_reads_current}

unfoldable pub eng : StorageEngine
unfolding plain_engine
eng = plain_engine sorted_tree

abbrev pub key_a : Bytes
key_a = 97 ∷ []

abbrev pub key_b : Bytes
key_b = 98 ∷ []

abbrev writes_b : Proposal
writes_b = record {
  read_set = [];
  writes = record { op = op_set; key = key_b; value = 7 ∷ [] } ∷ [];
  timestamp_wall = 1;
  timestamp_counter = 0;
}

abbrev pub logs : List Log
logs = record { index = 5; is_command = true; content = marshal writes_b } ∷ []

unfoldable pub begin : Fsm eng
unfolding eng plain_engine
begin = record {
  applied = 4;
  store = apply_batch_legacy sorted_tree (set key_a (5 ∷ []) ∷ []) (new_plain sorted_tree);
  key_epoch = [];
  notified = [];
}

unfoldable pub program : Unit {0}
unfolding eng begin plain_engine sorted_tree apply_plain new_plain get_plain apply_batch_legacy
    apply_ops apply_op put_uint uint encode_int64 decode_int64 add64 ◌≺◌ ◌=ᵇ◌ lookup insert
    encode_epoch_record encode_uint64 version_key is_reserved epoch_of entry_conflicts
    detect_conflict write_op epoch_record stage_one stage commit finish apply_proposal apply_decoded
    apply_content apply_log apply_logs apply_batch codec_runs
program = tt

-- It read `a` at epoch 4, and writes it.
abbrev reads_a : Proposal
reads_a = record {
  read_set = record { key = key_a; epoch = 4; is_debit = false } ∷ [];
  writes = record { op = op_set; key = key_a; value = 1 ∷ [] } ∷ [];
  timestamp_wall = 2;
  timestamp_counter = 0;
}

logs_applied : (apply_batch eng sync_full logs begin).0 ≡ applied_ok ∷ []
unfolding program
logs_applied = refl

passes_a :
    detect_conflict (apply_batch eng sync_full logs begin).1.key_epoch [] reads_a.read_set ≡ false
unfolding program
passes_a = refl

pub a_is_fresh : is_reserved key_a ≡ false
unfolding program
a_is_fresh = refl

passed_reads_current_example :
    All
      (λ (re : ReadEntry).
        eng.get (apply_batch eng sync_full logs begin).1.store re.key ≡ eng.get begin.store re.key)
      reads_a.read_set
passed_reads_current_example =
    passed_reads_current eng sync_full logs begin reads_a []
      ((a_is_fresh, refl, (omega arith, tt)), tt) passes_a

abbrev writes_of : Result DecodeError Proposal → List WriteEntry
writes_of (ok p) = p.writes
writes_of (err e) = []
writes_of panic = []

sent-HasUserWrites : All HasUserWrites logs
unfolding program
sent-HasUserWrites = (λ p e. subst (λ ws. All IsUserWrite ws) (ap writes_of e) (refl, tt), tt)

begin-IsRecorded : IsRecorded eng begin
unfolding program
begin-IsRecorded k = refl

no_errors : All (λ (r : ApplyResult). r.error ≡ none) (apply_batch eng sync_full logs begin).0
unfolding program
no_errors = (refl, tt)

apply_batch-IsRecorded_example : IsRecorded eng (apply_batch eng sync_full logs begin).1
apply_batch-IsRecorded_example =
    apply_batch-IsRecorded eng sync_full logs begin sent-HasUserWrites begin-IsRecorded no_errors

abbrev untouched : Staged
untouched = record { batch = []; key_epoch = []; shadow = []; unknown = none }

credit_hides_debit_example :
    let debited = stage 5 (debit_write key_a (encode_int64 1) ∷ []) untouched in
    let credited = stage 6 (credit_write key_a (encode_int64 2) ∷ []) debited in
    (detect_conflict debited.key_epoch [] (debit_read key_a 4 ∷ []) ≡ true)
    × (detect_conflict credited.key_epoch [] (debit_read key_a 4 ∷ []) ≡ false)
credit_hides_debit_example =
    credit_hides_debit key_a (encode_int64 1) (encode_int64 2) untouched 4 5 6 (omega arith)

after_logs : Fsm eng
after_logs = (apply_batch eng sync_full logs begin).1

after_logs-EpochsFit : EpochsFit after_logs.key_epoch
unfolding program after_logs
after_logs-EpochsFit u er h = ground arith

open_rebuilds_example :
    (f' : Fsm eng) × (open_fsm eng 5 after_logs.store ≡ ok f')
    × (f'.store ≡ after_logs.store)
    × (f'.applied ≡ 5)
    × ((u : Bytes)
        → lookup u f'.key_epoch
          ≡ (if is_recoverable u then lookup u after_logs.key_epoch else none))
unfolding after_logs
open_rebuilds_example =
    open_rebuilds eng after_logs
      (apply_batch-IsRecorded eng sync_full logs begin sent-HasUserWrites begin-IsRecorded
        no_errors)
      after_logs-EpochsFit 5

-- ===== src/Direct/Tests.antt =====
-- The proposer of an embedded node over the plain engine.
use dpx.Base.{◌≡◌, refl, false, List, [], ◌∷◌, some, ok, arith}
use dpx.Proposal.{Proposal}
use dpx.Fsm.{sync_full, apply_decoded, applied_ok, detect_conflict, open_fsm, rebuild}
use dpx.Fsm.Conflict.{Passes}
use dpx.Fsm.Tests.{eng, begin, key_a, key_b, program, a_is_fresh}
use dpx.Engine.{set}
use dpx.Memory.{walk, raw_iter_legacy}
use dpx.Direct.{
  Direct, stack_write, stack_writes, close_entry, stack_entry, map_entry, entries, group_entries,
  is_applied, fail_applied, to_notify, commit_group, finish_group, apply_batch_direct, open_direct,
}
use dpx.Direct.Single.{single_refines_fsm}
use dpx.Direct.Groups.{group_keeps_passed_read}
use dpx.Direct.Reset.{set_key, plain_read_at, reopened_misses_conflict}

unfoldable pub direct_program : Unit {0}
unfolding program stack_write stack_writes close_entry stack_entry map_entry entries group_entries
    is_applied fail_applied to_notify commit_group finish_group apply_batch_direct open_direct
direct_program = tt

abbrev pub embedded : Direct eng
embedded = record { fsm = begin; index = 4 }

single_refines_fsm_example :
    let r = apply_decoded eng sync_full 5 (set_key key_b (7 ∷ [])) [] begin in
    let s = apply_batch_direct eng (set_key key_b (7 ∷ []) ∷ []) embedded in
    (s.0 ≡ r.0 ∷ []) × (s.1.fsm ≡ r.2) × (s.1.index ≡ 5)
unfolding direct_program
single_refines_fsm_example =
    single_refines_fsm eng sync_full refl (set_key key_b (7 ∷ [])) embedded
      ((set key_b (7 ∷ []), refl), tt)

abbrev pair : List Proposal
pair = set_key key_b (7 ∷ []) ∷ set_key key_b (8 ∷ []) ∷ []

pair-Passes :
    Passes (apply_batch_direct eng pair embedded).1.fsm.key_epoch [] (plain_read_at key_a 4)
unfolding direct_program
pair-Passes = ground arith

group_keeps_passed_read_example :
    eng.get (apply_batch_direct eng pair embedded).1.fsm.store key_a ≡ eng.get begin.store key_a
group_keeps_passed_read_example =
    group_keeps_passed_read eng pair embedded (plain_read_at key_a 4) [] a_is_fresh refl
      (omega arith) (omega arith) pair-Passes

abbrev reopened : Direct eng
reopened = record {
  fsm = record { applied = 4; store = begin.store; key_epoch = []; notified = [] };
  index = 0;
}

opens : open_direct eng 4 begin.store ≡ ok reopened
unfolding direct_program open_fsm rebuild walk raw_iter_legacy
opens = refl

sets_a : (apply_batch_direct eng (set_key key_a (9 ∷ []) ∷ []) reopened).0 ≡ applied_ok ∷ []
unfolding direct_program
sets_a = refl

reopened_misses_conflict_example :
    let r = apply_batch_direct eng (set_key key_a (9 ∷ []) ∷ []) reopened in
    (detect_conflict r.1.fsm.key_epoch [] (plain_read_at key_a 4 ∷ []) ≡ false)
    × (eng.get r.1.fsm.store key_a ≡ some (9 ∷ []))
reopened_misses_conflict_example =
    reopened_misses_conflict eng 4 begin.store reopened key_a (9 ∷ []) 4 opens a_is_fresh
      (omega arith) sets_a

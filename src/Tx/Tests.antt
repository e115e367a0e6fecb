-- ===== src/Tx/Tests.antt =====
-- Transactions at concrete calls.
use dpx.Base.{ok, some, ℕ, Bytes, ◌≡◌, refl, true, false, [], ◌∷◌, arith, ◌-◌}
use dpx.Codec.{is_positive, is_negative, encode_int64, two64}
use dpx.Engine.{is_reserved}
use dpx.Proposal.{op_delete, op_credit}
use dpx.Fsm.{sync_full, apply_batch, detect_conflict}
use dpx.Fsm.Tests.{eng, begin, logs, key_a, key_b, program}
use dpx.Tx.{
  Snapshot, Tx, new_tx, get, set, atomic_add, record_read, debit, hydrate, hydrate_all,
  read_set_slice, got,
}
use dpx.Tx.Calls.{Calls, started, got_key, set_key, added, IsSound, Calls-IsSound}
use dpx.Tx.Downgrade.{credited, debit_downgrades_read}
use dpx.Tx.Reads.{answer, committed_reads_current}
use dpx.Tx.Gets.{returned, then_set}

-- A snapshot of `begin`.
abbrev snap : Snapshot
snap = record {
  get = λ k. answer (eng.get begin.store k);
  get_version = λ k. got (record { epoch = 4; is_credit = false });
  new_iter = λ start end. (key_a, 1 ∷ []) ∷ (key_b, 2 ∷ []) ∷ [];
  sequence = 4;
}

abbrev minus_one : ℕ
minus_one = two64 - 1

abbrev key_c : Bytes
key_c = 99 ∷ []

-- It takes one from `c`, reads `a`, and sets `b`.
abbrev transfer : Tx
transfer = (set key_b (7 ∷ []) (get snap key_a (atomic_add snap key_c minus_one new_tx).1).1).1

transfer-Calls : Calls snap transfer
transfer-Calls = set_key (got_key (added started key_c minus_one) key_a) key_b (7 ∷ [])

-- Both orders of a deletion and a credit of `a`.
abbrev torn : Tx
torn = record {
  read_set = [];
  writes =
      record { op = op_credit; key = key_a; value = encode_int64 1 }
      ∷ record { op = op_delete; key = key_a; value = [] }
      ∷ [];
}

Calls-IsSound_example : IsSound snap transfer
Calls-IsSound_example = Calls-IsSound snap transfer-Calls

passes_transfer :
    detect_conflict
      (apply_batch eng sync_full logs begin).1.key_epoch
      []
      (read_set_slice snap transfer)
    ≡ false
unfolding program get set atomic_add record_read debit hydrate hydrate_all read_set_slice
    is_positive is_negative
passes_transfer = refl

gets_a : (get snap key_a (atomic_add snap key_c minus_one new_tx).1).0 ≡ ok (5 ∷ [])
unfolding program get record_read
gets_a = refl

committed_reads_current_example :
    eng.get (apply_batch eng sync_full logs begin).1.store key_a ≡ some (5 ∷ [])
committed_reads_current_example =
    committed_reads_current eng sync_full begin logs snap (λ k user. refl) (λ k. (omega arith, tt))
      [] key_a (5 ∷ []) (then_set (returned (added started key_c minus_one) gets_a) key_b (7 ∷ []))
      passes_transfer

c_is_user : is_reserved key_c ≡ false
unfolding program
c_is_user = refl

minus_one-is_negative : (is_negative minus_one ≡ true) × (is_positive minus_one ≡ false)
unfolding is_negative is_positive
minus_one-is_negative = (refl, refl)

-- One user's key with a value.
abbrev snap_c : Snapshot
snap_c = record snap { get = λ k. got (1 ∷ []) }

debit_downgrades_read_example :
    (detect_conflict (credited key_c 9) [] (read_set_slice snap_c (get snap_c key_c new_tx).1)
      ≡ true)
    × (detect_conflict
          (credited key_c 9)
          []
          (read_set_slice snap_c (atomic_add snap_c key_c minus_one (get snap_c key_c new_tx).1).1)
        ≡ false)
debit_downgrades_read_example =
    debit_downgrades_read snap_c key_c minus_one (1 ∷ []) (record { epoch = 4; is_credit = false })
      c_is_user refl refl minus_one-is_negative.0 minus_one-is_negative.1 9 (omega arith)

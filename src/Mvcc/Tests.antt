-- ===== src/Mvcc/Tests.antt =====
-- The multi-version engine on concrete histories.
use dpx.Base.{
  ◌==◌, ℕ, Bytes, ◌≡◌, refl, false, List, [], ◌∷◌, some, none, arith, lookup, insert, ◌=ᵇ◌,
}
use dpx.Codec.{put_uint, encode_int64, decode_int64, add64, uint}
use dpx.Engine.{BatchOp, set, delete, merge, effects, merge_int64}
use dpx.Memory.{shard_for}
use dpx.Memory.Batches.{for_shard}
use dpx.Mvcc.{
  Entry, Mvcc, new_mvcc, entries_of, current_value, new_entry, apply_op, apply_ops, publish,
  apply_shard_direct, apply_batch, get, search_loop, find_version, find_version_linear, linear_loop,
  snapshot_get, get_snapshot, close_snapshot, compact, safe_sequence, compact_entries,
  compact_shard, remove_count, count_below,
}
use dpx.Mvcc.Snapshots.{
  Steps, here, next, batch, snapshot, versions, snapshot_isolation, atomic_visibility, HasRoom,
}
use dpx.Mvcc.Latest.{merge_after_delete}
use dpx.Mvcc.Compaction.{get-compact}
use dpx.Mvcc.Loss.{IsSplit, compact_loses_version}
use dpx.Mvcc.Interleaved.{reserve, install, late_write_seen}
use dpx.Mvcc.Reopen.{reopened, reopened_snapshot_empty}

program : Unit {0}
unfolding put_uint uint encode_int64 decode_int64 add64 shard_for for_shard lookup insert ◌=ᵇ◌
    entries_of current_value new_entry apply_op apply_ops publish apply_batch get search_loop
    find_version linear_loop find_version_linear snapshot_get get_snapshot close_snapshot
    count_below remove_count compact_entries compact_shard safe_sequence compact
program = tt

abbrev key_a : Bytes
key_a = 97 ∷ []

abbrev put_a : ℕ → List BatchOp
put_a v = set key_a (v ∷ []) ∷ []

-- A write of one key and of another, an open snapshot, and two more writes of the first key.
abbrev put_b : List BatchOp
put_b = set (98 ∷ []) (7 ∷ []) ∷ []

abbrev begun : Mvcc
begun = apply_batch (put_a 1) new_mvcc

abbrev first : Mvcc
first = apply_batch put_b begun

room_first : HasRoom begun put_b
unfolding program
room_first = omega arith

abbrev watched : Mvcc
watched = (get_snapshot first).1

abbrev third : Mvcc
third = apply_batch (put_a 4) (apply_batch (put_a 3) watched)

Steps-first : Steps new_mvcc first
Steps-first =
    next (next here (batch new_mvcc (put_a 1) (omega arith))) (batch begun put_b room_first)

abbrev second : Mvcc
second = apply_batch (put_a 3) watched

room_second : HasRoom watched (put_a 3)
unfolding program
room_second = omega arith

room_third : HasRoom second (put_a 4)
unfolding program
room_third = omega arith

Steps-watched-third : Steps watched third
Steps-watched-third =
    next (next here (batch watched (put_a 3) room_second)) (batch second (put_a 4) room_third)

Steps-third : Steps new_mvcc third
Steps-third =
    next (next (next Steps-first (snapshot first)) (batch watched (put_a 3) room_second))
      (batch second (put_a 4) room_third)

third_reads : get third key_a ≡ some (4 ∷ [])
unfolding program
third_reads = refl

snapshot_isolation_example :
    snapshot_get third (get_snapshot first).0 key_a
    ≡ snapshot_get first (get_snapshot first).0 key_a
snapshot_isolation_example = snapshot_isolation key_a Steps-first Steps-watched-third

atomic_visibility_example :
    (snapshot_get
        (apply_batch (put_a 1) new_mvcc)
        (get_snapshot (apply_batch (put_a 1) new_mvcc)).0
        key_a
      ≡ get (apply_batch (put_a 1) new_mvcc) key_a)
    × (snapshot_get (apply_batch (put_a 1) new_mvcc) (get_snapshot new_mvcc).0 key_a
        ≡ get new_mvcc key_a)
atomic_visibility_example = atomic_visibility (put_a 1) key_a here (omega arith)

get-compact_example : get (compact third) key_a ≡ get third key_a
get-compact_example = get-compact key_a Steps-third

abbrev at_seq : ℕ → Entry
at_seq n = record { seq = n; value = n ∷ []; deleted = false }

third-IsSplit : IsSplit third 2 key_a (at_seq 1 ∷ []) (at_seq 3 ∷ at_seq 4 ∷ [])
unfolding program
third-IsSplit = record {
  oldest = refl;
  started = omega arith;
  split = refl;
  some_old = omega arith;
  two_new = omega arith;
  before = omega arith;
  after = omega arith;
}

compact_loses_version_example :
    (snapshot_get third 2 key_a ≡ some (1 ∷ [])) × (snapshot_get (compact third) 2 key_a ≡ none)
compact_loses_version_example = compact_loses_version key_a Steps-third third-IsSplit

abbrev versions_124 : List Entry
versions_124 = at_seq 1 ∷ at_seq 2 ∷ at_seq 4 ∷ []

current_first : current_value (versions first (shard_for key_a) key_a) ≡ some (1 ∷ [])
unfolding program
current_first = refl

merge_after_delete_example :
    (get (apply_batch (delete key_a ∷ merge key_a (2 ∷ []) ∷ []) first) key_a
      ≡ some (merge_int64 (1 ∷ []) (2 ∷ [])))
    × (effects key_a (delete key_a ∷ merge key_a (2 ∷ []) ∷ []) (get first key_a)
        ≡ some (merge_int64 [] (2 ∷ [])))
merge_after_delete_example = merge_after_delete first key_a (2 ∷ []) (1 ∷ []) current_first

abbrev dump : List (Bytes × Bytes)
dump = (key_a, 9 ∷ []) ∷ []

key_a_once : lookup {V = Bytes} key_a [] ≡ none
unfolding lookup
key_a_once = refl

reopened_snapshot_empty_example :
    (get (reopened dump 5) key_a ≡ lookup key_a dump)
    × (snapshot_get (reopened dump 5) (get_snapshot (reopened dump 5)).0 key_a ≡ none)
reopened_snapshot_empty_example =
    reopened_snapshot_empty dump 5 key_a (key_a_once, tt) (omega arith)

other_than_shard_0 : (shard_for key_a == 0) ≡ false
unfolding shard_for
other_than_shard_0 = refl

late_write_seen_example :
    let first = reserve 1 new_mvcc in
    let second = apply_shard_direct 0 (set (98 ∷ []) (2 ∷ []) ∷ []) first.1 in
    let seq = (get_snapshot second.1).0 in
    (snapshot_get second.1 seq key_a ≡ none)
    × (snapshot_get (install first.0 (shard_for key_a) (set key_a (1 ∷ []) ∷ []) second.1) seq key_a
        ≡ some (1 ∷ []))
late_write_seen_example = late_write_seen key_a (1 ∷ []) (98 ∷ []) (2 ∷ []) 0 other_than_shard_0

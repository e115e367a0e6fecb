-- ===== src/Memory/Tests.antt =====
-- The in-memory engines over the sorted list, on concrete batches.
use dpx.Base.{Bytes, ok, arith, ◌≡◌, refl, List, [], ◌∷◌, some, lookup, ◌=ᵇ◌}
use dpx.Codec.{put_uint, encode_int64, decode_int64, add64, uint}
use dpx.Engine.{BatchOp, set, merge, is_reserved}
use dpx.Engine.Order.{◌≺◌, in_range}
use dpx.Memory.{
  Plain, Sharded, new_plain, new_sharded, apply_op, apply_ops, apply_batch_legacy,
  apply_batch_sharded, apply_shards, shard_ids, batch_add, batch_of, empty_batch, store_shard,
  get_plain, get_sharded, apply_shard_direct, raw_iter_legacy, new_iter_legacy, walk, never,
  from_pivot, shard_for, current_sequence_sharded,
}
use dpx.Memory.Checkpoint.{Fits, checkpoint_plain, open_plain, open_sharded, open-checkpoint}
use dpx.Memory.SortedTree.{sorted_tree}
use dpx.Memory.Interface.{sharded_refines_plain}

program : Unit {0}
unfolding sorted_tree put_uint uint encode_int64 decode_int64 add64 ◌≺◌ in_range is_reserved ◌=ᵇ◌
    lookup apply_op apply_ops apply_batch_legacy apply_batch_sharded apply_shards shard_ids
    batch_add batch_of empty_batch store_shard get_plain get_sharded apply_shard_direct
    raw_iter_legacy new_iter_legacy walk never from_pivot shard_for new_plain new_sharded
program = tt

abbrev alice : Bytes
alice = 97 ∷ []

abbrev bob : Bytes
bob = 98 ∷ []

abbrev pay : List BatchOp
pay =
    set alice (10 ∷ 0 ∷ 0 ∷ 0 ∷ 0 ∷ 0 ∷ 0 ∷ 0 ∷ [])
    ∷ merge bob (3 ∷ 0 ∷ 0 ∷ 0 ∷ 0 ∷ 0 ∷ 0 ∷ 0 ∷ [])
    ∷ merge alice (5 ∷ 0 ∷ 0 ∷ 0 ∷ 0 ∷ 0 ∷ 0 ∷ 0 ∷ [])
    ∷ []

abbrev plain : Plain sorted_tree
plain = new_plain sorted_tree

abbrev sharded : Sharded sorted_tree
sharded = new_sharded sorted_tree

alice_has_15 :
    get_plain sorted_tree (apply_batch_legacy sorted_tree pay plain) alice
    ≡ some (15 ∷ 0 ∷ 0 ∷ 0 ∷ 0 ∷ 0 ∷ 0 ∷ 0 ∷ [])
unfolding program
alice_has_15 = refl

both_empty : get_sharded sorted_tree sharded alice ≡ get_plain sorted_tree plain alice
unfolding program
both_empty = refl

sharded_refines_plain_example :
    get_sharded sorted_tree
      (apply_batch_sharded sorted_tree (batch_of empty_batch pay) sharded)
      alice
    ≡ get_plain sorted_tree (apply_batch_legacy sorted_tree pay plain) alice
sharded_refines_plain_example = sharded_refines_plain sorted_tree pay sharded plain alice both_empty

abbrev paid : Plain sorted_tree
paid = apply_batch_legacy sorted_tree (set alice (7 ∷ []) ∷ set bob [] ∷ []) plain

paid-Fits : Fits sorted_tree paid
unfolding program
paid-Fits =
    (((omega arith, omega arith), ((omega arith, omega arith), tt)), omega arith, omega arith)

open-checkpoint_example :
    ((e' : Plain sorted_tree) × (open_plain sorted_tree
          (some (checkpoint_plain sorted_tree paid))
          plain
        ≡ ok e')
      × (e'.applied ≡ paid.applied)
      × ((k : Bytes) → get_plain sorted_tree e' k ≡ get_plain sorted_tree paid k))
    × ((e' : Sharded sorted_tree) × (open_sharded sorted_tree
            (some (checkpoint_plain sorted_tree paid))
            (new_sharded sorted_tree)
          ≡ ok e')
        × (current_sequence_sharded sorted_tree e' ≡ paid.applied)
        × ((k : Bytes) → get_sharded sorted_tree e' k ≡ get_plain sorted_tree paid k))
open-checkpoint_example = open-checkpoint sorted_tree paid plain paid-Fits

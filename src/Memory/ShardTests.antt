-- ===== src/Memory/ShardTests.antt =====
-- The sharded engine over the sorted list: a batch, its scans, and a write to a foreign shard.
use dpx.Base.{Bytes, List, [], ◌∷◌, ◌≡◌, refl, not, ◌&&◌, if◌then◌else◌, none, some, lookup, ◌=ᵇ◌}
use dpx.Codec.{put_uint, uint, encode_int64, decode_int64, add64}
use dpx.Engine.{BatchOp, set, is_reserved, applied_key}
use dpx.Engine.Order.{◌≺◌, in_range}
use dpx.Iter.Sort.{sort_pairs, insert_pair}
use dpx.Memory.{
  Sharded, IsSorted, new_sharded, apply_op, apply_ops, apply_batch_sharded, apply_shards, shard_ids,
  batch_add, batch_of, empty_batch, store_shard, get_sharded, apply_shard_direct, raw_iter_legacy,
  new_iter_legacy, walk, never, from_pivot, shard_for,
}
use dpx.Memory.Joined.{join_shards}
use dpx.Memory.ShardScans.{IsPlaced, raw_iter_sharded, new_iter_sharded, lookup-iter_sharded}
use dpx.Memory.Placed.{Reached, opened, batched, Reached-IsPlaced}
use dpx.Memory.SortedTree.{sorted_tree, put, remove}

abbrev alice : Bytes
alice = b'a' ∷ []

abbrev bob : Bytes
bob = b'b' ∷ []

abbrev ops : List BatchOp
ops = set bob (2 ∷ []) ∷ set applied_key (9 ∷ []) ∷ set alice (1 ∷ []) ∷ []

abbrev written_once : Sharded sorted_tree
written_once = apply_batch_sharded sorted_tree (batch_of empty_batch ops) (new_sharded sorted_tree)

reached : Reached sorted_tree written_once
reached = batched ops opened

Reached-IsPlaced_example : IsPlaced sorted_tree written_once
Reached-IsPlaced_example = Reached-IsPlaced sorted_tree reached

lookup-iter_sharded_example :
    ((lookup alice (raw_iter_sharded sorted_tree [] [] written_once)
        ≡ (if in_range [] [] alice then get_sharded sorted_tree written_once alice else none))
      × IsSorted (raw_iter_sharded sorted_tree [] [] written_once))
    × ((lookup alice (new_iter_sharded sorted_tree [] [] written_once) ≡ (
          if in_range [] [] alice && not (is_reserved alice)
          then get_sharded sorted_tree written_once alice
          else none))
        × IsSorted (new_iter_sharded sorted_tree [] [] written_once))
lookup-iter_sharded_example =
    lookup-iter_sharded sorted_tree [] [] written_once alice (Reached-IsPlaced sorted_tree reached)

program : Unit {0}
unfolding sorted_tree put remove put_uint uint encode_int64 decode_int64 add64 ◌≺◌ in_range
    is_reserved ◌=ᵇ◌ lookup apply_op apply_ops apply_batch_sharded apply_shards shard_ids batch_add
    batch_of empty_batch store_shard get_sharded apply_shard_direct raw_iter_legacy walk never
    from_pivot new_iter_legacy shard_for new_sharded raw_iter_sharded new_iter_sharded join_shards
    sort_pairs insert_pair
program = tt

all_sorted :
    raw_iter_sharded sorted_tree [] [] written_once
    ≡ (applied_key, 9 ∷ []) ∷ (alice, 1 ∷ []) ∷ (bob, 2 ∷ []) ∷ []
unfolding program
all_sorted = refl

-- A direct write of a key to another key's shard, which the sharded proposer makes.
abbrev misplaced : Sharded sorted_tree
misplaced = apply_shard_direct sorted_tree (shard_for bob) (set alice (7 ∷ []) ∷ []) written_once

alice_twice :
    (new_iter_sharded sorted_tree [] [] misplaced
      ≡ (alice, 1 ∷ []) ∷ (alice, 7 ∷ []) ∷ (bob, 2 ∷ []) ∷ [])
    × (get_sharded sorted_tree misplaced alice ≡ some (1 ∷ []))
unfolding program
alice_twice = (refl, refl)

-- ===== src/Memory.antt =====
-- engine/memory/memory.go: the in-memory engine, plain (one tree) and sharded (128 trees). The tree is
-- the third-party package tidwall/btree, a parameter: `BTree` states what its methods document, and
-- `Copy` is the identity, since trees here are values. The `applied` argument that `ApplyShardDirect`
-- ignores is left out. Locks guard single calls and are not modelled.
pub mod Batches
pub mod Scans
pub mod Joined
pub mod ShardScans
pub mod Placed
pub mod Interface
pub mod SortedTree
pub mod SortedStore
pub mod Checkpoint
mod Tests
mod ShardTests
use Prim.Native.Nat.{bit_and, bit_xor}
use dpx.Base.{
  ℕ, zero, suc, ◌+◌, ◌*◌, ◌%◌, ◌^◌, Bytes, Bool, true, false, not, ◌&&◌, ◌||◌, ltb, leb, ◌==◌, ◌≡◌,
  length, take, ◌++◌, List, [], ◌∷◌, Option, none, some, if◌then◌else◌, ◌=ᵇ◌, lookup, All,
}
use dpx.Codec.{
  uint, encode_int64, decode_int64, add64, EpochRecord, no_epoch, decode_epoch_record_or_zero,
}
use dpx.Engine.{
  BatchOp, set, delete, merge, op_key, or_empty, merge_int64, applied_key, version_key, dpx_prefix,
  is_reserved,
}
use dpx.Engine.Order.{◌≺◌, in_range}

abbrev pub Pairs : Type 0
Pairs = List (Bytes × Bytes)

-- The keys grow strictly.
abbrev pub IsSorted : Pairs → Type 0
IsSorted [] = Unit
IsSorted ((k, v) ∷ l) = All (λ p. k ≺ p.0 ≡ true) l × IsSorted l

-- The pairs of a sorted list from the pivot on.
unfoldable pub from_pivot : Bytes → Pairs → Pairs
from_pivot pivot [] = []
from_pivot pivot ((k, v) ∷ l) = if k ≺ pivot then from_pivot pivot l else (k, v) ∷ l

-- A `btree.BTreeG[item]` ordered by `itemLess`, that is by key. `scan` is the
-- list that `Scan` walks, `ascend` the one that `Ascend` walks from its pivot.
pub record BTree : Type 1 where
  pub Tree : Type 0
  pub new : Tree
  pub get : Tree → Bytes → Option Bytes
  pub put : Tree → Bytes → Bytes → Tree
  pub remove : Tree → Bytes → Tree
  pub scan : Tree → List (Bytes × Bytes)
  pub get-new : (k : Bytes) → get new k ≡ none
  pub get-put :
      (t : Tree) (k j v : Bytes) → get (put t k v) j ≡ (if k =ᵇ j then some v else get t j)
  pub get-remove :
      (t : Tree) (k j : Bytes) → get (remove t k) j ≡ (if k =ᵇ j then none else get t j)
  pub ascend : Tree → Bytes → List (Bytes × Bytes)
  pub lookup-scan : (t : Tree) (k : Bytes) → lookup k (scan t) ≡ get t k
  pub scan-IsSorted : (t : Tree) → IsSorted (scan t)
  pub ascend-eq : (t : Tree) (pivot : Bytes) → ascend t pivot ≡ from_pivot pivot (scan t)

abbrev pub num_shards : ℕ
num_shards = 128

-- `hash/fnv`'s New32a over the key: the offset basis, then for each byte an exclusive or and a
-- product that wraps at 32 bits.
fnv_step : Bytes → ℕ → ℕ
fnv_step [] h = h
fnv_step (b ∷ bs) h = fnv_step bs (bit_xor h b * 16777619 % 2 ^ 32)

-- `int(h.Sum32()) & shardMask`
unfoldable pub shard_for : Bytes → ℕ
unfolding fnv_step
shard_for key = bit_and (fnv_step key 2166136261) (127)

-- `shardedBatch.byShard`; a shard with no mutation has no entry.
abbrev pub ShardedBatch : Type 0
ShardedBatch = ℕ → Option (List BatchOp)

unfoldable pub empty_batch : ShardedBatch
empty_batch i = none

abbrev pub or_none_yet : Option (List BatchOp) → List BatchOp
or_none_yet none = []
or_none_yet (some ops) = ops

-- `Set`, `Delete` and `Merge` of the sharded batch.
unfoldable pub batch_add : ShardedBatch → BatchOp → ShardedBatch
batch_add b op j = if shard_for (op_key op) == j then some (or_none_yet (b j) ++ (op ∷ [])) else b j

unfoldable pub batch_of : ShardedBatch → List BatchOp → ShardedBatch
unfolding batch_add
batch_of b [] = b
batch_of b (op ∷ ops) = batch_of (batch_add b op) ops

-- The sorted shard numbers of a batch, from `i` on, `n` to go.
unfoldable pub shard_ids : ℕ → ℕ → ShardedBatch → List ℕ
shard_ids zero i b = []
shard_ids (suc n) i b =
    let rest = shard_ids n (i + 1) b in elim (b i) [ none ↦ rest | some ops ↦ i ∷ rest ]

module _ (btree : BTree) where
  open btree use {Tree}

  -- `state`
  pub record TreeState : Type 0 where
    pub tree : Tree
    pub applied : ℕ

  -- One round of the loops of `applyBatchLegacy`, `applyBatchSharded` and `ApplyShardDirect`.
  unfoldable pub apply_op : TreeState → BatchOp → TreeState
  apply_op next (set k v) = record {
    tree = btree.put next.tree k v;
    applied = if (k =ᵇ applied_key) && leb 8 (length v) then uint (take 8 v) else next.applied;
  }
  apply_op next (delete k) = record next { tree = btree.remove next.tree k }
  apply_op next (merge k v) =
      let old = or_empty (btree.get next.tree k) in
      record next {
        tree = btree.put next.tree k (encode_int64 (add64 (decode_int64 old) (decode_int64 v)));
      }

  unfoldable pub apply_ops : TreeState → List BatchOp → TreeState
  unfolding apply_op
  apply_ops next [] = next
  apply_ops next (op ∷ ops) = apply_ops (apply_op next op) ops

  -- The plain engine is its current state; `ApplyBatch` swaps in the clone that it changed.
  abbrev pub Plain : Type 0
  Plain = TreeState

  unfoldable pub new_plain : Plain
  new_plain = record { tree = btree.new; applied = 0 }

  unfoldable pub apply_batch_legacy : List BatchOp → Plain → Plain
  unfolding apply_ops
  apply_batch_legacy ops e = apply_ops e ops

  -- The sharded engine: the array of the shards' current states.
  abbrev pub Sharded : Type 0
  Sharded = ℕ → TreeState

  unfoldable pub new_sharded : Sharded
  new_sharded i = record { tree = btree.new; applied = 0 }

  unfoldable pub store_shard : Sharded → ℕ → TreeState → Sharded
  store_shard e i st j = if i == j then st else e j

  unfoldable pub apply_shards : List ℕ → ShardedBatch → Sharded → Sharded
  unfolding apply_ops store_shard
  apply_shards [] b e = e
  apply_shards (s ∷ ids) b e =
      apply_shards ids b (store_shard e s (apply_ops (e s) (or_none_yet (b s))))

  unfoldable pub apply_batch_sharded : ShardedBatch → Sharded → Sharded
  unfolding shard_ids apply_shards
  apply_batch_sharded b e = apply_shards (shard_ids num_shards 0 b) b e

  -- `ApplyShardDirect`: all writes go to the shard that the caller names.
  unfoldable pub apply_shard_direct : ℕ → List BatchOp → Sharded → Sharded
  unfolding apply_ops store_shard
  apply_shard_direct i writes e = store_shard e i (apply_ops (e i) writes)

  -- `Get`; an immutable state is its own snapshot, and `Snapshot.Get` reads the same way.
  unfoldable pub get_plain : Plain → Bytes → Option Bytes
  get_plain e k = btree.get e.tree k

  unfoldable pub get_sharded : Sharded → Bytes → Option Bytes
  get_sharded e k = btree.get (e (shard_for k)).tree k

  abbrev record_or_zero : Option Bytes → EpochRecord
  record_or_zero none = no_epoch
  record_or_zero (some v) = decode_epoch_record_or_zero v

  -- `memSnapshot.GetVersion` and `shardedSnapshot.GetVersion`
  unfoldable pub get_version_plain : Plain → Bytes → EpochRecord
  unfolding get_plain
  get_version_plain e k = record_or_zero (get_plain e (version_key k))

  unfoldable pub get_version_sharded : Sharded → Bytes → EpochRecord
  unfolding get_sharded
  get_version_sharded e k = record_or_zero (get_sharded e (version_key k))

  max_applied : ℕ → ℕ → ℕ → Sharded → ℕ
  max_applied zero i seq e = seq
  max_applied (suc n) i seq e =
      max_applied n (i + 1) (if ltb seq (e i).applied then (e i).applied else seq) e

  -- `CurrentSequence` and `shardedSnapshot.Sequence`
  pub current_sequence_sharded : Sharded → ℕ
  unfolding max_applied
  current_sequence_sharded e = max_applied num_shards 0 0 e

-- The walks of the iterators: `skip` is the test of the callback that goes on without the pair,
-- `stop` the one that ends the walk.
unfoldable pub walk : (Bytes → Bool) → (Bytes → Bool) → Pairs → Pairs
walk stop skip [] = []
walk stop skip ((k, v) ∷ l) =
    if stop k then [] else if skip k then walk stop skip l else (k, v) ∷ walk stop skip l

unfoldable pub never : Bytes → Bool
never k = false

module _ (btree : BTree) where
  -- `rawIterLegacy`: the pairs that it copies.
  unfoldable pub raw_iter_legacy : Bytes → Bytes → Plain btree → Pairs
  unfolding walk never
  raw_iter_legacy ss se e =
      if se =ᵇ []
      then walk never (λ k. k ≺ ss) (btree.scan e.tree)
      else walk (λ k. not (k ≺ se)) never (btree.ascend e.tree ss)

  -- `memSnapshot.NewIter`: the same, without the reserved keys.
  unfoldable pub new_iter_legacy : Bytes → Bytes → Plain btree → Pairs
  unfolding walk never
  new_iter_legacy ss se e =
      if se =ᵇ []
      then walk never (λ k. (k ≺ ss) || is_reserved k) (btree.scan e.tree)
      else walk (λ k. not (k ≺ se)) is_reserved (btree.ascend e.tree ss)

-- ===== src/Memory/ShardScans.antt =====
-- engine/memory/memory.go: `rawIterSharded` and `shardedSnapshot.NewIter`, which collect the pairs of
-- every shard as the plain layout does and then sort them all.
use dpx.Base.{
  ℕ, Bytes, Bool, true, false, not, ◌&&◌, ◌==◌, ◌≡◌, ap, ◌∙◌, Option, none, if◌then◌else◌, arith,
  lookup, Distinct,
}
use dpx.Engine.{is_reserved}
use dpx.Engine.Order.{in_range}
use dpx.Memory.Joined.{join_shards, lookup-sort_pairs-join_shards}
use dpx.Iter.Sort.{sort_pairs}
use dpx.Memory.{
  BTree, Pairs, IsSorted, Plain, Sharded, num_shards, shard_for, get_plain, get_sharded,
  raw_iter_legacy, new_iter_legacy,
}
use dpx.Memory.Scans.{
  lookup-raw_iter_legacy, lookup-new_iter_legacy, raw_iter_legacy-Distinct,
  new_iter_legacy-Distinct,
}

module _ (btree : BTree) where
  unfoldable pub raw_iter_sharded : Bytes → Bytes → Sharded btree → Pairs
  unfolding join_shards
  raw_iter_sharded start end e =
      sort_pairs (join_shards (λ i. raw_iter_legacy btree start end (e i)) num_shards 0)

  unfoldable pub new_iter_sharded : Bytes → Bytes → Sharded btree → Pairs
  unfolding join_shards
  new_iter_sharded start end e =
      sort_pairs (join_shards (λ i. new_iter_legacy btree start end (e i)) num_shards 0)

  -- Every shard holds only the keys that hash to it.
  abbrev pub IsPlaced : Sharded btree → Type 0
  IsPlaced e = (i : ℕ) (k : Bytes) → (i == shard_for k) ≡ false → btree.get (e i).tree k ≡ none

module _ (btree : BTree) (scan : Plain btree → Pairs) (test : Bytes → Bool)
    (found : (st : Plain btree) (k : Bytes)
      → lookup k (scan st) ≡ (if test k then get_plain btree st k else none))
    (distinct : (st : Plain btree) → Distinct (scan st)) (e : Sharded btree)
    (placed : IsPlaced btree e) where
  -- What the scan of the shards delivers of the key `k`.
  wanted : Bytes → Option Bytes
  wanted k = if test k then get_sharded btree e k else none

  scan_own : (i : ℕ) (k : Bytes) → (i == shard_for k) ≡ true → lookup k (scan (e i)) ≡ wanted k
  unfolding wanted get_sharded get_plain
  scan_own i k h =
      let same : i ≡ shard_for k = ground (arith, h) in
      found (e i) k ∙ ap (λ j. if test k then get_plain btree (e j) k else none) same

  scan_other : (i : ℕ) (k : Bytes) → (i == shard_for k) ≡ false → lookup k (scan (e i)) ≡ none
  unfolding get_plain
  scan_other i k h = found (e i) k ∙ ground (arith, placed i k h)

  lookup-all_shards :
      (k : Bytes)
      → (lookup k (sort_pairs (join_shards (λ i. scan (e i)) num_shards 0))
          ≡ (if test k then get_sharded btree e k else none))
        × IsSorted (sort_pairs (join_shards (λ i. scan (e i)) num_shards 0))
  unfolding wanted
  lookup-all_shards k =
      lookup-sort_pairs-join_shards (λ i. scan (e i)) wanted scan_own scan_other
        (λ i. distinct (e i)) k

-- On an engine whose shards hold only the keys that hash to them, the sharded `RawIter` and the
-- iterator of a sharded snapshot deliver, in strictly growing order, what the plain ones do: each
-- key of the range that has a value, with that value, and the second no reserved key.
pub lookup-iter_sharded :
    (btree : BTree) (start end : Bytes) (e : Sharded btree) (k : Bytes)
    → IsPlaced btree e
    → ((lookup k (raw_iter_sharded btree start end e)
          ≡ (if in_range start end k then get_sharded btree e k else none))
        × IsSorted (raw_iter_sharded btree start end e))
      × ((lookup k (new_iter_sharded btree start end e)
            ≡ (if in_range start end k && not (is_reserved k) then get_sharded btree e k else none))
          × IsSorted (new_iter_sharded btree start end e))
unfolding raw_iter_sharded new_iter_sharded
lookup-iter_sharded btree start end e k placed = (
  lookup-all_shards btree (raw_iter_legacy btree start end) (in_range start end)
      (λ st j. lookup-raw_iter_legacy btree st start end j)
      (raw_iter_legacy-Distinct btree start end) e placed k,
  lookup-all_shards btree (new_iter_legacy btree start end)
      (λ j. in_range start end j && not (is_reserved j))
      (λ st j. lookup-new_iter_legacy btree st start end j)
      (new_iter_legacy-Distinct btree start end) e placed k,
)

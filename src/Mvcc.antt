-- ===== src/Mvcc.antt =====
-- engine/memory/mvcc.go: the multi-version engine. The array of shards is a function of the shard's
-- number, each shard a map from keys to their versions, oldest first. Calls are atomic steps: what
-- the locks and the compare-and-swap loops protect within one call is not modelled.
pub mod Search
pub mod Versions
pub mod Snapshots
pub mod Latest
pub mod Compaction
pub mod Loss
pub mod Reopen
pub mod Interleaved
pub mod Scans
mod Tests
mod ScanTests
use dpx.Base.{
  ℕ, zero, suc, ◌+◌, ◌-◌, ◌/◌, ◌≤◌, Bytes, Bool, true, false, not, ◌&&◌, ◌||◌, ltb, leb, ◌==◌,
  length, drop, ◌++◌, List, [], ◌∷◌, Option, none, some, if◌then◌else◌, get_elem?, Map, lookup,
  insert,
}
use dpx.Codec.{
  EpochRecord, no_epoch, encode_int64, decode_int64, add64, decode_epoch_record_or_zero,
}
use dpx.Engine.{BatchOp, set, delete, merge, op_key, or_empty, version_key, is_reserved}
use dpx.Engine.Order.{in_range}
use dpx.Memory.{shard_for}
use dpx.Memory.Batches.{for_shard}

-- `mvccEntry`
pub record Entry : Type 0 where
  pub seq : ℕ
  pub value : Bytes
  pub deleted : Bool

abbrev pub Shard : Type 0
Shard = Map (List Entry)

pub record Mvcc : Type 0 where
  pub shards : ℕ → Shard
  pub seq_counter : ℕ
  pub last_committed : ℕ
  pub oldest_snapshot : ℕ
  pub snapshot_count : ℕ

-- `newMVCCEngine`
abbrev pub new_mvcc : Mvcc
new_mvcc = record {
  shards = λ i. [];
  seq_counter = 0;
  last_committed = 0;
  oldest_snapshot = 0;
  snapshot_count = 0;
}

abbrev pub or_no_entries : Option (List Entry) → List Entry
or_no_entries none = []
or_no_entries (some es) = es

-- `av.Load()` of the key's versions; a missing key has none.
unfoldable pub entries_of : Shard → Bytes → List Entry
entries_of s k = or_no_entries (lookup k s)

-- `getCurrentValue`: the newest value that is no tombstone.
unfoldable pub current_value : List Entry → Option Bytes
current_value [] = none
current_value (e ∷ es) = elim (current_value es) [
  | some v ↦ some v
  | none ↦ if e.deleted then none else some e.value
]

-- The version that an operation adds.
unfoldable pub new_entry : ℕ → BatchOp → List Entry → Entry
new_entry seq (set k v) es = record { seq = seq; value = v; deleted = false }
new_entry seq (delete k) es = record { seq = seq; value = []; deleted = true }
new_entry seq (merge k v) es = record {
  seq = seq;
  value = encode_int64 (add64 (decode_int64 (or_empty (current_value es))) (decode_int64 v));
  deleted = false;
}

unfoldable pub apply_op : ℕ → BatchOp → Shard → Shard
apply_op seq op s =
    let es = entries_of s (op_key op) in insert (op_key op) (es ++ (new_entry seq op es ∷ [])) s

-- The loop over the operations of one shard, under the shard's lock.
unfoldable pub apply_ops : ℕ → List BatchOp → Shard → Shard
apply_ops seq [] s = s
apply_ops seq (op ∷ ops) s = apply_ops seq ops (apply_op seq op s)

-- `lastCommitted` never goes back.
unfoldable pub publish : ℕ → ℕ → ℕ
publish commit_seq cur = if leb commit_seq cur then cur else commit_seq

-- `ApplyBatch`. The groups are disjoint, so the order in which the map of groups is walked does
-- not show.
unfoldable pub apply_batch : List BatchOp → Mvcc → Mvcc
apply_batch [] e = e
apply_batch (op ∷ ops) e =
    let commit_seq = add64 e.seq_counter (length (op ∷ ops)) in
    record e {
      shards = λ sh. apply_ops commit_seq (for_shard sh (op ∷ ops)) (e.shards sh);
      seq_counter = commit_seq;
      last_committed = publish commit_seq e.last_committed;
    }

-- `ApplyShardDirect`: all writes go to the shard that the caller names.
unfoldable pub apply_shard_direct : ℕ → List BatchOp → Mvcc → ℕ × Mvcc
apply_shard_direct shard_idx writes e =
    let commit_seq = add64 e.seq_counter (length writes) in
    (
      commit_seq,
      record e {
        shards = λ sh.
            if sh == shard_idx then apply_ops commit_seq writes (e.shards sh) else e.shards sh;
        seq_counter = commit_seq;
        last_committed = publish commit_seq e.last_committed;
      },
    )

abbrev pub last_entry : List Entry → Option Entry
last_entry [] = none
last_entry (e ∷ []) = some e
last_entry (e ∷ f ∷ es) = last_entry (f ∷ es)

-- A tombstone reads as `ErrKeyNotFound`.
abbrev pub live_value : Option Entry → Option Bytes
live_value none = none
live_value (some e) = if e.deleted then none else some e.value

-- `Get`
unfoldable pub get : Mvcc → Bytes → Option Bytes
get e k = live_value (last_entry (entries_of (e.shards (shard_for k)) k))

-- `entries[i].seq`
abbrev pub seq_at : List Entry → ℕ → ℕ
seq_at [] i = 0
seq_at (e ∷ es) zero = e.seq
seq_at (e ∷ es) (suc i) = seq_at es i

-- The binary search of `findVersion`. `top` is `hi + 1`, so that it is a natural number; `none` is
-- the result -1.
unfoldable pub search_loop : ℕ → List Entry → ℕ → ℕ → ℕ → Option ℕ → Option ℕ
search_loop zero es target low top result = result
search_loop (suc fuel) es target low top result =
    let mid = low + (top - 1 - low) / 2 in
    let right = search_loop fuel es target (mid + 1) top (some mid) in
    let left = search_loop fuel es target low mid result in
    if ltb low top then (if leb (seq_at es mid) target then right else left) else result

-- Each round takes an index at least out of the interval, so `length es` rounds are enough.
unfoldable pub find_version : List Entry → ℕ → Option ℕ
find_version es target = search_loop (length es) es target 0 (length es) none

-- `findVersionLinear`, from the index below `n` down.
unfoldable pub linear_loop : ℕ → List Entry → ℕ → Option ℕ
linear_loop zero es seq = none
linear_loop (suc i) es seq =
    let rest = linear_loop i es seq in if leb (seq_at es i) seq then some i else rest

unfoldable pub find_version_linear : List Entry → ℕ → Option ℕ
find_version_linear es seq = linear_loop (length es) es seq

abbrev pub entry_at : List Entry → Option ℕ → Option Entry
entry_at es none = none
entry_at es (some i) = get_elem? es i

-- `mvccSnapshot.Get` of the snapshot with this sequence.
unfoldable pub snapshot_get : Mvcc → ℕ → Bytes → Option Bytes
snapshot_get e seq k =
    let es = entries_of (e.shards (shard_for k)) k in live_value (entry_at es (find_version es seq))

abbrev pub version_or_zero : Option Entry → EpochRecord
version_or_zero none = no_epoch
version_or_zero (some e) = decode_epoch_record_or_zero e.value

-- `mvccSnapshot.GetVersion`
unfoldable pub snapshot_get_version : Mvcc → ℕ → Bytes → EpochRecord
snapshot_get_version e seq k =
    let vk = version_key k in
    let es = entries_of (e.shards (shard_for vk)) vk in
    version_or_zero (entry_at es (find_version es seq))

-- `GetSnapshot`: the sequence is the snapshot.
unfoldable pub get_snapshot : Mvcc → ℕ × Mvcc
get_snapshot e =
    let seq = e.last_committed in
    let old = e.oldest_snapshot in
    (
      seq,
      record e {
        oldest_snapshot = if (old == 0) || ltb seq old then seq else old;
        snapshot_count = e.snapshot_count + 1;
      },
    )

-- `mvccSnapshot.Close`; it follows a `GetSnapshot`, so the count is positive.
unfoldable pub close_snapshot : Mvcc → Mvcc
close_snapshot e = record e { snapshot_count = e.snapshot_count - 1 }

-- The versions below the boundary, up to the first that is not.
unfoldable pub count_below : ℕ → List Entry → ℕ
count_below safe_seq [] = 0
count_below safe_seq (e ∷ es) = if ltb e.seq safe_seq then suc (count_below safe_seq es) else 0

-- How many of the oldest versions `Compact` removes, of more than two.
unfoldable pub remove_count : ℕ → List Entry → ℕ
remove_count safe_seq es =
    let n = count_below safe_seq es in
    if ltb 0 safe_seq then (if ltb (length es - n) 2 then length es - 2 else n) else length es - 2

abbrev pub is_tombstone : Option Entry → Bool
is_tombstone none = false
is_tombstone (some e) = e.deleted

-- What `Compact` makes of the versions of one key: `none` where it deletes the key.
unfoldable pub compact_entries : ℕ → List Entry → Option (List Entry)
compact_entries safe_seq es =
    if (safe_seq == 0) && is_tombstone (last_entry es)
    then none
    else if leb (length es) 2
    then some es
    else some (drop (remove_count safe_seq es) es)

unfoldable pub compact_shard : ℕ → Shard → Shard
compact_shard safe_seq [] = []
compact_shard safe_seq ((k, es) ∷ s) = elim (compact_entries safe_seq es) [
  | none ↦ compact_shard safe_seq s
  | some kept ↦ (k, kept) ∷ compact_shard safe_seq s
]

unfoldable pub safe_sequence : Mvcc → ℕ
safe_sequence e = if ltb 0 e.snapshot_count then e.oldest_snapshot else 0

-- `Compact`; the number of versions that it returns is only reported.
unfoldable pub compact : Mvcc → Mvcc
compact e = record e { shards = λ sh. compact_shard (safe_sequence e) (e.shards sh) }

-- `Open` with the pairs and the index of a dump.
unfoldable pub load_pair : ℕ → Bytes → Bytes → (ℕ → Shard) → ℕ → Shard
load_pair applied k v shards sh =
    if shard_for k == sh
    then insert k
        (entries_of (shards sh) k ++ (record { seq = applied; value = v; deleted = false } ∷ []))
        (shards sh)
    else shards sh

unfoldable pub load_pairs : ℕ → List (Bytes × Bytes) → (ℕ → Shard) → ℕ → Shard
load_pairs applied [] shards = shards
load_pairs applied ((k, v) ∷ rest) shards = load_pairs applied rest (load_pair applied k v shards)

unfoldable pub open_mvcc : List (Bytes × Bytes) → ℕ → Mvcc → Mvcc
open_mvcc pairs applied e = record e {
  shards = load_pairs applied pairs e.shards;
  seq_counter = applied;
}

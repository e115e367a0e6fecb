-- ===== src/Pebble.antt =====
-- engine/pebble/pebble.go: the engine over Pebble. The store is third-party, a parameter:
-- `PebbleStore` states what its methods document, and `PebbleIterator` what a `pebble.Iterator`
-- does. Reads that fail for another reason than a missing key, the options of `Open`, the shared
-- snapshot, telemetry and the background goroutine are not modelled.
pub mod Scans
pub mod Merger
pub mod Operands
pub mod Interface
mod Tests
use dpx.Base.{
  ℕ, zero, suc, ◌++◌, Bytes, Bool, true, false, ◌&&◌, ltb, length, take, List, [], ◌∷◌, Option,
  none, some, if◌then◌else◌, ◌≡◌, ◌<◌, lookup, Distinct, ◌=ᵇ◌,
}
use dpx.Codec.{EpochRecord, no_epoch, decode_epoch_record_or_zero, add64, uint, put_uint}
use dpx.Engine.{BatchOp, set, delete, merge, op_key, is_reserved, applied_key, version_key}
use dpx.Engine.Order.{in_range}
use dpx.Iter.{Iterator}
use dpx.Iter.Cursors.{err_iter}

-- `int64Merger.sum`, after `Merge` of the first value.
unfoldable pub merger_merge : Bytes → ℕ
merger_merge value = if ltb (length value) 8 then 0 else uint (take 8 value)

unfoldable pub merge_newer : ℕ → Bytes → ℕ
merge_newer sum value = if ltb (length value) 8 then sum else add64 sum (uint (take 8 value))

unfoldable pub merge_older : ℕ → Bytes → ℕ
unfolding merge_newer
merge_older sum value = merge_newer sum value

unfoldable pub merger_finish : ℕ → Bytes
merger_finish sum = put_uint 8 sum

-- What a store keeps of a key: the value of the last `Set`, none behind a `Delete`, and the operands
-- of the merges since then, the oldest first.
abbrev pub History : Type 0
History = Option Bytes × List Bytes

unfoldable pub mutate : BatchOp → History → History
mutate (set k v) h = (some v, [])
mutate (delete k) h = (none, [])
mutate (merge k v) (base, operands) = (base, operands ++ (v ∷ []))

unfoldable pub mutate_all : Bytes → List BatchOp → History → History
mutate_all k [] h = h
mutate_all k (op ∷ ops) h = mutate_all k ops (if op_key op =ᵇ k then mutate op h else h)

-- The operands of a merge, the value below them being the oldest.
abbrev pub with_base : Option Bytes → List Bytes → List Bytes
with_base none vs = vs
with_base (some b) vs = b ∷ vs

-- What a run of operands may become: a value, or the sum of a merger that is not finished.
pub data Stage : Type 0 where
  value : Bytes → Stage
  sum : ℕ → Stage

-- How a store may combine the operands of a run, in an order that Pebble leaves open: it starts a
-- merger with any operand, hands it newer operands through `MergeNewer` and older ones through
-- `MergeOlder`, and may finish it and take the result as one operand again, as compactions do.
pub data Combines : List Bytes → Stage → Type 0 where
  operand : (v : Bytes) → Combines (v ∷ []) (value v)
  begun : {vs : List Bytes} {v : Bytes} → Combines vs (value v) → Combines vs (sum (merger_merge v))
  newer :
      {vs ws : List Bytes} {n : ℕ} {w : Bytes}
      → Combines vs (sum n)
      → Combines ws (value w)
      → Combines (vs ++ ws) (sum (merge_newer n w))
  older :
      {vs ws : List Bytes} {n : ℕ} {w : Bytes}
      → Combines vs (sum n)
      → Combines ws (value w)
      → Combines (ws ++ vs) (sum (merge_older n w))
  finished : {vs : List Bytes} {n : ℕ} → Combines vs (sum n) → Combines vs (value (merger_finish n))

-- What a read may show of a key: the value itself where nothing is merged into it, else what a merger
-- has finished with.
pub data Shows : History → Option Bytes → Type 0 where
  unmerged : (base : Option Bytes) → Shows (base, []) base
  merged_to :
      {base : Option Bytes} {m : Bytes} {ms : List Bytes} {n : ℕ}
      → Combines (with_base base (m ∷ ms)) (sum n)
      → Shows (base, m ∷ ms) (some (merger_finish n))

-- A `pebble.Iterator`: positioning calls return whether it is valid then, and it stands before no
-- more than `ahead` pairs and behind no more than `back`.
pub record PebbleIterator : Type 1 where
  pub iter : Iterator
  pub ahead : iter.State → ℕ
  pub back : iter.State → ℕ
  pub first-valid : (s : iter.State) → (iter.first s).0 ≡ iter.valid (iter.first s).1
  pub next-valid : (s : iter.State) → (iter.next s).0 ≡ iter.valid (iter.next s).1
  pub prev-valid : (s : iter.State) → (iter.prev s).0 ≡ iter.valid (iter.prev s).1
  pub next-ahead : (s : iter.State) → iter.valid s ≡ true → ahead (iter.next s).1 < ahead s
  pub prev-back : (s : iter.State) → iter.valid s ≡ true → back (iter.prev s).1 < back s

module _ (p : PebbleIterator) where
  -- `for i.iter.Valid() && isReserved(i.iter.Key()) { i.iter.Next() }`, for at most `n` rounds.
  unfoldable pub skip_forward : ℕ → p.iter.State → p.iter.State
  skip_forward zero s = s
  skip_forward (suc n) s =
      let rest = skip_forward n (p.iter.next s).1 in
      if p.iter.valid s && is_reserved (p.iter.key s) then rest else s

  unfoldable pub skip_reserved : p.iter.State → p.iter.State
  unfolding skip_forward
  skip_reserved s = skip_forward (p.ahead s) s

  unfoldable pub skip_backward : ℕ → p.iter.State → p.iter.State
  skip_backward zero s = s
  skip_backward (suc n) s =
      let rest = skip_backward n (p.iter.prev s).1 in
      if p.iter.valid s && is_reserved (p.iter.key s) then rest else s

  unfoldable pub skip_reserved_backward : p.iter.State → p.iter.State
  unfolding skip_backward
  skip_reserved_backward s = skip_backward (p.back s) s

  -- `First`, `Next` and `Prev` of `pebbleConsumerIter` behind the inner call.
  abbrev pub behind : (p.iter.State → p.iter.State) → Bool × p.iter.State → Bool × p.iter.State
  behind skip (false, s) = (false, s)
  behind skip (true, s) = (p.iter.valid (skip s), skip s)

  -- `pebbleConsumerIter`
  abbrev pub consumer_iter : Iterator
  consumer_iter = record {
    State = p.iter.State;
    first = λ s. behind skip_reserved (p.iter.first s);
    next = λ s. behind skip_reserved (p.iter.next s);
    prev = λ s. behind skip_reserved_backward (p.iter.prev s);
    valid = p.iter.valid;
    key = p.iter.key;
    value = p.iter.value;
    error = p.iter.error;
  }

-- What the store's `NewIter` returns: an iterator, or an error.
pub data Opened : Type 1 where
  opened : PebbleIterator → Opened
  refused : ℕ → Opened

-- `RawIter`, and `NewIter` of the snapshots.
abbrev pub raw_iter_of : Opened → Iterator
raw_iter_of (opened p) = p.iter
raw_iter_of (refused e) = err_iter e

abbrev pub new_iter_of : Opened → Iterator
new_iter_of (opened p) = consumer_iter p
new_iter_of (refused e) = err_iter e

-- A database that is opened with `Int64Merger`, and its batches. `apply` is `none` where `Apply`
-- returns an error, and then nothing has been applied. `history` is what it has been told of a key, of
-- which a read shows the value that its mergers come to. `pairs` are those that an iterator with the
-- bounds delivers, an empty upper bound being none.
pub record PebbleStore : Type 1 where
  pub Db : Type 0
  pub Batch : Type 0
  pub get : Db → Bytes → Option Bytes
  pub new_batch : Batch
  pub batch_set : Bytes → Bytes → Batch → Batch
  pub batch_delete : Bytes → Batch → Batch
  pub batch_merge : Bytes → Bytes → Batch → Batch
  pub apply : Batch → Db → Option Db
  pub log_data : Db → Bool
  pub pairs : Bytes → Bytes → Db → List (Bytes × Bytes)
  pub contents : Batch → List BatchOp
  pub contents-new_batch : contents new_batch ≡ []
  pub contents-batch_set :
      (k v : Bytes) (b : Batch) → contents (batch_set k v b) ≡ contents b ++ (set k v ∷ [])
  pub contents-batch_delete :
      (k : Bytes) (b : Batch) → contents (batch_delete k b) ≡ contents b ++ (delete k ∷ [])
  pub contents-batch_merge :
      (k v : Bytes) (b : Batch) → contents (batch_merge k v b) ≡ contents b ++ (merge k v ∷ [])
  pub history : Db → Bytes → History
  pub history-apply :
      (b : Batch) (s t : Db) (k : Bytes)
      → apply b s ≡ some t
      → history t k ≡ mutate_all k (contents b) (history s k)
  pub get-Shows : (s : Db) (k : Bytes) → Shows (history s k) (get s k)
  pub lookup-pairs :
      (start end : Bytes) (s : Db) (k : Bytes)
      → lookup k (pairs start end s) ≡ (if in_range start end k then get s k else none)
  pub pairs-Distinct : (start end : Bytes) (s : Db) → Distinct (pairs start end s)

module _ (p : PebbleStore) where
  -- `NewBatch`, then `Set`, `Delete` or `Merge` for each mutation.
  unfoldable pub batch_op : BatchOp → p.Batch → p.Batch
  batch_op (set k v) b = p.batch_set k v b
  batch_op (delete k) b = p.batch_delete k b
  batch_op (merge k v) b = p.batch_merge k v b

  unfoldable pub fill_batch : List BatchOp → p.Batch → p.Batch
  unfolding batch_op
  fill_batch [] b = b
  fill_batch (op ∷ ops) b = fill_batch ops (batch_op op b)

  unfoldable pub pebble_apply : List BatchOp → p.Db → Option p.Db
  unfolding fill_batch
  pebble_apply ops db = p.apply (fill_batch ops p.new_batch) db

  abbrev or_zero : Option Bytes → ℕ
  or_zero none = 0
  or_zero (some val) = if ltb (length val) 8 then 0 else uint (take 8 val)

  unfoldable pub pebble_sequence : p.Db → ℕ
  pebble_sequence db = or_zero (p.get db applied_key)

  abbrev or_unwritten : Option Bytes → EpochRecord
  or_unwritten none = no_epoch
  or_unwritten (some val) = decode_epoch_record_or_zero val

  unfoldable pub pebble_version : p.Db → Bytes → EpochRecord
  pebble_version db key = or_unwritten (p.get db (version_key key))

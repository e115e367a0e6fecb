-- ===== src/Badger/Scans.antt =====
-- The scans of the engine over Badger, and the engine behind `StorageEngine`.
use dpx.Base.{
  Bytes, Bool, true, not, ◌&&◌, ◌||◌, ltb, length, [], ◌∷◌, none, ◌≡◌, ap, ◌∙◌, if◌then◌else◌, ◌=ᵇ◌,
  arith, lookup, Distinct,
}
use dpx.Engine.Failure.{nothing_done}
use dpx.Engine.{StorageEngine, is_reserved}
use dpx.Engine.Order.{◌≺◌, in_range}
use dpx.Memory.{Pairs, IsSorted, walk, never}
use dpx.Memory.Scans.{
  lookup-walk, lookup-from_pivot, lookup-walk_until, from_pivot-IsSorted, IsSorted-Distinct,
  walk-Distinct,
}
use dpx.Tx.{or_missing}
use dpx.Badger.{BadgerStore, get_badger, badger_apply, past, raw_pairs, user_pairs}
use dpx.Badger.Batches.{get-badger_apply}

lookup-walk-past :
    (end : Bytes) (skip : Bytes → Bool) (l : Pairs) (k : Bytes)
    → IsSorted l
    → lookup k (walk (past end) skip l)
      ≡ (if ((end =ᵇ []) || (k ≺ end)) && not (skip k) then lookup k l else none)
unfolding never ◌=ᵇ◌
lookup-walk-past [] skip l k s = lookup-walk skip l k ∙ ground arith
lookup-walk-past (x ∷ end) skip l k s =
    let bounded : ltb 0 (length (x ∷ end)) ≡ true = ground arith in
    ap (λ c. lookup k (walk (λ j. c && not (j ≺ (x ∷ end))) skip l)) bounded
    ∙ lookup-walk_until (x ∷ end) skip l k s

module _ (b : BadgerStore) where
  seek-IsSorted : (start : Bytes) (t : b.Txn) → IsSorted (b.seek start t)
  seek-IsSorted start t =
      rw (b.seek-eq start t) (from_pivot-IsSorted start (b.all t) (b.all-IsSorted t))

  lookup-seek :
      (start : Bytes) (t : b.Txn) (k : Bytes)
      → lookup k (b.seek start t) ≡ (if k ≺ start then none else or_missing (b.get t k))
  lookup-seek start t k =
      rw (
        b.seek-eq start t,
        lookup-from_pivot start (b.all t) k (b.all-IsSorted t),
        b.lookup-all t k,
      )

  lookup-scanned :
      (start end : Bytes) (skip : Bytes → Bool) (t : b.Txn) (k : Bytes)
      → lookup k (walk (past end) skip (b.seek start t))
        ≡ (if in_range start end k && not (skip k) then or_missing (b.get t k) else none)
  unfolding in_range
  lookup-scanned start end skip t k = ground (
    arith,
    lookup-walk-past end skip (b.seek start t) k (seek-IsSorted start t),
    lookup-seek start t k,
  )

  pub lookup-raw_pairs :
      (start end : Bytes) (db : b.Db) (k : Bytes)
      → lookup k (raw_pairs b start end db)
        ≡ (if in_range start end k then get_badger b db k else none)
  unfolding raw_pairs get_badger never
  lookup-raw_pairs start end db k =
      lookup-scanned start end never (b.new_transaction db) k ∙ ground arith

  -- The iterator of a snapshot delivers the key `k` exactly if it is in the range, is not reserved
  -- and has a value in the snapshot, and with that value.
  pub lookup-user_pairs :
      (start end : Bytes) (t : b.Txn) (k : Bytes)
      → lookup k (user_pairs b start end t)
        ≡ (if in_range start end k && not (is_reserved k) then or_missing (b.get t k) else none)
  unfolding user_pairs
  lookup-user_pairs start end t k = lookup-scanned start end is_reserved t k

  pub raw_pairs-Distinct : (start end : Bytes) (db : b.Db) → Distinct (raw_pairs b start end db)
  unfolding raw_pairs
  raw_pairs-Distinct start end db =
      let t = b.new_transaction db in
      walk-Distinct (past end) never (b.seek start t)
        (IsSorted-Distinct (b.seek start t) (seek-IsSorted start t))

  -- The engine over Badger behind the interface.
  unfoldable pub badger_engine : StorageEngine
  badger_engine = record {
    State = b.Db;
    get = get_badger b;
    apply_batch = badger_apply b;
    failed_batch = λ ops s. s;
    sync_ok = b.sync;
    raw_iter = raw_pairs b;
    get-apply_batch = get-badger_apply b;
    get-failed_batch = λ ops s failed. nothing_done (get_badger b) ops s;
    lookup-raw_iter = lookup-raw_pairs;
    raw_iter-Distinct = raw_pairs-Distinct;
  }

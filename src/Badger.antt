-- ===== src/Badger.antt =====
-- engine/badger/badger.go and engine/badger/dump.go: the engine over Badger. The store is
-- third-party, a parameter: `BadgerStore` states what its transactions document. A read-only
-- transaction is a snapshot; the directory, telemetry and the options are not modelled.
pub mod Batches
pub mod Scans
pub mod Backup
mod Tests
use dpx.Base.{
  ℕ, ◌+◌, Bytes, Bool, true, false, not, ◌&&◌, ltb, leb, ◌==◌, length, take, ◌++◌, List, [], ◌∷◌,
  Option, none, some, if◌then◌else◌, ◌≡◌, ◌=ᵇ◌, Map, Result, ok, err, ◌>>=◌, lookup,
}
use dpx.Codec.{EpochRecord, no_epoch, decode_epoch_record_or_zero, add64, uint, put_uint}
use dpx.Codec.Cursor.{uint_at}
use dpx.Dump.{DumpError, short_header, put_pairs, pairs_size, decode_pairs}
use dpx.Engine.{BatchOp, set, delete, merge, is_reserved, applied_key, version_key}
use dpx.Engine.Order.{◌≺◌}
use dpx.Memory.{Pairs, IsSorted, from_pivot, walk, never}
use dpx.Tx.{Answer, got, not_found, broken, or_missing}

-- A database, of which one goroutine at a time writes. `not_found` is `badger.ErrKeyNotFound`,
-- `broken` and `none` are other errors, as of a transaction that has become too big. `seek` is the
-- list that an iterator walks from `Seek` on.
pub record BadgerStore : Type 1 where
  pub Db : Type 0
  pub Txn : Type 0
  pub new_transaction : Db → Txn
  pub get : Txn → Bytes → Answer Bytes
  pub set_entry : Bytes → Bytes → Txn → Option Txn
  pub delete_entry : Bytes → Txn → Answer Txn
  pub commit : Txn → Option Db
  pub sync : Db → Bool
  pub all : Txn → List (Bytes × Bytes)
  pub seek : Bytes → Txn → List (Bytes × Bytes)
  pub get-set_entry :
      (k v : Bytes) (t t' : Txn) (j : Bytes)
      → set_entry k v t ≡ some t'
      → get t' j ≡ (if k =ᵇ j then got v else get t j)
  pub get-delete_entry :
      (k : Bytes) (t t' : Txn) (j : Bytes)
      → delete_entry k t ≡ got t'
      → get t' j ≡ (if k =ᵇ j then not_found else get t j)
  pub get-deleted : (k : Bytes) (t : Txn) → delete_entry k t ≡ not_found → get t k ≡ not_found
  pub get-commit :
      (t : Txn) (d : Db) (j : Bytes) → commit t ≡ some d → get (new_transaction d) j ≡ get t j
  pub lookup-all : (t : Txn) (k : Bytes) → lookup k (all t) ≡ or_missing (get t k)
  pub all-IsSorted : (t : Txn) → IsSorted (all t)
  pub seek-eq : (start : Bytes) (t : Txn) → seek start t ≡ from_pivot start (all t)

-- `if len(val) >= 8 { cur = int64(binary.LittleEndian.Uint64(val)) }`
abbrev pub int_or_zero : Bytes → ℕ
int_or_zero val = if leb 8 (length val) then uint (take 8 val) else 0

-- The maps of `encodeDump` are lists of pairs, in the order in which its loop meets them.
unfoldable pub badger_dump_size : Map Bytes → ℕ
badger_dump_size m = 8 + pairs_size m

unfoldable pub encode_badger_dump : Map Bytes → Bytes
encode_badger_dump m = put_uint 8 (length m) ++ put_pairs m

-- The loop is that of the memory engine's decoder.
unfoldable pub decode_badger_dump : Bytes → Result DumpError (Map Bytes)
decode_badger_dump buf =
    if length buf == 0
    then ok []
    else if ltb (length buf) 8
    then err (short_header (length buf))
    else (uint_at 8 buf >>= λ (count, rest). decode_pairs count 0 [] rest)

-- `if err != nil { return err }` behind a call.
abbrev pub and_then : {A B : Type 0} → Option A → (A → Option B) → Option B
and_then none f = none
and_then (some a) f = f a

-- `len(end) > 0 && bytes.Compare(k, end) >= 0`
abbrev pub past : Bytes → Bytes → Bool
past end k = ltb 0 (length end) && not (k ≺ end)

module _ (b : BadgerStore) where
  -- `Get`, in a transaction of its own, and `badgerSnapshot.Get`.
  unfoldable pub get_badger : b.Db → Bytes → Option Bytes
  get_badger db key = or_missing (b.get (b.new_transaction db) key)

  -- `opMerge` behind the read: from the value to add to, or none.
  abbrev pub write_sum : Bytes → Bytes → ℕ → b.Txn → Option b.Txn
  write_sum k v cur t = b.set_entry k (put_uint 8 (add64 cur (int_or_zero v))) t

  abbrev pub merge_entry : Bytes → Bytes → Answer Bytes → b.Txn → Option b.Txn
  merge_entry k v (got val) t = write_sum k v (int_or_zero val) t
  merge_entry k v not_found t = write_sum k v 0 t
  merge_entry k v broken t = none

  -- `err != nil && !errors.Is(err, badger.ErrKeyNotFound)` ends the batch.
  abbrev pub after_delete : Answer b.Txn → b.Txn → Option b.Txn
  after_delete (got t') t = some t'
  after_delete not_found t = some t
  after_delete broken t = none

  unfoldable pub badger_op : BatchOp → b.Txn → Option b.Txn
  badger_op (set k v) t = b.set_entry k v t
  badger_op (delete k) t = after_delete (b.delete_entry k t) t
  badger_op (merge k v) t = merge_entry k v (b.get t k) t

  -- The loop of `ApplyBatch`.
  unfoldable pub badger_ops : List BatchOp → b.Txn → Option b.Txn
  badger_ops [] t = some t
  badger_ops (op ∷ ops) t = and_then (badger_op op t) (λ t'. badger_ops ops t')

  -- `ApplyBatch`; `none` where it returns an error. The transaction is then discarded, and the
  -- database is the one from before.
  unfoldable pub badger_apply : List BatchOp → b.Db → Option b.Db
  badger_apply ops db = and_then (badger_ops ops (b.new_transaction db)) (λ t. b.commit t)

  abbrev or_zero : Option Bytes → ℕ
  or_zero none = 0
  or_zero (some val) = int_or_zero val

  unfoldable pub badger_sequence : b.Db → ℕ
  badger_sequence db = or_zero (get_badger db applied_key)

  abbrev version_of : Answer Bytes → Answer EpochRecord
  version_of (got val) = got (decode_epoch_record_or_zero val)
  version_of not_found = got no_epoch
  version_of broken = broken

  -- `badgerSnapshot.GetVersion`
  unfoldable pub badger_version : b.Txn → Bytes → Answer EpochRecord
  badger_version t key = version_of (b.get t (version_key key))

  -- The pairs of `RawIter` and of `badgerSnapshot.NewIter`.
  unfoldable pub raw_pairs : Bytes → Bytes → b.Db → Pairs
  raw_pairs start end db = walk (past end) never (b.seek start (b.new_transaction db))

  unfoldable pub user_pairs : Bytes → Bytes → b.Txn → Pairs
  user_pairs start end t = walk (past end) is_reserved (b.seek start t)

  -- `CreateCheckpoint`: what is written to dir/dump. The pairs of the iteration have distinct keys, so
  -- the map that it fills holds them all.
  unfoldable pub checkpoint : b.Db → Bytes
  checkpoint db = encode_badger_dump (b.all (b.new_transaction db))

-- ===== src/Oshodi.antt =====
-- engine/oshodi/oshodi.go: the engine over Oshodi. The store is third-party, a parameter: `Bucket`
-- states what its methods document. The lock, which `ApplyBatch` does not take, the files and
-- telemetry are not modelled.
pub mod Prefix
pub mod Scans
pub mod Interface
mod Tests
use dpx.Base.{
  ℕ, Bytes, Bool, true, false, not, ◌&&◌, ◌||◌, leb, ltb, length, take, List, [], ◌∷◌, Option, none,
  some, if◌then◌else◌, ◌≡◌, ◌=ᵇ◌, lookup, Distinct,
}
use dpx.Codec.{
  EpochRecord, no_epoch, decode_epoch_record_or_zero, add64, uint, encode_int64, decode_int64,
}
use dpx.Engine.{BatchOp, set, delete, merge, is_reserved, applied_key, version_key}
use dpx.Engine.Order.{◌≺◌}
use dpx.Iter.Sort.{sort_pairs}
use dpx.Memory.{Pairs, walk, never}
use dpx.Tx.{Answer, got, not_found, broken, or_missing}

-- A bucket. `not_found` is `oshodi.ErrKeyNotFound`, `broken` and `none` are other errors, and then the
-- bucket is as it was. `scan` lists the pairs in any order.
pub record Bucket : Type 1 where
  pub Db : Type 0
  pub get : Db → Bytes → Answer Bytes
  pub set_key : Bytes → Bytes → Db → Option Db
  pub delete_key : Bytes → Db → Option Db
  pub flush : Db → Bool
  pub scan : Db → List (Bytes × Bytes)
  pub get-set_key :
      (k v : Bytes) (s t : Db) (j : Bytes)
      → set_key k v s ≡ some t
      → get t j ≡ (if k =ᵇ j then got v else get s j)
  pub get-delete_key :
      (k : Bytes) (s t : Db) (j : Bytes)
      → delete_key k s ≡ some t
      → get t j ≡ (if k =ᵇ j then not_found else get s j)
  pub lookup-scan : (s : Db) (k : Bytes) → lookup k (scan s) ≡ or_missing (get s k)
  pub scan-Distinct : (s : Db) → Distinct (scan s)

-- `string(op.key) == "__dpx:applied" && len(op.value) >= 8`
abbrev pub noted_seq : Bytes → Bytes → ℕ → ℕ
noted_seq k v seq = if (k =ᵇ applied_key) && leb 8 (length v) then uint (take 8 v) else seq

-- The pairs of a range, by the tests of the callbacks, and `sort.Slice`.
abbrev pub out_of_range : Bytes → Bytes → Bytes → Bool
out_of_range ss se k = (k ≺ ss) || (not (se =ᵇ []) && not (k ≺ se))

module _ (b : Bucket) where
  -- `Engine`: the bucket, and the index that the last batch has noted.
  pub record Oshodi : Type 0 where
    pub bucket : b.Db
    pub seq : ℕ

  unfoldable pub get_oshodi : Oshodi → Bytes → Option Bytes
  get_oshodi e key = or_missing (b.get e.bucket key)

  -- The case 'm' behind the read; `nil` decodes to 0.
  abbrev pub set_sum : Bytes → Bytes → Answer Bytes → b.Db → Option b.Db
  set_sum k v (got cur) s = b.set_key k (encode_int64 (add64 (decode_int64 cur) (decode_int64 v))) s
  set_sum k v not_found s = b.set_key k (encode_int64 (add64 (decode_int64 []) (decode_int64 v))) s
  set_sum k v broken s = none

  abbrev pub with_bucket : ℕ → Option b.Db → Option Oshodi
  with_bucket seq none = none
  with_bucket seq (some s) = some (record { bucket = s; seq = seq })

  -- One round of the loop of `ApplyBatch`; `none` where it returns.
  unfoldable pub oshodi_op : BatchOp → Oshodi → Option Oshodi
  oshodi_op (set k v) e = with_bucket (noted_seq k v e.seq) (b.set_key k v e.bucket)
  oshodi_op (delete k) e = with_bucket e.seq (b.delete_key k e.bucket)
  oshodi_op (merge k v) e = with_bucket e.seq (set_sum k v (b.get e.bucket k) e.bucket)

  abbrev pub continue_with : (Oshodi → Bool × Oshodi) → Oshodi → Option Oshodi → Bool × Oshodi
  continue_with f e none = (false, e)
  continue_with f e (some e') = f e'

  -- The loop: whether it has come to its end, and the engine then.
  unfoldable pub oshodi_ops : List BatchOp → Oshodi → Bool × Oshodi
  oshodi_ops [] e = (true, e)
  oshodi_ops (op ∷ ops) e = continue_with (λ e'. oshodi_ops ops e') e (oshodi_op op e)

  -- `ApplyBatch`: whether it returns no error, and the engine behind it.
  unfoldable pub oshodi_apply : Bool → List BatchOp → Oshodi → Bool × Oshodi
  oshodi_apply sync ops e =
      let (done, e') = oshodi_ops ops e in (done && (not sync || b.flush e'.bucket), e')

  abbrev seq_of : ℕ → Answer Bytes → ℕ
  seq_of seq (got val) = if ltb (length val) 8 then 0 else uint (take 8 val)
  seq_of seq not_found = 0
  seq_of seq broken = seq

  -- `CurrentSequence` over `readApplied`.
  unfoldable pub oshodi_sequence : Oshodi → ℕ
  oshodi_sequence e = seq_of e.seq (b.get e.bucket applied_key)

  -- `RawIter`
  unfoldable pub oshodi_raw_iter : Bytes → Bytes → Oshodi → Pairs
  oshodi_raw_iter start end e = sort_pairs (walk never (out_of_range start end) (b.scan e.bucket))

  -- `GetSnapshot`: the map that the scan fills, whose keys are distinct, and the noted index.
  unfoldable pub oshodi_snapshot : Oshodi → Pairs × ℕ
  oshodi_snapshot e = (b.scan e.bucket, e.seq)

-- `oshodiSnapshot`: `Get`, `GetVersion` and `NewIter`.
unfoldable pub oshodi_snapshot_get : Pairs × ℕ → Bytes → Option Bytes
oshodi_snapshot_get (m, seq) key = lookup key m

abbrev or_unwritten : Option Bytes → EpochRecord
or_unwritten none = no_epoch
or_unwritten (some val) = decode_epoch_record_or_zero val

unfoldable pub oshodi_snapshot_version : Pairs × ℕ → Bytes → EpochRecord
oshodi_snapshot_version (m, seq) key = or_unwritten (lookup (version_key key) m)

unfoldable pub oshodi_snapshot_iter : Bytes → Bytes → Pairs × ℕ → Pairs
oshodi_snapshot_iter start end (m, seq) =
    sort_pairs (walk never (λ k. out_of_range start end k || is_reserved k) m)

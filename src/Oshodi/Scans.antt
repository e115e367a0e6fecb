-- ===== src/Oshodi/Scans.antt =====
-- The scans of the engine over Oshodi: filtered, then sorted.
use dpx.Base.{Bytes, Bool, not, ◌&&◌, ◌||◌, none, ◌≡◌, ◌∙◌, if◌then◌else◌, arith, lookup, Distinct}
use dpx.Engine.{is_reserved}
use dpx.Engine.Order.{in_range}
use dpx.Iter.Sort.{sort_pairs, lookup-sort_pairs, sort_pairs-IsSorted}
use dpx.Memory.{Pairs, IsSorted, walk, never}
use dpx.Memory.Scans.{lookup-walk, walk-Distinct}
use dpx.Oshodi.{
  Bucket, Oshodi, get_oshodi, oshodi_raw_iter, oshodi_snapshot, oshodi_snapshot_get,
  oshodi_snapshot_iter, out_of_range,
}

-- Pairs that are filtered by their keys and then sorted.
lookup-sort_pairs-walk :
    (skip : Bytes → Bool) (l : Pairs) (k : Bytes)
    → Distinct l
    → lookup k (sort_pairs (walk never skip l)) ≡ (if skip k then none else lookup k l)
lookup-sort_pairs-walk skip l k d =
    lookup-sort_pairs (walk never skip l) k (walk-Distinct never skip l d) ∙ lookup-walk skip l k

sort_pairs-walk-IsSorted :
    (skip : Bytes → Bool) (l : Pairs) → Distinct l → IsSorted (sort_pairs (walk never skip l))
sort_pairs-walk-IsSorted skip l d =
    sort_pairs-IsSorted (walk never skip l) (walk-Distinct never skip l d)

-- `RawIter` delivers the key `k` exactly if it is in the range and has a value, with that value, and
-- the keys that it delivers grow strictly.
pub lookup-oshodi_raw_iter :
    (b : Bucket) (start end : Bytes) (e : Oshodi b) (k : Bytes)
    → (lookup k (oshodi_raw_iter b start end e)
        ≡ (if in_range start end k then get_oshodi b e k else none))
      × IsSorted (oshodi_raw_iter b start end e)
unfolding oshodi_raw_iter get_oshodi in_range
lookup-oshodi_raw_iter b start end e k = (
  lookup-sort_pairs-walk (out_of_range start end) (b.scan e.bucket) k (b.scan-Distinct e.bucket)
      ∙ ground (arith, b.lookup-scan e.bucket k),
  sort_pairs-walk-IsSorted (out_of_range start end) (b.scan e.bucket) (b.scan-Distinct e.bucket),
)

-- A snapshot reads the values of the moment at which it was taken, and its iterator delivers, in
-- strictly growing order, exactly the keys of its range that have a value and are not reserved.
pub lookup-oshodi_snapshot_iter :
    (b : Bucket) (start end : Bytes) (e : Oshodi b) (k : Bytes)
    → (oshodi_snapshot_get (oshodi_snapshot b e) k ≡ get_oshodi b e k)
      × (lookup k (oshodi_snapshot_iter start end (oshodi_snapshot b e))
          ≡ (if in_range start end k && not (is_reserved k) then get_oshodi b e k else none))
      × IsSorted (oshodi_snapshot_iter start end (oshodi_snapshot b e))
unfolding oshodi_snapshot_iter oshodi_snapshot_get oshodi_snapshot get_oshodi in_range
lookup-oshodi_snapshot_iter b start end e k =
    let out : Bytes → Bool = λ j. out_of_range start end j || is_reserved j in
    (
      b.lookup-scan e.bucket k,
      lookup-sort_pairs-walk out (b.scan e.bucket) k (b.scan-Distinct e.bucket)
          ∙ ground (arith, b.lookup-scan e.bucket k),
      sort_pairs-walk-IsSorted out (b.scan e.bucket) (b.scan-Distinct e.bucket),
    )

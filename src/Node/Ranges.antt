-- ===== src/Node/Ranges.antt =====
-- dpx.go: `GetRange` and `GetRangeReverse` of a node, outside a transaction, over the iterator of the
-- engine's snapshot.
use dpx.Base.{
  ℕ, ◌<◌, Bytes, Bool, true, false, length, List, Option, none, some, ◌≡◌, ap, ◌⊎◌, inl, inr,
  Result, ok, err, panic,
}
use dpx.Iter.{Iterator, Delivers, collect_iter}
use dpx.Iter.Collect.{collect_iter-terminates, oriented}
use dpx.Tx.{collect}

-- `iterator_failed` has the iterator's own error.
data RangeError : Type 0 where
  closed_store no_snapshot : RangeError
  iterator_failed : ℕ → RangeError

-- What `snap.NewIter` makes of a range.
record OpenIterator : Type 1 where
  iterator : Iterator
  state : iterator.State

abbrev NewIter : Type 1
NewIter = Bytes → Bytes → OpenIterator

abbrev or_iterator_error :
    Result ℕ (List (Bytes × Bytes)) → Result RangeError (List (Bytes × Bytes))
or_iterator_error (ok l) = ok l
or_iterator_error (err e) = err (iterator_failed e)
or_iterator_error panic = panic

abbrev or_collected :
    Option (Result ℕ (List (Bytes × Bytes))) → Option (Result RangeError (List (Bytes × Bytes)))
or_collected none = none
or_collected (some r) = some (or_iterator_error r)

-- The two range reads, from the test of `closed` and the answer of the engine's `GetSnapshot` on.
unfoldable node_range :
    Bool
    → Bool
    → NewIter ⊎ RangeError
    → ℕ
    → Bytes
    → Bytes
    → ℕ
    → Option (Result RangeError (List (Bytes × Bytes)))
node_range backward true snap fuel start end limit = some (err closed_store)
node_range backward false (inr e) fuel start end limit = some (err e)
node_range backward false (inl new_iter) fuel start end limit =
    let it = new_iter start end in
    or_collected (collect_iter it.iterator fuel limit backward it.state)

-- On an open node, a range read whose iterator delivers the pairs `l` ends and returns them, cut to
-- the limit first and then turned round for `GetRangeReverse`.
node_range-oriented :
    (backward : Bool) (new_iter : NewIter) (fuel : ℕ) (start end : Bytes) (limit : ℕ)
    → (l : List (Bytes × Bytes))
    → (let it = new_iter start end in Delivers it.iterator l (it.iterator.first it.state))
    → length l < fuel
    → node_range backward false (inl new_iter) fuel start end limit
      ≡ some (ok (oriented backward (collect limit 0 l)))
unfolding node_range
node_range-oriented backward new_iter fuel start end limit l d h =
    let it = new_iter start end in
    ap or_collected (collect_iter-terminates it.iterator it.state l fuel limit backward d h)

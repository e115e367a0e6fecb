-- ===== src/Memory/Scans.antt =====
-- What the iterators of the plain engine deliver, key by key.
use dpx.Base.{
  Bytes, Bool, true, false, not, ◌&&◌, ◌||◌, ◌≡◌, refl, ap, All, [], ◌∷◌, none, if◌then◌else◌,
  =ᵇ_iff, arith, Bool-cases, inl, inr, lookup, Distinct, ◌=ᵇ◌,
}
use dpx.Engine.{is_reserved}
use dpx.Engine.Order.{◌≺◌, ≺_trans, ≺_irrefl, in_range}
use dpx.Memory.{
  BTree, Pairs, IsSorted, from_pivot, walk, never, Plain, raw_iter_legacy, new_iter_legacy,
  get_plain,
}

-- A walk with no end delivers every pair that it does not skip.
pub lookup-walk :
    (skip : Bytes → Bool) (l : Pairs) (k : Bytes)
    → lookup k (walk never skip l) ≡ (if skip k then none else lookup k l)
unfolding lookup walk never
lookup-walk skip [] k = ground arith
lookup-walk skip ((j, v) ∷ l) k = ground (arith, lookup-walk skip l k, =ᵇ_iff j k, ap skip)

lookup_above :
    (j k : Bytes) (l : Pairs) → All (λ p. j ≺ p.0 ≡ true) l → j ≺ k ≡ false → lookup k l ≡ none
unfolding lookup
lookup_above j k [] h out = refl
lookup_above j k ((i, v) ∷ l) (h, hs) out = ground (arith, =ᵇ_iff i k, lookup_above j k l)

pub lookup-from_pivot :
    (p : Bytes) (l : Pairs) (k : Bytes)
    → IsSorted l
    → lookup k (from_pivot p l) ≡ (if k ≺ p then none else lookup k l)
unfolding lookup from_pivot
lookup-from_pivot p [] k h = ground arith
lookup-from_pivot p ((j, v) ∷ l) k (h, hs) =
    ground (arith, lookup-from_pivot p l k, =ᵇ_iff j k, lookup_above j k l h, ≺_trans j k p)

pub lookup-walk_until :
    (end : Bytes) (skip : Bytes → Bool) (l : Pairs) (k : Bytes)
    → IsSorted l
    → lookup k (walk (λ x. not (x ≺ end)) skip l)
      ≡ (if (k ≺ end) && not (skip k) then lookup k l else none)
unfolding lookup walk
lookup-walk_until end skip [] k h = ground arith
lookup-walk_until end skip ((j, v) ∷ l) k (h, hs) =
    ground
      (arith, lookup-walk_until end skip l k, =ᵇ_iff j k, lookup_above j k l h, ≺_trans j k end)

pub from_pivot-IsSorted : (p : Bytes) (l : Pairs) → IsSorted l → IsSorted (from_pivot p l)
unfolding from_pivot
from_pivot-IsSorted p [] h = h
from_pivot-IsSorted p ((j, v) ∷ l) (h, hs) = elim (Bool-cases (j ≺ p)) [
  | inl below ↦ rw below (from_pivot-IsSorted p l hs)
  | inr above ↦ rw above (h, hs)
]

pub IsSorted-Distinct : (l : Pairs) → IsSorted l → Distinct l
IsSorted-Distinct [] h = tt
IsSorted-Distinct ((k, v) ∷ l) (h, hs) = (lookup_above k k l h (≺_irrefl k), IsSorted-Distinct l hs)

lookup-walk-none :
    (stop skip : Bytes → Bool) (l : Pairs) (k : Bytes)
    → lookup k l ≡ none
    → lookup k (walk stop skip l) ≡ none
unfolding lookup walk
lookup-walk-none stop skip [] k h = refl
lookup-walk-none stop skip ((j, v) ∷ l) k h = ground (arith, lookup-walk-none stop skip l k)

pub walk-Distinct :
    (stop skip : Bytes → Bool) (l : Pairs) → Distinct l → Distinct (walk stop skip l)
unfolding walk
walk-Distinct stop skip [] d = tt
walk-Distinct stop skip ((k, v) ∷ l) (new, d) = elim (Bool-cases (stop k)) [
  | inl ends ↦ rw ends tt
  | inr goes ↦ elim (Bool-cases (skip k)) [
    | inl out ↦ rw (goes, out) (walk-Distinct stop skip l d)
    | inr kept ↦ rw (goes, kept) (lookup-walk-none stop skip l k new, walk-Distinct stop skip l d)
  ]
]

ascended : (btree : BTree) (e : Plain btree) (start : Bytes) → IsSorted (btree.ascend e.tree start)
ascended btree e start =
    rw (btree.ascend-eq e.tree start)
      (from_pivot-IsSorted start (btree.scan e.tree) (btree.scan-IsSorted e.tree))

module _ (btree : BTree) (e : Plain btree) (start end k : Bytes) where
  lookup-ascend :
      lookup k (btree.ascend e.tree start) ≡ (if k ≺ start then none else btree.get e.tree k)
  lookup-ascend = rw (
    btree.ascend-eq e.tree start,
    lookup-from_pivot start (btree.scan e.tree) k (btree.scan-IsSorted e.tree),
    btree.lookup-scan e.tree k,
  )

  -- `RawIter` delivers the key `k` exactly if it is in the range and has a value, and with that
  -- value.
  pub lookup-raw_iter_legacy :
      lookup k (raw_iter_legacy btree start end e)
      ≡ (if in_range start end k then get_plain btree e k else none)
  unfolding raw_iter_legacy get_plain in_range
  lookup-raw_iter_legacy = ground (
    arith,
    lookup-walk (λ j. j ≺ start) (btree.scan e.tree) k,
    btree.lookup-scan e.tree k,
    lookup-walk_until end never (btree.ascend e.tree start) k (ascended btree e start),
    lookup-ascend,
  )

  -- `Snapshot.NewIter` delivers the key `k` exactly if it is in the range, is not reserved and has a
  -- value, and with that value.
  pub lookup-new_iter_legacy :
      lookup k (new_iter_legacy btree start end e)
      ≡ (if in_range start end k && not (is_reserved k) then get_plain btree e k else none)
  unfolding new_iter_legacy get_plain in_range
  lookup-new_iter_legacy = ground (
    arith,
    lookup-walk (λ j. (j ≺ start) || is_reserved j) (btree.scan e.tree) k,
    btree.lookup-scan e.tree k,
    lookup-walk_until end is_reserved (btree.ascend e.tree start) k (ascended btree e start),
    lookup-ascend,
  )

-- Neither iterator delivers a key twice.
pub raw_iter_legacy-Distinct :
    (btree : BTree) (start end : Bytes) (e : Plain btree)
    → Distinct (raw_iter_legacy btree start end e)
unfolding raw_iter_legacy
raw_iter_legacy-Distinct btree start end e =
    let whole = IsSorted-Distinct (btree.scan e.tree) (btree.scan-IsSorted e.tree) in
    let part = IsSorted-Distinct (btree.ascend e.tree start) (ascended btree e start) in
    elim (Bool-cases (end =ᵇ [])) [
      | inl open_end ↦ rw open_end (walk-Distinct never _ (btree.scan e.tree) whole)
      | inr bounded ↦ rw bounded (walk-Distinct _ never (btree.ascend e.tree start) part)
    ]

pub new_iter_legacy-Distinct :
    (btree : BTree) (start end : Bytes) (e : Plain btree)
    → Distinct (new_iter_legacy btree start end e)
unfolding new_iter_legacy
new_iter_legacy-Distinct btree start end e =
    let whole = IsSorted-Distinct (btree.scan e.tree) (btree.scan-IsSorted e.tree) in
    let part = IsSorted-Distinct (btree.ascend e.tree start) (ascended btree e start) in
    elim (Bool-cases (end =ᵇ [])) [
      | inl open_end ↦ rw open_end (walk-Distinct never _ (btree.scan e.tree) whole)
      | inr bounded ↦ rw bounded (walk-Distinct _ is_reserved (btree.ascend e.tree start) part)
    ]

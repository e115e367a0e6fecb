-- ===== src/Mvcc/ScanTests.antt =====
-- A scan of an engine with two versions of one key.
use dpx.Base.{
  ℕ, Bytes, Bool, true, false, not, ◌&&◌, ◌==◌, ◌≡◌, refl, ap, List, [], ◌∷◌, none, if◌then◌else◌,
  ◌=ᵇ◌, =ᵇ_iff, arith, lookup, Distinct, Bool-cases, inl, inr,
}
use dpx.Engine.{is_reserved}
use dpx.Engine.Order.{in_range}
use dpx.Memory.{IsSorted, shard_for, num_shards}
use dpx.Mvcc.{get, Entry, Shard, Mvcc, new_mvcc, entries_of, snapshot_get}
use dpx.Mvcc.Search.{IsSorted as Ordered}
use dpx.Mvcc.Scans.{
  shards_live, shard_live, last_live, new_iterator, IsOrderly, lookup-new_iterator,
}

abbrev alice : Bytes
alice = b'a' ∷ []

abbrev versions : List Entry
versions =
    record { seq = 1; value = 5 ∷ []; deleted = false }
    ∷ record { seq = 3; value = 7 ∷ []; deleted = false }
    ∷ []

abbrev shard_of : Bool → Shard
shard_of true = (alice, versions) ∷ []
shard_of false = []

abbrev one_key : Mvcc
one_key = record new_mvcc { shards = λ i. shard_of (i == shard_for alice) }

shard_of-Distinct : (b : Bool) → Distinct (shard_of b)
unfolding lookup
shard_of-Distinct true = (refl, tt)
shard_of-Distinct false = tt

shard_of-other :
    (i : ℕ) (k : Bytes) (b : Bool)
    → (i == shard_for alice) ≡ b
    → (i == shard_for k) ≡ false
    → lookup k (shard_of b) ≡ none
unfolding lookup
shard_of-other i k false e h = refl
shard_of-other i k true e h = elim (Bool-cases (alice =ᵇ k)) [
  | inr n ↦ rw n refl
  | inl y ↦
      let same : shard_for alice ≡ shard_for k = ap shard_for ((=ᵇ_iff alice k).0 y) in
      absurd (ground (arith, ap (λ j. i == j) same, e, h))
]

shard_of-Ordered : (k : Bytes) (b : Bool) → Ordered (entries_of (shard_of b) k)
unfolding entries_of lookup
shard_of-Ordered k false = tt
shard_of-Ordered k true = elim (Bool-cases (alice =ᵇ k)) [
  | inl y ↦ rw y ((omega arith, tt), (tt, tt))
  | inr n ↦ rw n tt
]

orderly : IsOrderly one_key
orderly = (
  λ i. shard_of-Distinct (i == shard_for alice),
  λ i k h. shard_of-other i k (i == shard_for alice) refl h,
  λ k. shard_of-Ordered k (shard_for k == shard_for alice),
)

lookup-new_iterator_example :
    (lookup alice (new_iterator [] [] 2 one_key) ≡ (
      if in_range [] [] alice && not (is_reserved alice)
      then snapshot_get one_key 2 alice
      else none))
    × IsSorted (new_iterator [] [] 2 one_key)
lookup-new_iterator_example = lookup-new_iterator [] [] 2 one_key orderly alice

-- The key is deleted, `Get` does not find it, and a checkpoint holds its value from before.
abbrev deleted_key : Mvcc
deleted_key = record new_mvcc {
  shards = λ i.
      if i == shard_for alice
      then (
        alice,
        record { seq = 1; value = 5 ∷ []; deleted = false }
            ∷ record { seq = 3; value = []; deleted = true }
            ∷ [],
      )
        ∷ []
      else [];
}

deleted_comes_back :
    (get deleted_key alice ≡ none)
    × (shards_live num_shards 0 deleted_key ([], 0) ≡ ((alice, 5 ∷ []) ∷ [], 1))
unfolding get entries_of lookup shard_for ◌=ᵇ◌ shards_live shard_live last_live
deleted_comes_back = (refl, refl)

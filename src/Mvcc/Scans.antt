-- ===== src/Mvcc/Scans.antt =====
-- `newIterator` and `CreateCheckpoint` of the multi-version engine. The loops over a shard's map meet
-- its keys in any order; here it is that of the list.
use mathlib.Core.Path.{subst}
use dpx.Base.{
  ==_iff, ℕ, zero, suc, ◌+◌, Bytes, Bool, true, false, not, ◌&&◌, ◌||◌, ltb, ◌==◌, ◌≡◌, refl, ap,
  sym, ◌∙◌, List, [], ◌∷◌, Option, none, some, if◌then◌else◌, ◌=ᵇ◌, =ᵇ_iff, arith, lookup, Distinct,
  Bool-cases, inl, inr,
}
use dpx.Dump.{encode_dump}
use dpx.Engine.{is_reserved}
use dpx.Engine.Order.{◌≺◌, in_range}
use dpx.Iter.Sort.{sort_pairs}
use dpx.Memory.{Pairs, IsSorted, num_shards, shard_for}
use dpx.Memory.Joined.{join_shards, lookup-sort_pairs-join_shards}
use dpx.Mvcc.Search.{find_version-eq-linear, IsSorted as Ordered}
use dpx.Mvcc.{
  Entry, Shard, Mvcc, entries_of, or_no_entries, live_value, entry_at, find_version_linear,
  linear_loop, snapshot_get,
}

-- The tests of the loop by which a key is passed over.
unfoldable pub is_skipped : Bytes → Bytes → Bytes → Bool
is_skipped ss se k = (k ≺ ss) || ((not (se =ᵇ []) && not (k ≺ se)) || is_reserved k)

abbrev pub add_found : Bytes → Option Bytes → Pairs → Pairs
add_found k none rest = rest
add_found k (some v) rest = (k, v) ∷ rest

-- The value of the version that the linear search finds.
abbrev pub value_at : ℕ → List Entry → Option Bytes
value_at seq es = live_value (entry_at es (find_version_linear es seq))

-- The loop over one shard.
unfoldable pub shard_iter : Bytes → Bytes → ℕ → Shard → Pairs
shard_iter ss se seq [] = []
shard_iter ss se seq ((k, es) ∷ s) =
    let rest = shard_iter ss se seq s in
    add_found k (if is_skipped ss se k then none else value_at seq es) rest

-- `newIterator`, what `NewIter` calls with the snapshot's sequence.
unfoldable pub new_iterator : Bytes → Bytes → ℕ → Mvcc → Pairs
new_iterator ss se seq e =
    sort_pairs (join_shards (λ i. shard_iter ss se seq (e.shards i)) num_shards 0)

-- `RawIter`
unfoldable pub mvcc_raw_iter : Bytes → Bytes → Mvcc → Pairs
mvcc_raw_iter start end e = new_iterator start end e.seq_counter e

-- The newest version that is no tombstone.
unfoldable pub last_live : List Entry → Option Entry
last_live [] = none
last_live (e ∷ es) = elim (last_live es) [
  | some f ↦ some f
  | none ↦ if e.deleted then none else some e
]

abbrev pub add_live : Bytes → Option Entry → Pairs × ℕ → Pairs × ℕ
add_live k none (m, applied) = (m, applied)
add_live k (some e) (m, applied) = ((k, e.value) ∷ m, if ltb applied e.seq then e.seq else applied)

-- The loops of `CreateCheckpoint`: the pairs, and the largest sequence among them.
unfoldable pub shard_live : Shard → Pairs × ℕ → Pairs × ℕ
shard_live [] acc = acc
shard_live ((k, es) ∷ s) acc = shard_live s (add_live k (last_live es) acc)

unfoldable pub shards_live : ℕ → ℕ → Mvcc → Pairs × ℕ → Pairs × ℕ
shards_live zero i e acc = acc
shards_live (suc n) i e acc = shards_live n (i + 1) e (shard_live (e.shards i) acc)

unfoldable pub checkpoint_mvcc : Mvcc → Bytes
checkpoint_mvcc e = let (m, applied) = shards_live num_shards 0 e ([], 0) in encode_dump m applied

found_here :
    (j k : Bytes) (o : Option Bytes) (rest : Pairs)
    → (j =ᵇ k) ≡ true
    → lookup k rest ≡ none
    → lookup k (add_found j o rest) ≡ o
unfolding lookup
found_here j k none rest e gone = gone
found_here j k (some v) rest e gone = rw e refl

found_elsewhere :
    (j k : Bytes) (o : Option Bytes) (rest : Pairs)
    → (j =ᵇ k) ≡ false
    → lookup k (add_found j o rest) ≡ lookup k rest
unfolding lookup
found_elsewhere j k none rest e = refl
found_elsewhere j k (some v) rest e = rw e refl

-- What a shard delivers of the key `k`, given its versions in the shard.
abbrev delivered : Bytes → Bytes → ℕ → Bytes → Option (List Entry) → Option Bytes
delivered ss se seq k es = if is_skipped ss se k then none else value_at seq (or_no_entries es)

delivered-none : (ss se : Bytes) (seq : ℕ) (k : Bytes) → delivered ss se seq k none ≡ none
unfolding find_version_linear linear_loop
delivered-none ss se seq k = ground arith

lookup-shard_iter :
    (ss se : Bytes) (seq : ℕ) (s : Shard) (k : Bytes)
    → Distinct s
    → lookup k (shard_iter ss se seq s) ≡ delivered ss se seq k (lookup k s)
unfolding lookup shard_iter
lookup-shard_iter ss se seq [] k d = sym (delivered-none ss se seq k)
lookup-shard_iter ss se seq ((j, es) ∷ s) k (new, d) =
    let rest = shard_iter ss se seq s in
    let o = delivered ss se seq j (some es) in
    elim (Bool-cases (j =ᵇ k)) [
      | inl same ↦
          let eq : j ≡ k = (=ᵇ_iff j k).0 same in
          let gone : lookup k rest ≡ none =
            lookup-shard_iter ss se seq s k d
            ∙ ap (delivered ss se seq k) (subst (λ i. lookup i s ≡ none) eq new)
            ∙ delivered-none ss se seq k in
          rw same (found_here j k o rest same gone ∙ ap (λ i. delivered ss se seq i (some es)) eq)
      | inr other ↦ rw other (found_elsewhere j k o rest other ∙ lookup-shard_iter ss se seq s k d)
    ]

add_found-Distinct :
    (j : Bytes) (o : Option Bytes) (rest : Pairs)
    → lookup j rest ≡ none
    → Distinct rest
    → Distinct (add_found j o rest)
add_found-Distinct j none rest gone d = d
add_found-Distinct j (some v) rest gone d = (gone, d)

shard_iter-Distinct :
    (ss se : Bytes) (seq : ℕ) (s : Shard) → Distinct s → Distinct (shard_iter ss se seq s)
unfolding shard_iter
shard_iter-Distinct ss se seq [] d = tt
shard_iter-Distinct ss se seq ((j, es) ∷ s) (new, d) =
    add_found-Distinct j (delivered ss se seq j (some es)) (shard_iter ss se seq s)
      (lookup-shard_iter ss se seq s j d
        ∙ ap (delivered ss se seq j) new
        ∙ delivered-none ss se seq j)
      (shard_iter-Distinct ss se seq s d)

-- Each shard has its own keys only, no key twice, and the versions of a key in order.
abbrev pub IsOrderly : Mvcc → Type 0
IsOrderly e =
    ((i : ℕ) → Distinct (e.shards i))
    × ((i : ℕ) (k : Bytes) → (i == shard_for k) ≡ false → lookup k (e.shards i) ≡ none)
    × ((k : Bytes) → Ordered (entries_of (e.shards (shard_for k)) k))

module _ (start end : Bytes) (seq : ℕ) (e : Mvcc) (orderly : IsOrderly e) where
  wanted : Bytes → Option Bytes
  wanted k = delivered start end seq k (lookup k (e.shards (shard_for k)))

  own :
      (i : ℕ) (k : Bytes)
      → (i == shard_for k) ≡ true
      → lookup k (shard_iter start end seq (e.shards i)) ≡ wanted k
  unfolding wanted
  own i k h =
      lookup-shard_iter start end seq (e.shards i) k (orderly.0 i)
      ∙ ap (λ j. delivered start end seq k (lookup k (e.shards j))) ((==_iff i (shard_for k)).0 h)

  others :
      (i : ℕ) (k : Bytes)
      → (i == shard_for k) ≡ false
      → lookup k (shard_iter start end seq (e.shards i)) ≡ none
  others i k h =
      lookup-shard_iter start end seq (e.shards i) k (orderly.0 i)
      ∙ ap (delivered start end seq k) (orderly.1 i k h)
      ∙ delivered-none start end seq k

  wanted-snapshot_get :
      (k : Bytes)
      → wanted k
        ≡ (if in_range start end k && not (is_reserved k) then snapshot_get e seq k else none)
  unfolding wanted in_range is_skipped snapshot_get entries_of
  wanted-snapshot_get k =
      ground
        (arith, find_version-eq-linear (entries_of (e.shards (shard_for k)) k) seq (orderly.2 k))

  -- A scan at a sequence delivers, in strictly growing order, exactly the keys of its range that are
  -- not reserved and of which a snapshot with that sequence reads a value, with that value.
  pub lookup-new_iterator :
      (k : Bytes)
      → (lookup k (new_iterator start end seq e)
          ≡ (if in_range start end k && not (is_reserved k) then snapshot_get e seq k else none))
        × IsSorted (new_iterator start end seq e)
  unfolding new_iterator
  lookup-new_iterator k =
      let (found, sorted) =
        lookup-sort_pairs-join_shards (λ i. shard_iter start end seq (e.shards i)) wanted own others
          (λ i. shard_iter-Distinct start end seq (e.shards i) (orderly.0 i)) k in
      (found ∙ wanted-snapshot_get k, sorted)

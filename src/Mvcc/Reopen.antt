-- ===== src/Mvcc/Reopen.antt =====
-- `Open` from a dump.
use dpx.Base.{
  Distinct, ℕ, ◌<◌, ◌≡◌, refl, sym, ap, ◌∙◌, Bytes, false, All, List, [], ◌∷◌, ◌++◌, Option, none,
  some, if◌then◌else◌, Bool-cases, inl, inr, ◌==◌, lookup, lookup-insert, append-nil, ◌=ᵇ◌, =ᵇ_iff,
  ==_iff,
}
use dpx.Memory.{shard_for}
use dpx.Mvcc.{
  Entry, Shard, Mvcc, new_mvcc, entries_of, or_no_entries, load_pair, load_pairs, open_mvcc,
  last_entry, live_value, get, snapshot_get, get_snapshot, entry_at, find_version,
}
use dpx.Mvcc.Search.{IsSorted, entry_at-find_version}
use dpx.Mvcc.Loss.{visible-later}

abbrev loaded : ℕ → Option Bytes → List Entry
loaded applied none = []
loaded applied (some v) = record { seq = applied; value = v; deleted = false } ∷ []

entries_of-load_pair :
    (applied : ℕ) (j v : Bytes) (shards : ℕ → Shard) (k : Bytes)
    → entries_of (load_pair applied j v shards (shard_for k)) k
      ≡ entries_of (shards (shard_for k)) k ++ loaded applied (if j =ᵇ k then some v else none)
unfolding load_pair entries_of
entries_of-load_pair applied j v shards k =
    let sh = shard_for k in
    let new = or_no_entries (lookup j (shards sh)) ++ loaded applied (some v) in
    elim (Bool-cases (j =ᵇ k)) [
      | inl same ↦
          let e : j ≡ k = (=ᵇ_iff j k).0 same in
          rw
            (
              load_pair,
              (==_iff (shard_for j) sh).1 (ap shard_for e),
              lookup-insert j k new (shards sh),
              same,
            )
            (ap (λ i. or_no_entries (lookup i (shards sh)) ++ loaded applied (some v)) e)
      | inr other ↦ elim (Bool-cases (shard_for j == sh)) [
        | inl near ↦
            rw (load_pair, near, lookup-insert j k new (shards sh), other)
              (sym (append-nil (or_no_entries (lookup k (shards sh)))))
        | inr far ↦
            rw (load_pair, far, other) (sym (append-nil (or_no_entries (lookup k (shards sh)))))
      ]
    ]

entries_of-load_pairs :
    (applied : ℕ) (pairs : List (Bytes × Bytes)) (shards : ℕ → Shard) (k : Bytes)
    → Distinct pairs
    → entries_of (load_pairs applied pairs shards (shard_for k)) k
      ≡ entries_of (shards (shard_for k)) k ++ loaded applied (lookup k pairs)
unfolding load_pairs lookup
entries_of-load_pairs applied [] shards k d = sym (append-nil (entries_of (shards (shard_for k)) k))
entries_of-load_pairs applied ((j, v) ∷ rest) shards k (d, ds) =
    let old = entries_of (shards (shard_for k)) k in
    entries_of-load_pairs applied rest (load_pair applied j v shards) k ds
    ∙ ap (λ l. l ++ loaded applied (lookup k rest)) (entries_of-load_pair applied j v shards k)
    ∙ elim (Bool-cases (j =ᵇ k)) [
      | inl same ↦
          let gone : lookup k rest ≡ none = rw (← (=ᵇ_iff j k).0 same) d in
          rw (same, gone) (append-nil (old ++ loaded applied (some v)))
      | inr other ↦ rw other (rw append-nil)
    ]

-- The engine that `Open` makes of a dump.
abbrev pub reopened : List (Bytes × Bytes) → ℕ → Mvcc
reopened pairs applied = open_mvcc pairs applied new_mvcc

entries_of-reopened :
    (pairs : List (Bytes × Bytes)) (applied : ℕ) (k : Bytes)
    → Distinct pairs
    → entries_of ((reopened pairs applied).shards (shard_for k)) k ≡ loaded applied (lookup k pairs)
unfolding open_mvcc
entries_of-reopened pairs applied k d =
    entries_of-load_pairs applied pairs (λ i. []) k d ∙ unfold entries_of lookup in refl

live_loaded : (applied : ℕ) (o : Option Bytes) → live_value (last_entry (loaded applied o)) ≡ o
live_loaded applied none = refl
live_loaded applied (some v) = refl

loaded-late :
    (applied : ℕ) (o : Option Bytes)
    → 0 < applied
    → All (λ (x : Entry). 0 < x.seq) (loaded applied o)
loaded-late applied none h = tt
loaded-late applied (some v) h = (h, tt)

loaded-IsSorted : (applied : ℕ) (o : Option Bytes) → IsSorted (loaded applied o)
loaded-IsSorted applied none = tt
loaded-IsSorted applied (some v) = (tt, tt)

-- After `Open` of a dump with distinct keys and a positive index `Get` returns the value that the dump has for each
-- key, while a snapshot finds no value for any key: `Open` sets the sequence counter and not
-- `lastCommitted`, at which snapshots read.
pub reopened_snapshot_empty :
    (pairs : List (Bytes × Bytes)) (applied : ℕ) (k : Bytes)
    → Distinct pairs
    → 0 < applied
    → let e = reopened pairs applied in
      (get e k ≡ lookup k pairs) × (snapshot_get e (get_snapshot e).0 k ≡ none)
unfolding get snapshot_get get_snapshot open_mvcc
reopened_snapshot_empty pairs applied k d h =
    let o = lookup k pairs in
    let same = entries_of-reopened pairs applied k d in
    (
      ap (λ es. live_value (last_entry es)) same ∙ live_loaded applied o,
      ap (λ es. live_value (entry_at es (find_version es 0))) same
          ∙ ap live_value (
              entry_at-find_version (loaded applied o) 0 (loaded-IsSorted applied o)
              ∙ visible-later 0 (loaded applied o) (loaded-late applied o h)),
    )

-- ===== src/Mvcc/Loss.antt =====
-- `Compact` on what open snapshots read.
use dpx.Base.{
  ℕ, ◌≤◌, ◌<◌, ◌≡◌, refl, ap, ◌∙◌, Bytes, length, All, List, [], ◌∷◌, ◌++◌, Option, none, some,
  arith, lookup, length-append, drop-append, All-map,
}
use dpx.Memory.{shard_for}
use dpx.Mvcc.{
  Entry, Mvcc, new_mvcc, entries_of, or_no_entries, last_entry, live_value, count_below,
  remove_count, compact_entries, compact, safe_sequence, snapshot_get, entry_at, find_version,
}
use dpx.Mvcc.Search.{IsSorted, visible, entry_at-find_version}
use dpx.Mvcc.Versions.{visible-append, visible_all}
use dpx.Mvcc.Snapshots.{Steps, versions, Steps-IsValid}
use dpx.Mvcc.Compaction.{Steps-AllDistinct, entries_of-compact}

-- Two versions or more that a snapshot at `s` does not see, behind those that it does.
count_below-append :
    (s : ℕ) (olds news : List Entry)
    → All (λ (x : Entry). x.seq < s) olds
    → All (λ (x : Entry). s < x.seq) news
    → count_below s (olds ++ news) ≡ length olds
unfolding count_below
count_below-append s [] [] lo hi = refl
count_below-append s [] (n ∷ news) lo hi = ground arith
count_below-append s (o ∷ olds) news (lo, los) hi =
    ground (arith, count_below-append s olds news los hi)

pub visible-later :
    (s : ℕ) (news : List Entry) → All (λ (x : Entry). s < x.seq) news → visible news s ≡ none
unfolding visible
visible-later s [] h = refl
visible-later s (n ∷ news) h = ground arith

compact_entries-split :
    (s : ℕ) (olds news : List Entry)
    → 0 < s
    → 0 < length olds
    → 2 ≤ length news
    → All (λ (x : Entry). x.seq < s) olds
    → All (λ (x : Entry). s < x.seq) news
    → compact_entries s (olds ++ news) ≡ some news
unfolding compact_entries remove_count
compact_entries-split s olds news pos some_old two lo hi =
    let n = length-append olds news in
    let c = count_below-append s olds news lo hi in
    let d = drop-append olds news in ground (arith, n, c, d)

IsSorted-suffix : (xs ys : List Entry) → IsSorted (xs ++ ys) → IsSorted ys
IsSorted-suffix [] ys h = h
IsSorted-suffix (x ∷ xs) ys h = IsSorted-suffix xs ys h.1

visible-split :
    (s : ℕ) (olds news : List Entry)
    → All (λ (x : Entry). x.seq < s) olds
    → All (λ (x : Entry). s < x.seq) news
    → visible (olds ++ news) s ≡ last_entry olds
visible-split s olds news lo hi =
    visible-append olds news s hi ∙ visible_all olds s (All-map (λ x h. omega arith) olds lo)

lookup-some :
    (o : Option (List Entry)) (es : List Entry) → 0 < length es → or_no_entries o ≡ es → o ≡ some es
lookup-some none es h e = absurd (omega (arith, ap length e))
lookup-some (some x) es h e = ap some e

-- The versions of one key as compaction finds them while the oldest open snapshot is at `s`: one or
-- more from before `s`, and two or more from after.
pub record IsSplit (e : Mvcc) (s : ℕ) (k : Bytes) (olds news : List Entry) : Type 0 where
  pub oldest : safe_sequence e ≡ s
  pub started : 0 < s
  pub split : versions e (shard_for k) k ≡ olds ++ news
  pub some_old : 0 < length olds
  pub two_new : 2 ≤ length news
  pub before : All (λ (x : Entry). x.seq < s) olds
  pub after : All (λ (x : Entry). s < x.seq) news

-- Compaction removes a version that an open snapshot still reads, on an engine that calls other than
-- compaction have made from a new one, without overflowing the sequence counter: if the oldest open snapshot is at
-- `s`, and a key has versions from before `s` and two or more from after, then the snapshot reads
-- the last version from before `s`, and after `Compact` it finds no value.
pub compact_loses_version :
    {e : Mvcc} {s : ℕ} (k : Bytes) {olds news : List Entry}
    → Steps new_mvcc e
    → IsSplit e s k olds news
    → (snapshot_get e s k ≡ live_value (last_entry olds)) × (snapshot_get (compact e) s k ≡ none)
unfolding snapshot_get
compact_loses_version {e} {s} k {olds} {news} steps h =
    let sh = shard_for k in
    let sorted : IsSorted (olds ++ news) = rw h.split at ((Steps-IsValid steps).ordered sh k) in
    let found =
      lookup-some (lookup k (e.shards sh)) (olds ++ news)
        (omega (arith, length-append olds news, h.some_old)) (unfold entries_of in h.split) in
    let kept : versions (compact e) sh k ≡ news =
      entries_of-compact e sh k ((Steps-AllDistinct steps).at sh)
      ∙ ap
          (λ o.
            or_no_entries (elim o [ none ↦ none | some es ↦ compact_entries (safe_sequence e) es ]))
          found
      ∙ ap (λ n. or_no_entries (compact_entries n (olds ++ news))) h.oldest
      ∙ ap or_no_entries
          (compact_entries-split s olds news h.started h.some_old h.two_new h.before h.after) in
    (
      ap (λ es. live_value (entry_at es (find_version es s))) h.split
          ∙ ap live_value (
              entry_at-find_version (olds ++ news) s sorted
              ∙ visible-split s olds news h.before h.after),
      ap (λ es. live_value (entry_at es (find_version es s))) kept
          ∙ ap live_value (
              entry_at-find_version news s (IsSorted-suffix olds news sorted)
              ∙ visible-later s news h.after),
    )

-- ===== src/Mvcc/Compaction.antt =====
-- `Compact`: what it keeps of the current values.
use dpx.Base.{
  ℕ, zero, suc, ◌+◌, ◌≤◌, ◌<◌, ◌≡◌, refl, ap, ◌∙◌, Bytes, length, drop, List, [], ◌∷◌, ◌++◌, Option,
  none, some, arith, Bool-cases, inl, inr, ◌==◌, lookup, insert, =ᵇ_iff, ◌=ᵇ◌, lookup-insert,
}
use dpx.Engine.{BatchOp, op_key}
use dpx.Memory.{shard_for}
use dpx.Memory.Batches.{for_shard}
use dpx.Mvcc.{
  Entry, Shard, Mvcc, new_mvcc, entries_of, or_no_entries, last_entry, live_value, count_below,
  remove_count, compact_entries, compact_shard, compact, safe_sequence, get, apply_op, apply_ops,
  apply_batch, apply_shard_direct, get_snapshot, close_snapshot, new_entry,
}
use dpx.Mvcc.Snapshots.{Steps, Step, here, next, batch, direct, snapshot, close, versions}

-- A Go map has one entry for a key.
abbrev pub IsDistinct : Shard → Type 0
IsDistinct [] = Unit
IsDistinct ((k, es) ∷ s) = (lookup k s ≡ none) × IsDistinct s

insert-IsDistinct :
    (k : Bytes) (es : List Entry) (s : Shard) → IsDistinct s → IsDistinct (insert k es s)
unfolding insert lookup
insert-IsDistinct k es [] d = (refl, tt)
insert-IsDistinct k es ((j, fs) ∷ s) (d, ds) = elim (Bool-cases (j =ᵇ k)) [
  | inl same ↦ rw (same, insert) (rw ((=ᵇ_iff j k).0 same) at d, ds)
  | inr other ↦
      rw (other, insert)
        (
          lookup-insert k j es s ∙ ground (arith, =ᵇ_iff j k, =ᵇ_iff k j),
          insert-IsDistinct k es s ds,
        )
]

lookup-compact_shard :
    (safe : ℕ) (s : Shard) (k : Bytes)
    → IsDistinct s
    → lookup k (compact_shard safe s)
      ≡ (elim (lookup k s) [ none ↦ none | some es ↦ compact_entries safe es ])
unfolding lookup compact_shard
lookup-compact_shard safe [] k d = refl
lookup-compact_shard safe ((j, es) ∷ s) k (d, ds) =
    ground (arith, lookup-compact_shard safe s k ds, =ᵇ_iff j k, ap (λ x. lookup x s))

last_entry-drop : (n : ℕ) (es : List Entry) → n < length es → last_entry (drop n es) ≡ last_entry es
last_entry-drop zero es h = refl
last_entry-drop (suc n) [] h = absurd (omega arith)
last_entry-drop (suc n) (e ∷ []) h = absurd (omega arith)
last_entry-drop (suc n) (e ∷ f ∷ es) h = last_entry-drop n (f ∷ es) (omega arith)

count_below-le : (safe : ℕ) (es : List Entry) → count_below safe es ≤ length es
unfolding count_below
count_below-le safe [] = omega arith
count_below-le safe (e ∷ es) = ground (arith, count_below-le safe es)

-- Of more than two versions at least two are kept.
remove_count-le :
    (safe : ℕ) (es : List Entry) → 2 < length es → remove_count safe es + 2 ≤ length es
unfolding remove_count
remove_count-le safe es h = ground (arith, count_below-le safe es)

compact_entries-latest :
    (safe : ℕ) (es : List Entry)
    → live_value (last_entry (or_no_entries (compact_entries safe es))) ≡ live_value (last_entry es)
unfolding compact_entries
compact_entries-latest safe es =
    ground (arith, remove_count-le safe es, last_entry-drop (remove_count safe es) es)

pub record AllDistinct (e : Mvcc) : Type 0 where
  pub at : (sh : ℕ) → IsDistinct (e.shards sh)

apply_ops-IsDistinct :
    (seq : ℕ) (ops : List BatchOp) (s : Shard) → IsDistinct s → IsDistinct (apply_ops seq ops s)
unfolding apply_ops apply_op
apply_ops-IsDistinct seq [] s d = d
apply_ops-IsDistinct seq (op ∷ ops) s d =
    let es = entries_of s (op_key op) in
    apply_ops-IsDistinct seq ops (apply_op seq op s)
      (insert-IsDistinct (op_key op) (es ++ (new_entry seq op es ∷ [])) s d)

Step-AllDistinct : {e e' : Mvcc} → Step e e' → AllDistinct e → AllDistinct e'
unfolding apply_batch apply_shard_direct get_snapshot close_snapshot
Step-AllDistinct (batch e [] room) d = d
Step-AllDistinct (batch e (op ∷ ops) room) d = record {
  at = λ sh. apply_ops-IsDistinct _ (for_shard sh (op ∷ ops)) (e.shards sh) (d.at sh);
}
Step-AllDistinct (direct e sh ops room) d = record {
  at = λ j. elim (Bool-cases (j == sh)) [
    | inl here' ↦ rw here' (apply_ops-IsDistinct _ ops (e.shards j) (d.at j))
    | inr away ↦ rw away (d.at j)
  ];
}
Step-AllDistinct (snapshot e) d = record { at = d.at }
Step-AllDistinct (close e) d = record { at = d.at }

pub Steps-AllDistinct : {e : Mvcc} → Steps new_mvcc e → AllDistinct e
Steps-AllDistinct here = record { at = λ sh. tt }
Steps-AllDistinct (next steps st) = Step-AllDistinct st (Steps-AllDistinct steps)

pub entries_of-compact :
    (e : Mvcc) (sh : ℕ) (k : Bytes)
    → IsDistinct (e.shards sh)
    → versions (compact e) sh k
      ≡ or_no_entries (elim (lookup k (e.shards sh)) [
        | none ↦ none
        | some es ↦ compact_entries (safe_sequence e) es
      ])
unfolding entries_of compact
entries_of-compact e sh k d =
    ap or_no_entries (lookup-compact_shard (safe_sequence e) (e.shards sh) k d)

compact_latest_shard :
    (safe : ℕ) (o : Option (List Entry))
    → live_value
        (last_entry (or_no_entries (elim o [ none ↦ none | some es ↦ compact_entries safe es ])))
      ≡ live_value (last_entry (or_no_entries o))
compact_latest_shard safe none = refl
compact_latest_shard safe (some es) = compact_entries-latest safe es

-- Compaction changes no current value: on an engine that calls other than compaction have made from
-- a new one, without overflowing the sequence counter, `Get` returns for each key the same before and
-- after it, deleted keys included.
pub get-compact : {e : Mvcc} (k : Bytes) → Steps new_mvcc e → get (compact e) k ≡ get e k
unfolding get
get-compact {e} k steps =
    let sh = shard_for k in
    let d = (Steps-AllDistinct steps).at sh in
    ap (λ es. live_value (last_entry es)) (entries_of-compact e sh k d)
    ∙ compact_latest_shard (safe_sequence e) (lookup k (e.shards sh))
    ∙ unfold entries_of in refl

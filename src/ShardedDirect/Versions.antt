-- ===== src/ShardedDirect/Versions.antt =====
-- Over the multi-version engine: where `applyInline` puts a version record, and where it is looked
-- for.
use dpx.Base.{
  ℕ, ◌≤◌, ◌<◌, ◌+◌, Bytes, true, false, ◌≡◌, refl, sym, ap, ◌∙◌, All, leb, length, List, [], suc,
  ◌∷◌, ◌++◌, Bool-cases, inl, inr, arith, insert, lookup, ◌==◌, ==_iff, ◌=ᵇ◌, =ᵇ_iff,
}
use mathlib.Core.Path.{subst}
use dpx.Codec.{EpochRecord, add64, two64}
use dpx.Engine.{version_key}
use dpx.Proposal.{ReadEntry, Proposal, WriteEntry}
use dpx.Memory.{shard_for}
use dpx.Mvcc.{
  Mvcc, Entry, Shard, entries_of, new_entry, apply_op, apply_ops, get, snapshot_get_version,
  get_snapshot, version_or_zero, entry_at, find_version, search_loop, last_entry, live_value,
}
use dpx.Mvcc
use dpx.Fsm.{epoch_of, conflicted, epoch_record, detect_conflict, entry_conflicts, Epochs}
use dpx.Fsm.Staging.{epoch_of-insert}
use dpx.Direct.{max_stack_shadow}
use dpx.Direct.Reset.{set_key, plain_read_at}
use dpx.ShardedDirect.Inline.{apply_inline_blocked}
use dpx.ShardedDirect.Cross.{apply_inline-index}
use dpx.ShardedDirect.{
  ShardedDirect, inline_conflict, record_epochs, commit_mvcc, apply_all, apply_inline, route,
  route_key, hash_bytes,
}

-- `shardFor` mirrors the engine's.
pub route_key-eq-shard_for : (k : Bytes) → route_key k ≡ shard_for k
unfolding route_key shard_for hash_bytes
route_key-eq-shard_for k = refl

-- The key has been written, and its version record is not where it is looked for.
abbrev pub IsStuck : Bytes → ShardedDirect Mvcc → Type 0
IsStuck k d =
    let vk = version_key k in
    (entries_of (d.store.shards (shard_for vk)) vk ≡ [])
    × (1 ≤ (epoch_of (d.shards (shard_for k)).key_epoch k).epoch)

record_epochs-epoch :
    (k : Bytes) (idx : ℕ) (ws : List WriteEntry) (m : Epochs)
    → 1 ≤ idx
    → 1 ≤ (epoch_of m k).epoch
    → 1 ≤ (epoch_of (record_epochs idx ws m) k).epoch
unfolding record_epochs
record_epochs-epoch k idx [] m first pos = pos
record_epochs-epoch k idx (w ∷ ws) m first pos =
    record_epochs-epoch k idx ws (insert w.key (epoch_record idx w) m) first
      (elim (Bool-cases (w.key =ᵇ k)) [
        | inl hit ↦
            rw (epoch_of-insert w.key k (epoch_record idx w) m, hit) (unfold epoch_record in first)
        | inr other ↦ rw (epoch_of-insert w.key k (epoch_record idx w) m, other) pos
      ])

apply_inline-IsStuck :
    (k : Bytes) (i : ℕ) (p : Proposal) (d : ShardedDirect Mvcc)
    → (shard_for (version_key k) == i) ≡ false
    → (d.shards i).index + 1 < two64
    → IsStuck k d
    → IsStuck k (apply_inline commit_mvcc i p d).1
unfolding apply_inline commit_mvcc Mvcc.apply_shard_direct
apply_inline-IsStuck k i p d away room (empty, pos) =
    let sp = d.shards i in
    let idx = add64 sp.index 1 in
    let first : 1 ≤ idx = unfold add64 in omega arith in
    let pos_at : (shard_for k == i) ≡ true → 1 ≤ (epoch_of sp.key_epoch k).epoch = λ here.
      subst (λ j. 1 ≤ (epoch_of (d.shards j).key_epoch k).epoch) ((==_iff (shard_for k) i).0 here)
        pos in
    elim (Bool-cases (inline_conflict sp.key_epoch p)) [
      | inl clash ↦ rw clash (
        empty,
        elim (Bool-cases (shard_for k == i)) [
          | inl here ↦ rw here (pos_at here)
          | inr there ↦ rw there pos
        ],
      )
      | inr clear ↦
          rw (clear, away)
            (
              empty,
              elim (Bool-cases (shard_for k == i)) [
                | inl here ↦
                    rw here (record_epochs-epoch k idx p.writes sp.key_epoch first (pos_at here))
                | inr there ↦ rw there pos
              ],
            )
    ]

apply_all-IsStuck :
    (k : Bytes) (ps : List Proposal) (d : ShardedDirect Mvcc)
    → All (λ p. (shard_for (version_key k) == route p) ≡ false) ps
    → ((j : ℕ) → (d.shards j).index + length ps < two64)
    → IsStuck k d
    → IsStuck k (apply_all commit_mvcc ps d)
unfolding apply_all
apply_all-IsStuck k [] d away room stuck = stuck
apply_all-IsStuck k (p ∷ ps) d (away, aways) room stuck =
    let room' : (d.shards (route p)).index + 1 < two64 = omega (arith, room (route p)) in
    apply_all-IsStuck k ps (apply_inline commit_mvcc (route p) p d).1 aways
      (λ j. omega (arith, room j, (apply_inline-index commit_mvcc (route p) j p d room').1))
      (apply_inline-IsStuck k (route p) p d away room' stuck)

set-IsStuck :
    (k v : Bytes) (d : ShardedDirect Mvcc)
    → (shard_for (version_key k) == shard_for k) ≡ false
    → entries_of (d.store.shards (shard_for (version_key k))) (version_key k) ≡ []
    → (d.shards (shard_for k)).index + 1 < two64
    → IsStuck k (apply_inline commit_mvcc (shard_for k) (set_key k v) d).1
unfolding apply_inline commit_mvcc Mvcc.apply_shard_direct inline_conflict detect_conflict
    record_epochs
set-IsStuck k v d away empty room =
    let i = shard_for k in
    let er : EpochRecord = record { epoch = add64 (d.shards i).index 1; is_credit = false } in
    rw (away, (==_iff i i).1 refl)
      (
        empty,
        unfold epoch_record in
            rw (epoch_of-insert k k er (d.shards i).key_epoch, (=ᵇ_iff k k).1 refl)
              (unfold add64 in omega arith),
      )

unversioned :
    (k : Bytes) (e : Mvcc) (seq : ℕ)
    → entries_of (e.shards (shard_for (version_key k))) (version_key k) ≡ []
    → (snapshot_get_version e seq k).epoch ≡ 0
unfolding snapshot_get_version find_version search_loop
unversioned k e seq empty = rw empty refl

stale_read_conflicts :
    (k : Bytes) (m : Epochs) (before reads : List ReadEntry)
    → 1 ≤ (epoch_of m k).epoch
    → detect_conflict m [] (before ++ (plain_read_at k 0 ∷ reads)) ≡ true
unfolding detect_conflict entry_conflicts epoch_of lookup
stale_read_conflicts k m [] reads newer = ground (arith, newer)
stale_read_conflicts k m (re ∷ before) reads newer =
    let rest = stale_read_conflicts k m before reads newer in ground (arith, rest)

stale_conflicts :
    (k : Bytes) (m : Epochs) (p : Proposal) (before reads : List ReadEntry)
    → 1 ≤ (epoch_of m k).epoch
    → leb (length p.read_set) max_stack_shadow ≡ true
    → p.read_set ≡ before ++ (plain_read_at k 0 ∷ reads)
    → inline_conflict m p ≡ true
unfolding inline_conflict
stale_conflicts k m p before reads newer few read =
    rw (few, read) (stale_read_conflicts k m before reads newer)

-- A proposal that has read the key through a snapshot.
stuck_conflicts :
    (k : Bytes) (d : ShardedDirect Mvcc) (seq : ℕ) (p : Proposal) (before reads : List ReadEntry)
    → IsStuck k d
    → route p ≡ shard_for k
    → leb (length p.read_set) max_stack_shadow ≡ true
    → p.read_set ≡ before ++ (plain_read_at k (snapshot_get_version d.store seq k).epoch ∷ reads)
    → (apply_inline commit_mvcc (route p) p d).0 ≡ conflicted
stuck_conflicts k d seq p before reads (empty, pos) routed few read =
    let old = unversioned k d.store seq empty in
    let newer : 1 ≤ (epoch_of (d.shards (route p)).key_epoch k).epoch = rw routed pos in
    let blocked =
      stale_conflicts k (d.shards (route p)).key_epoch p before reads newer few
        (read ∙ ap (λ e. before ++ (plain_read_at k e ∷ reads)) old) in
    rw (apply_inline_blocked commit_mvcc (route p) p d blocked) refl

-- On the multi-version engine, once a proposal has set a key whose version key belongs to another
-- shard, the key can only be written blindly: whatever proposals are
-- applied behind it, none of them on the shard of the version key, a proposal on the key's shard
-- that has read the key with `Get` from any snapshot (a read that is no debit's, anywhere in its
-- read set), and at most 64 keys, is a conflict. There is no version record of the key before, and
-- no index overflows.
pub read_conflicts_forever :
    (k v : Bytes) (d : ShardedDirect Mvcc) (ps : List Proposal) (seq : ℕ) (p : Proposal)
    → (before reads : List ReadEntry) → (shard_for (version_key k) == shard_for k) ≡ false
    → entries_of (d.store.shards (shard_for (version_key k))) (version_key k) ≡ []
    → ((j : ℕ) → (d.shards j).index + suc (length ps) < two64)
    → All (λ q. (shard_for (version_key k) == route q) ≡ false) ps
    → let d' = apply_all commit_mvcc (set_key k v ∷ ps) d in
      route p ≡ shard_for k
      → leb (length p.read_set) max_stack_shadow ≡ true
      → p.read_set ≡ before ++ (plain_read_at k (snapshot_get_version d'.store seq k).epoch ∷ reads)
      → (apply_inline commit_mvcc (route p) p d').0 ≡ conflicted
unfolding apply_all route
read_conflicts_forever k v d ps seq p before reads away fresh room aways routed few read =
    let d1 = (apply_inline commit_mvcc (route (set_key k v)) (set_key k v) d).1 in
    let here : (d.shards (route_key k)).index + 1 < two64 = omega (arith, room (route_key k)) in
    let stuck : IsStuck k d1 =
      subst (λ i. IsStuck k (apply_inline commit_mvcc i (set_key k v) d).1)
        (sym (route_key-eq-shard_for k))
        (set-IsStuck k v d away fresh (omega (arith, room (shard_for k)))) in
    let room' : (j : ℕ) → (d1.shards j).index + length ps < two64 = λ j.
      omega
        (arith, room j, (apply_inline-index commit_mvcc (route_key k) j (set_key k v) d here).1) in
    stuck_conflicts k (apply_all commit_mvcc ps d1) seq p before reads
      (apply_all-IsStuck k ps d1 aways room' stuck) routed few read

-- ===== src/Memory/Placed.antt =====
-- The keys that the shards of the sharded engine hold, and the engine behind `StorageEngine`.
use dpx.Base.{
  ℕ, zero, suc, ◌+◌, ◌≤◌, ◌==◌, ==_iff, Bytes, true, false, ◌≡◌, refl, ap, sym, ◌∙◌, All, List, [],
  ◌∷◌, Option, some, ◌=ᵇ◌, arith, Bool-cases, Option-cases, inl, inr,
}
use native.Mathlib.Decide.{dec_lt}
use dpx.Engine.Failure.{nothing_done}
use dpx.Engine.{BatchOp, op_key, effects, StorageEngine}
use dpx.Engine.Effect.{effects_other}
use dpx.Memory.{
  BTree, TreeState, Sharded, ShardedBatch, new_sharded, apply_ops, apply_shards, shard_ids,
  store_shard, apply_batch_sharded, apply_shard_direct, batch_of, empty_batch, num_shards,
  shard_for, or_none_yet, get_sharded,
}
use dpx.Memory.Batches.{
  for_shard, other_shard, get-apply_ops, store_shard_above, apply_shards-here, batch_of-for_shard,
  get-apply_batch_sharded,
}
use dpx.Memory.Scans.{IsSorted-Distinct}
use dpx.Memory.ShardScans.{IsPlaced, raw_iter_sharded, lookup-iter_sharded}

-- The group of a shard leaves the keys of the others alone.
for_shard_other :
    (i : ℕ) (k : Bytes) (ops : List BatchOp)
    → (i == shard_for k) ≡ false
    → All (λ op. (op_key op =ᵇ k) ≡ false) (for_shard i ops)
unfolding for_shard
for_shard_other i k [] h = tt
for_shard_other i k (op ∷ ops) h = elim (Bool-cases (shard_for (op_key op) == i)) [
  | inr out ↦ rw out (for_shard_other i k ops h)
  | inl own ↦
      let same : shard_for (op_key op) ≡ i = (==_iff (shard_for (op_key op)) i).0 own in
      rw own
        (other_shard (op_key op) k (ap (λ j. j == shard_for k) same ∙ h), for_shard_other i k ops h)
]

-- Every mutation of the list is of a key of the shard.
abbrev pub AreOf : ℕ → List BatchOp → Type 0
AreOf i ops = All (λ op. shard_for (op_key op) ≡ i) ops

AreOf-other :
    (i : ℕ) (k : Bytes) (ops : List BatchOp)
    → (i == shard_for k) ≡ false
    → AreOf i ops
    → All (λ op. (op_key op =ᵇ k) ≡ false) ops
AreOf-other i k [] h a = tt
AreOf-other i k (op ∷ ops) h (own, a) =
    (other_shard (op_key op) k (ap (λ j. j == shard_for k) own ∙ h), AreOf-other i k ops h a)

module _ (btree : BTree) where
  -- Shards beyond the last one do not change.
  apply_shards-past :
      (n i j : ℕ) (b : ShardedBatch) (e : Sharded btree)
      → i + n ≤ j
      → apply_shards btree (shard_ids n i b) b e j ≡ e j
  unfolding apply_shards shard_ids
  apply_shards-past zero i j b e h = refl
  apply_shards-past (suc n) i j b e h = elim (Option-cases (b i)) [
    | inl absent ↦ rw (absent, shard_ids) (apply_shards-past n (i + 1) j b e (omega arith))
    | inr (ops, present) ↦
        let st = apply_ops btree (e i) (or_none_yet (b i)) in
        rw (present, shard_ids)
          (apply_shards-past n (i + 1) j b (store_shard btree e i st) (omega arith)
            ∙ store_shard_above btree e i j st (omega arith))
  ]

  new_sharded-IsPlaced : IsPlaced btree (new_sharded btree)
  unfolding new_sharded
  new_sharded-IsPlaced i k h = btree.get-new k

  pub apply_batch_sharded-IsPlaced :
      (ops : List BatchOp) (e : Sharded btree)
      → IsPlaced btree e
      → IsPlaced btree (apply_batch_sharded btree (batch_of empty_batch ops) e)
  unfolding apply_batch_sharded empty_batch
  apply_batch_sharded-IsPlaced ops e placed i k h =
      let b = batch_of empty_batch ops in
      elim (dec_lt i num_shards) [
        | no p ↦
            ap (λ (st : TreeState btree). btree.get st.tree k)
              (apply_shards-past num_shards 0 i b e (omega arith))
            ∙ placed i k h
        | yes p ↦
            ap (λ (st : TreeState btree). btree.get st.tree k)
              (apply_shards-here btree num_shards 0 i b e (omega arith) (omega arith))
            ∙ get-apply_ops btree (e i) (or_none_yet (b i)) k
            ∙ ap (λ l. effects k l (btree.get (e i).tree k)) (batch_of-for_shard empty_batch ops i)
            ∙ effects_other k (for_shard i ops) (btree.get (e i).tree k) (for_shard_other i k ops h)
            ∙ placed i k h
      ]

  apply_shard_direct-IsPlaced :
      (i : ℕ) (ops : List BatchOp) (e : Sharded btree)
      → AreOf i ops
      → IsPlaced btree e
      → IsPlaced btree (apply_shard_direct btree i ops e)
  unfolding apply_shard_direct store_shard
  apply_shard_direct-IsPlaced i ops e own placed j k h = elim (Bool-cases (i == j)) [
    | inr other ↦ rw other (placed j k h)
    | inl same ↦
        let e' : (i == shard_for k) ≡ false = ground (arith, ==_iff i j) in
        rw same (
          get-apply_ops btree (e i) ops k
          ∙ effects_other k ops (btree.get (e i).tree k) (AreOf-other i k ops e' own)
          ∙ placed i k e')
  ]

  -- The states that batches and direct writes make, the latter of keys of the shard that they name.
  pub data Reached : Sharded btree → Type 0 where
    opened : Reached (new_sharded btree)
    batched :
        {e : Sharded btree} (ops : List BatchOp)
        → Reached e
        → Reached (apply_batch_sharded btree (batch_of empty_batch ops) e)
    written :
        {e : Sharded btree} (i : ℕ) (ops : List BatchOp)
        → AreOf i ops
        → Reached e
        → Reached (apply_shard_direct btree i ops e)

  -- On an engine that batches, and direct writes of keys of the named shard, have made from a new one,
  -- every shard holds only the keys that hash to it.
  pub Reached-IsPlaced : {e : Sharded btree} → Reached e → IsPlaced btree e
  Reached-IsPlaced opened = new_sharded-IsPlaced
  Reached-IsPlaced (batched ops r) = apply_batch_sharded-IsPlaced ops _ (Reached-IsPlaced r)
  Reached-IsPlaced (written i ops own r) =
      apply_shard_direct-IsPlaced i ops _ own (Reached-IsPlaced r)

  -- An engine with its shards' keys in their places.
  abbrev pub PlacedEngine : Type 0
  PlacedEngine = (e : Sharded btree) × IsPlaced btree e

  unfoldable pub apply_placed : List BatchOp → PlacedEngine → Option PlacedEngine
  apply_placed ops (e, placed) = some (
    apply_batch_sharded btree (batch_of empty_batch ops) e,
    apply_batch_sharded-IsPlaced ops e placed,
  )

  pub get-apply_placed :
      (ops : List BatchOp) (s t : PlacedEngine) (k : Bytes)
      → apply_placed ops s ≡ some t
      → get_sharded btree t.0 k ≡ effects k ops (get_sharded btree s.0 k)
  unfolding apply_placed
  get-apply_placed ops (e, placed) t k h =
      let same : (
        apply_batch_sharded btree (batch_of empty_batch ops) e,
        apply_batch_sharded-IsPlaced ops e placed,
      )
          ≡ t =
        cc in
      ap (λ (x : PlacedEngine). get_sharded btree x.0 k) (sym same)
      ∙ get-apply_batch_sharded btree ops e k

  -- The sharded engine behind the interface.
  unfoldable pub sharded_engine : StorageEngine
  sharded_engine = record {
    State = PlacedEngine;
    get = λ s k. get_sharded btree s.0 k;
    apply_batch = apply_placed;
    failed_batch = λ ops s. s;
    sync_ok = λ s. true;
    raw_iter = λ start end s. raw_iter_sharded btree start end s.0;
    get-apply_batch = get-apply_placed;
    get-failed_batch = λ ops s failed. nothing_done (λ x k. get_sharded btree x.0 k) ops s;
    lookup-raw_iter = λ start end s k. (lookup-iter_sharded btree start end s.0 k s.1).0.0;
    raw_iter-Distinct = λ start end s.
        IsSorted-Distinct (raw_iter_sharded btree start end s.0)
          (lookup-iter_sharded btree start end s.0 [] s.1).0.1;
  }

-- ===== src/Memory/Batches.antt =====
-- What a batch does to the values that the engine returns, plain and sharded.
use dpx.Base.{
  bit_and-le_right, ℕ, zero, suc, ◌+◌, ◌≤◌, ◌<◌, Bytes, false, ◌≡◌, refl, ap, ◌∙◌, ◌++◌, append-nil,
  append_assoc, List, [], ◌∷◌, Option, if◌then◌else◌, ◌=ᵇ◌, =ᵇ_iff, ==_iff, ◌==◌, arith, Bool-cases,
  inl, inr, Option-cases,
}
use native.Mathlib.Decide.{dec_lt}
use mathlib.Core.Path.{subst}
use dpx.Engine.{BatchOp, set, delete, merge, op_key, effect, effects, or_empty, merge_int64}
use dpx.Memory.{
  BTree, TreeState, apply_op, apply_ops, Plain, apply_batch_legacy, Sharded, ShardedBatch,
  batch_add, batch_of, store_shard, empty_batch, shard_ids, apply_shards, apply_batch_sharded,
  apply_shard_direct, get_plain, get_sharded, shard_for, fnv_step, num_shards, or_none_yet,
}

-- The mutations of one shard, in order.
unfoldable pub for_shard : ℕ → List BatchOp → List BatchOp
for_shard j [] = []
for_shard j (op ∷ ops) =
    if shard_for (op_key op) == j then op ∷ for_shard j ops else for_shard j ops

pub other_shard : (j k : Bytes) → (shard_for j == shard_for k) ≡ false → (j =ᵇ k) ≡ false
other_shard j k h = elim (Bool-cases (j =ᵇ k)) [
  | inr e ↦ e
  | inl e ↦ cc (h, (==_iff (shard_for j) (shard_for k)).1 (ap shard_for ((=ᵇ_iff j k).0 e)))
]

-- A key feels the same of the group of its shard as of the whole batch.
pub effects-for_shard :
    (k : Bytes) (ops : List BatchOp) (old : Option Bytes)
    → effects k (for_shard (shard_for k) ops) old ≡ effects k ops old
unfolding effects for_shard
effects-for_shard k [] old = refl
effects-for_shard k (op ∷ ops) old = elim (Bool-cases (shard_for (op_key op) == shard_for k)) [
  | inl same ↦ rw same (effects-for_shard k ops (if op_key op =ᵇ k then effect op old else old))
  | inr other ↦ rw (other, other_shard (op_key op) k other) (effects-for_shard k ops old)
]

module _ (btree : BTree) where
  get-apply_op :
      (st : TreeState btree) (op : BatchOp) (k : Bytes)
      → btree.get (apply_op btree st op).tree k
        ≡ (if op_key op =ᵇ k then effect op (btree.get st.tree k) else btree.get st.tree k)
  unfolding apply_op merge_int64
  get-apply_op st (set j v) k = btree.get-put st.tree j k v
  get-apply_op st (delete j) k = btree.get-remove st.tree j k
  get-apply_op st (merge j v) k =
      let v' = merge_int64 (or_empty (btree.get st.tree j)) v in
      btree.get-put st.tree j k v' ∙ ground (arith, =ᵇ_iff j k)

  pub get-apply_ops :
      (st : TreeState btree) (ops : List BatchOp) (k : Bytes)
      → btree.get (apply_ops btree st ops).tree k ≡ effects k ops (btree.get st.tree k)
  unfolding apply_ops effects
  get-apply_ops st [] k = refl
  get-apply_ops st (op ∷ ops) k =
      get-apply_ops (apply_op btree st op) ops k ∙ ap (effects k ops) (get-apply_op st op k)

  -- A batch on the plain engine changes the value of each key by its own mutations, in order.
  pub get-apply_batch_legacy :
      (ops : List BatchOp) (e : Plain btree) (k : Bytes)
      → get_plain btree (apply_batch_legacy btree ops e) k ≡ effects k ops (get_plain btree e k)
  unfolding get_plain apply_batch_legacy
  get-apply_batch_legacy ops e k = get-apply_ops e ops k

batch_add-for_shard :
    (b : ShardedBatch) (op : BatchOp) (j : ℕ)
    → or_none_yet (batch_add b op j) ≡ or_none_yet (b j) ++ for_shard j (op ∷ [])
unfolding batch_add for_shard
batch_add-for_shard b op j = ground (arith, append-nil (or_none_yet (b j)))

for_shard-cons :
    (j : ℕ) (op : BatchOp) (ops : List BatchOp)
    → for_shard j (op ∷ []) ++ for_shard j ops ≡ for_shard j (op ∷ ops)
unfolding for_shard
for_shard-cons j op ops = ground arith

-- The batch groups the mutations by shard and keeps their order.
pub batch_of-for_shard :
    (b : ShardedBatch) (ops : List BatchOp) (j : ℕ)
    → or_none_yet (batch_of b ops j) ≡ or_none_yet (b j) ++ for_shard j ops
unfolding batch_of
batch_of-for_shard b [] j = unfold for_shard in rw append-nil
batch_of-for_shard b (op ∷ ops) j =
    rw (batch_of-for_shard (batch_add b op) ops j, batch_add-for_shard b op j)
      (append_assoc (or_none_yet (b j)) (for_shard j (op ∷ [])) (for_shard j ops)
        ∙ ap (λ l. or_none_yet (b j) ++ l) (for_shard-cons j op ops))

module _ (btree : BTree) where
  store_shard_other :
      (e : Sharded btree) (i j : ℕ) (st : TreeState btree)
      → j < i
      → store_shard btree e i st j ≡ e j
  unfolding store_shard
  store_shard_other e i j st h = ground arith

  pub store_shard_above :
      (e : Sharded btree) (i j : ℕ) (st : TreeState btree)
      → i < j
      → store_shard btree e i st j ≡ e j
  unfolding store_shard
  store_shard_above e i j st h = ground arith

  store_shard_self :
      (e : Sharded btree) (i : ℕ) (st : TreeState btree) → store_shard btree e i st i ≡ st
  unfolding store_shard
  store_shard_self e i st = ground arith

  -- Later shards do not touch an earlier one.
  apply_shards-later :
      (n i j : ℕ) (b : ShardedBatch) (e : Sharded btree)
      → j < i
      → apply_shards btree (shard_ids n i b) b e j ≡ e j
  unfolding apply_shards shard_ids
  apply_shards-later zero i j b e h = refl
  apply_shards-later (suc n) i j b e h = elim (Option-cases (b i)) [
    | inl absent ↦ rw (absent, shard_ids) (apply_shards-later n (i + 1) j b e (omega arith))
    | inr (ops, present) ↦
        rw (present, shard_ids)
          (apply_shards-later n (i + 1) j b
              (store_shard btree e i (apply_ops btree (e i) (or_none_yet (b i)))) (omega arith)
            ∙ store_shard_other e i j (apply_ops btree (e i) (or_none_yet (b i))) (omega arith))
  ]

  apply_shards-first :
      (n i : ℕ) (b : ShardedBatch) (e : Sharded btree)
      → apply_shards btree (shard_ids (suc n) i b) b e i ≡ apply_ops btree (e i) (or_none_yet (b i))
  unfolding apply_shards shard_ids
  apply_shards-first n i b e = elim (Option-cases (b i)) [
    | inl absent ↦ rw (absent, shard_ids) (apply_shards-later n (i + 1) i b e (omega arith))
    | inr (ops, present) ↦
        let st = apply_ops btree (e i) (or_none_yet (b i)) in
        rw (present, shard_ids)
          (apply_shards-later n (i + 1) i b (store_shard btree e i st) (omega arith)
            ∙ store_shard_self e i st
            ∙ ap (λ o. apply_ops btree (e i) (or_none_yet o)) present)
  ]

  -- Each shard is changed once, by its own mutations.
  pub apply_shards-here :
      (n i j : ℕ) (b : ShardedBatch) (e : Sharded btree)
      → i ≤ j
      → j < i + n
      → apply_shards btree (shard_ids n i b) b e j ≡ apply_ops btree (e j) (or_none_yet (b j))
  unfolding apply_shards shard_ids
  apply_shards-here zero i j b e lo hi = absurd (omega arith)
  apply_shards-here (suc n) i j b e lo hi = elim (dec_lt i j) [
    | no p ↦
        let same : i ≡ j = omega arith in
        subst
          (λ x.
            apply_shards btree (shard_ids (suc n) i b) b e x
            ≡ apply_ops btree (e x) (or_none_yet (b x)))
          same (apply_shards-first n i b e)
    | yes p ↦ elim (Option-cases (b i)) [
      | inl absent ↦
          rw (absent, shard_ids) (apply_shards-here n (i + 1) j b e (omega arith) (omega arith))
      | inr (ops, present) ↦
          let st = apply_ops btree (e i) (or_none_yet (b i)) in
          let e' = store_shard btree e i st in
          rw (present, shard_ids)
            (apply_shards-here n (i + 1) j b e' (omega arith) (omega arith)
              ∙ ap (λ st. apply_ops btree st (or_none_yet (b j))) (store_shard_above e i j st p))
    ]
  ]

-- The shard number of a key is the index of a shard.
pub shard_for-lt : (k : Bytes) → shard_for k < num_shards
unfolding shard_for
shard_for-lt k = omega (arith, bit_and-le_right (fnv_step k 2166136261) 127)

module _ (btree : BTree) where
  -- A batch on the sharded engine changes the value of each key by the key's own mutations, in
  -- order, just as on the plain engine.
  pub get-apply_batch_sharded :
      (ops : List BatchOp) (e : Sharded btree) (k : Bytes)
      → get_sharded btree (apply_batch_sharded btree (batch_of empty_batch ops) e) k
        ≡ effects k ops (get_sharded btree e k)
  unfolding get_sharded apply_batch_sharded empty_batch
  get-apply_batch_sharded ops e k =
      let j = shard_for k in
      ap (λ (st : TreeState btree). btree.get st.tree k)
        (apply_shards-here btree num_shards 0 j (batch_of empty_batch ops) e (omega arith)
          (shard_for-lt k))
      ∙ get-apply_ops btree (e j) (or_none_yet (batch_of empty_batch ops j)) k
      ∙ ap (λ l. effects k l (btree.get (e j).tree k)) (batch_of-for_shard empty_batch ops j)
      ∙ effects-for_shard k ops (btree.get (e j).tree k)

  -- `ApplyShardDirect` changes the keys that belong to the shard that it is given by their own
  -- mutations, and leaves the value of every key of another shard as it was, even if it is written.
  pub get-apply_shard_direct :
      (i : ℕ) (ops : List BatchOp) (e : Sharded btree) (k : Bytes)
      → get_sharded btree (apply_shard_direct btree i ops e) k ≡ (
          if i == shard_for k then effects k ops (get_sharded btree e k) else get_sharded btree e k)
  unfolding get_sharded apply_shard_direct store_shard
  get-apply_shard_direct i ops e k = elim (Bool-cases (i == shard_for k)) [
    | inl same ↦
        rw (get_sharded, apply_shard_direct, store_shard, same)
          (get-apply_ops btree (e i) ops k
            ∙ ap (λ j. effects k ops (btree.get (e j).tree k)) ((==_iff i (shard_for k)).0 same))
    | inr other ↦ rw (get_sharded, apply_shard_direct, store_shard, other)
  ]

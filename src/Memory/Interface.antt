-- ===== src/Memory/Interface.antt =====
-- Both engines implement `StorageEngine`, and so one promise: what a batch makes of each key.
use dpx.Base.{true, Bytes, ◌≡◌, ap, ◌∙◌, List, Option, some, sym}
use dpx.Engine.Failure.{nothing_done}
use dpx.Engine.{BatchOp, StorageEngine, effects}
use dpx.Memory.{
  BTree, Plain, Sharded, apply_batch_legacy, apply_batch_sharded, batch_of, empty_batch, get_plain,
  get_sharded, raw_iter_legacy,
}
use dpx.Memory.Batches.{get-apply_batch_legacy, get-apply_batch_sharded}
use dpx.Memory.Scans.{lookup-raw_iter_legacy, raw_iter_legacy-Distinct}

module _ (btree : BTree) where
  unfoldable pub apply_plain : List BatchOp → Plain btree → Option (Plain btree)
  apply_plain ops e = some (apply_batch_legacy btree ops e)

  pub get-apply_plain :
      (ops : List BatchOp) (s t : Plain btree) (k : Bytes)
      → apply_plain ops s ≡ some t
      → get_plain btree t k ≡ effects k ops (get_plain btree s k)
  unfolding apply_plain
  get-apply_plain ops s t k h =
      let same : t ≡ apply_batch_legacy btree ops s = cc in
      ap (λ x. get_plain btree x k) same ∙ get-apply_batch_legacy btree ops s k

  -- The plain engine behind the interface.
  unfoldable pub plain_engine : StorageEngine
  unfolding apply_plain
  plain_engine = record {
    State = Plain btree;
    get = get_plain btree;
    apply_batch = apply_plain;
    failed_batch = λ ops s. s;
    sync_ok = λ e. true;
    raw_iter = raw_iter_legacy btree;
    get-apply_batch = get-apply_plain;
    get-failed_batch = λ ops s failed. nothing_done (get_plain btree) ops s;
    lookup-raw_iter = λ start end s k. lookup-raw_iter_legacy btree s start end k;
    raw_iter-Distinct = raw_iter_legacy-Distinct btree;
  }

  -- The sharded engine refines the plain one: whatever the batch, if the two hold the same value
  -- under a key before, they do after.
  pub sharded_refines_plain :
      (ops : List BatchOp) (e : Sharded btree) (p : Plain btree) (k : Bytes)
      → get_sharded btree e k ≡ get_plain btree p k
      → get_sharded btree (apply_batch_sharded btree (batch_of empty_batch ops) e) k
        ≡ get_plain btree (apply_batch_legacy btree ops p) k
  sharded_refines_plain ops e p k same =
      get-apply_batch_sharded btree ops e k
      ∙ ap (effects k ops) same
      ∙ sym (get-apply_batch_legacy btree ops p k)

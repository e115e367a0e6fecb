-- ===== src/Pebble/Interface.antt =====
-- The engine over Pebble behind `StorageEngine`.
use dpx.Base.{◌≡◌, ap, sym, ◌∙◌, Bytes, List, [], ◌∷◌, ◌++◌, append_assoc, append-nil, some}
use dpx.Engine.Failure.{nothing_done}
use dpx.Engine.{BatchOp, set, delete, merge, StorageEngine, effects}
use dpx.Pebble.{PebbleStore, batch_op, fill_batch, pebble_apply, mutate_all}
use dpx.Pebble.Operands.{shown, Shows-shown, shown-mutate_all}

module _ (p : PebbleStore) where
  contents-batch_op :
      (op : BatchOp) (b : p.Batch) → p.contents (batch_op p op b) ≡ p.contents b ++ (op ∷ [])
  unfolding batch_op
  contents-batch_op (set k v) b = p.contents-batch_set k v b
  contents-batch_op (delete k) b = p.contents-batch_delete k b
  contents-batch_op (merge k v) b = p.contents-batch_merge k v b

  contents-fill_batch :
      (ops : List BatchOp) (b : p.Batch) → p.contents (fill_batch p ops b) ≡ p.contents b ++ ops
  unfolding fill_batch
  contents-fill_batch [] b = sym (append-nil (p.contents b))
  contents-fill_batch (op ∷ ops) b =
      contents-fill_batch ops (batch_op p op b)
      ∙ ap (λ l. l ++ ops) (contents-batch_op op b)
      ∙ append_assoc (p.contents b) (op ∷ []) ops

  -- A batch that `ApplyBatch` applies without an error has on every key the effect that the
  -- interface promises, also of merges, in whatever order the store combines their operands, old
  -- ones that it has left as they were included.
  pub get-pebble_apply :
      (ops : List BatchOp) (s t : p.Db) (k : Bytes)
      → pebble_apply p ops s ≡ some t
      → p.get t k ≡ effects k ops (p.get s k)
  unfolding pebble_apply
  get-pebble_apply ops s t k h =
      let filled : p.contents (fill_batch p ops p.new_batch) ≡ ops =
        contents-fill_batch ops p.new_batch ∙ ap (λ l. l ++ ops) p.contents-new_batch in
      Shows-shown (p.get-Shows t k)
      ∙ ap shown (
          p.history-apply (fill_batch p ops p.new_batch) s t k h
          ∙ ap (λ l. mutate_all k l (p.history s k)) filled)
      ∙ shown-mutate_all k ops (p.history s k)
      ∙ ap (effects k ops) (sym (Shows-shown (p.get-Shows s k)))

  unfoldable pub pebble_engine : StorageEngine
  pebble_engine = record {
    State = p.Db;
    get = p.get;
    apply_batch = pebble_apply p;
    failed_batch = λ ops s. s;
    sync_ok = p.log_data;
    raw_iter = p.pairs;
    get-apply_batch = get-pebble_apply;
    get-failed_batch = λ ops s failed. nothing_done p.get ops s;
    lookup-raw_iter = p.lookup-pairs;
    raw_iter-Distinct = p.pairs-Distinct;
  }

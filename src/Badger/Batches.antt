-- ===== src/Badger/Batches.antt =====
-- `ApplyBatch` of the engine over Badger, key by key.
use dpx.Base.{
  at_key, Bytes, List, [], ◌∷◌, Option, none, some, ◌≡◌, refl, ap, sym, ◌∙◌, if◌then◌else◌, ◌=ᵇ◌,
  =ᵇ_iff, arith, inl, inr, Bool-cases,
}
use dpx.Codec.{decode_int64, encode_int64, add64, put_uint}
use dpx.Engine.{BatchOp, set, delete, merge, op_key, effect, effects, merge_int64, or_empty}
use dpx.Tx.{Answer, got, not_found, broken}
use dpx.Tx.{or_missing, or_missing-if}
use dpx.Badger.{
  BadgerStore, int_or_zero, get_badger, badger_op, badger_ops, badger_apply, and_then, merge_entry,
  after_delete,
}

int_or_zero-decode_int64 : (val : Bytes) → int_or_zero val ≡ decode_int64 val
unfolding decode_int64
int_or_zero-decode_int64 val = ground arith

sum-merge_int64 :
    (old v : Bytes) → put_uint 8 (add64 (int_or_zero old) (int_or_zero v)) ≡ merge_int64 old v
unfolding merge_int64 encode_int64
sum-merge_int64 old v =
    ap (λ x. put_uint 8 (add64 x (int_or_zero v))) (int_or_zero-decode_int64 old)
    ∙ ap (λ x. put_uint 8 (add64 (decode_int64 old) x)) (int_or_zero-decode_int64 v)

-- A computation that has come to a value, step by step.
and_then-some :
    {A B : Type 0} (m : Option A) (f : A → Option B) (x : B)
    → and_then m f ≡ some x
    → (a : A) × (m ≡ some a) × (f a ≡ some x)
and_then-some none f x h = absurd (ground (arith, h))
and_then-some (some a) f x h = (a, refl, h)

module _ (b : BadgerStore) where
  abbrev read : b.Txn → Bytes → Option Bytes
  read t k = or_missing (b.get t k)

  read-set_entry :
      (k v : Bytes) (t t' : b.Txn) (j : Bytes)
      → b.set_entry k v t ≡ some t'
      → read t' j ≡ (if k =ᵇ j then some v else read t j)
  read-set_entry k v t t' j h =
      ap or_missing (b.get-set_entry k v t t' j h) ∙ or_missing-if (k =ᵇ j) (got v) (b.get t j)

  -- What the batch does to a key other than the one of its mutation, and to that one.
  read-after_delete :
      (k : Bytes) (t t' : b.Txn) (j : Bytes) (d : Answer b.Txn)
      → b.delete_entry k t ≡ d
      → after_delete b d t ≡ some t'
      → read t' j ≡ (if k =ᵇ j then none else read t j)
  read-after_delete k t t' j (got u) e h =
      let same : u ≡ t' = cc in
      ap or_missing (b.get-delete_entry k t t' j (e ∙ ap got same))
      ∙ or_missing-if (k =ᵇ j) not_found (b.get t j)
  read-after_delete k t t' j not_found e h =
      let same : t ≡ t' = cc in
      let missing = b.get-deleted k t e in
      ap (λ u. read u j) (sym same) ∙ elim (Bool-cases (k =ᵇ j)) [
        | inl here ↦
            rw here (ap (λ i. read t i) (sym ((=ᵇ_iff k j).0 here)) ∙ ap or_missing missing)
        | inr there ↦ rw there refl
      ]
  read-after_delete k t t' j broken e h = absurd (ground (arith, h))

  read-merge_entry :
      (k v : Bytes) (t t' : b.Txn) (j : Bytes) (a : Answer Bytes)
      → b.get t k ≡ a
      → merge_entry b k v a t ≡ some t'
      → read t' j ≡ (if k =ᵇ j then some (merge_int64 (or_empty (read t k)) v) else read t j)
  read-merge_entry k v t t' j (got val) e h =
      read-set_entry k (put_uint 8 (add64 (int_or_zero val) (int_or_zero v))) t t' j h
      ∙ ap (λ x. if k =ᵇ j then some x else read t j)
          (sum-merge_int64 val v ∙ ap (λ o. merge_int64 (or_empty o) v) (sym (ap or_missing e)))
  read-merge_entry k v t t' j not_found e h =
      read-set_entry k (put_uint 8 (add64 0 (int_or_zero v))) t t' j h
      ∙ ap (λ x. if k =ᵇ j then some x else read t j)
          (sum-merge_int64 [] v ∙ ap (λ o. merge_int64 (or_empty o) v) (sym (ap or_missing e)))
  read-merge_entry k v t t' j broken e h = absurd (ground (arith, h))

  read-badger_op :
      (op : BatchOp) (t t' : b.Txn) (j : Bytes)
      → badger_op b op t ≡ some t'
      → read t' j ≡ (if op_key op =ᵇ j then effect op (read t (op_key op)) else read t j)
  unfolding badger_op
  read-badger_op (set k v) t t' j h = read-set_entry k v t t' j h
  read-badger_op (delete k) t t' j h = read-after_delete k t t' j (b.delete_entry k t) refl h
  read-badger_op (merge k v) t t' j h = read-merge_entry k v t t' j (b.get t k) refl h

  read-badger_ops :
      (ops : List BatchOp) (t t' : b.Txn) (j : Bytes)
      → badger_ops b ops t ≡ some t'
      → read t' j ≡ effects j ops (read t j)
  unfolding badger_ops effects
  read-badger_ops [] t t' j h = ap (λ u. read u j) cc
  read-badger_ops (op ∷ ops) t t' j h =
      let (u, first, rest) = and_then-some (badger_op b op t) (λ u. badger_ops b ops u) t' h in
      read-badger_ops ops u t' j rest
      ∙ ap (effects j ops) (
          read-badger_op op t u j first
          ∙ at_key (op_key op) j (λ i. effect op (read t i)) (read t j))

  -- A batch that `ApplyBatch` applies without an error has on every key the effect that the interface
  -- promises, through reads and writes of one transaction.
  pub get-badger_apply :
      (ops : List BatchOp) (s t : b.Db) (k : Bytes)
      → badger_apply b ops s ≡ some t
      → get_badger b t k ≡ effects k ops (get_badger b s k)
  unfolding badger_apply get_badger
  get-badger_apply ops s t k h =
      let (u, applied, committed) =
        and_then-some (badger_ops b ops (b.new_transaction s)) (λ u. b.commit u) t h in
      ap or_missing (b.get-commit u t k committed)
      ∙ read-badger_ops ops (b.new_transaction s) u k applied

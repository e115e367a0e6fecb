-- ===== src/Oshodi/Prefix.antt =====
-- `ApplyBatch` of the engine over Oshodi, which goes through the batch one mutation at a time.
use dpx.Base.{
  ℕ, Bytes, Bool, true, false, not, ◌&&◌, ◌||◌, List, [], ◌∷◌, ◌++◌, Option, none, some, ◌≡◌, refl,
  ap, sym, ◌∙◌, if◌then◌else◌, ◌=ᵇ◌, at_key, arith, Option-cases, inl, inr, ◌<◌, length,
}
use dpx.Engine.{BatchOp, set, delete, merge, op_key, effect, effects, merge_int64, or_empty}
use dpx.Tx.{Answer, got, not_found, broken, or_missing, or_missing-if}
use dpx.Oshodi.{
  Bucket, Oshodi, get_oshodi, oshodi_op, oshodi_ops, oshodi_apply, set_sum, with_bucket, noted_seq,
}

module _ (b : Bucket) where
  abbrev read : b.Db → Bytes → Option Bytes
  read s k = or_missing (b.get s k)

  read-set_key :
      (k v : Bytes) (s t : b.Db) (j : Bytes)
      → b.set_key k v s ≡ some t
      → read t j ≡ (if k =ᵇ j then some v else read s j)
  read-set_key k v s t j h =
      ap or_missing (b.get-set_key k v s t j h) ∙ or_missing-if (k =ᵇ j) (got v) (b.get s j)

  read-delete_key :
      (k : Bytes) (s t : b.Db) (j : Bytes)
      → b.delete_key k s ≡ some t
      → read t j ≡ (if k =ᵇ j then none else read s j)
  read-delete_key k s t j h =
      ap or_missing (b.get-delete_key k s t j h) ∙ or_missing-if (k =ᵇ j) not_found (b.get s j)

  read-set_sum :
      (k v : Bytes) (s t : b.Db) (j : Bytes) (a : Answer Bytes)
      → b.get s k ≡ a
      → set_sum b k v a s ≡ some t
      → read t j ≡ (if k =ᵇ j then some (merge_int64 (or_empty (read s k)) v) else read s j)
  unfolding merge_int64
  read-set_sum k v s t j (got cur) e h =
      read-set_key k (merge_int64 cur v) s t j h
      ∙ ap (λ o. if k =ᵇ j then some (merge_int64 (or_empty (or_missing o)) v) else read s j)
          (sym e)
  read-set_sum k v s t j not_found e h =
      read-set_key k (merge_int64 [] v) s t j h
      ∙ ap (λ o. if k =ᵇ j then some (merge_int64 (or_empty (or_missing o)) v) else read s j)
          (sym e)
  read-set_sum k v s t j broken e h = absurd (ground (arith, h))

  with_bucket-some :
      (seq : ℕ) (o : Option b.Db) (e : Oshodi b) → with_bucket b seq o ≡ some e → o ≡ some e.bucket
  with_bucket-some seq none e h = absurd (ground (arith, h))
  with_bucket-some seq (some s) e h =
      let same : record { bucket = s; seq = seq } ≡ e = cc in ap (λ x. some x.bucket) same

  get-oshodi_op :
      (op : BatchOp) (e e' : Oshodi b) (j : Bytes)
      → oshodi_op b op e ≡ some e'
      → get_oshodi b e' j
        ≡ (if op_key op =ᵇ j then effect op (get_oshodi b e (op_key op)) else get_oshodi b e j)
  unfolding oshodi_op get_oshodi
  get-oshodi_op (set k v) e e' j h =
      read-set_key k v e.bucket e'.bucket j (with_bucket-some (noted_seq k v e.seq) _ e' h)
  get-oshodi_op (delete k) e e' j h =
      read-delete_key k e.bucket e'.bucket j (with_bucket-some e.seq _ e' h)
  get-oshodi_op (merge k v) e e' j h =
      read-set_sum k v e.bucket e'.bucket j (b.get e.bucket k) refl (with_bucket-some e.seq _ e' h)

  -- What a run of the loop has done: the mutations before the one that failed, if one did.
  abbrev pub Applied : List BatchOp → Oshodi b → Bool × Oshodi b → Type 0
  Applied ops e (ended, e') =
      (done : List BatchOp) × (rest : List BatchOp) × (ops ≡ done ++ rest)
      × ((k : Bytes) → get_oshodi b e' k ≡ effects k done (get_oshodi b e k))
      × (if ended then (rest ≡ []) else (0 < length rest))

  oshodi_ops-Applied : (ops : List BatchOp) (e : Oshodi b) → Applied ops e (oshodi_ops b ops e)
  unfolding oshodi_ops effects
  oshodi_ops-Applied [] e = ([], [], refl, λ k. refl, refl)
  oshodi_ops-Applied (op ∷ ops) e = elim (Option-cases (oshodi_op b op e)) [
    | inl fails ↦ rw fails ([], op ∷ ops, refl, λ k. refl, omega arith)
    | inr (e', goes) ↦
        let (done, rest, split, values, ended) = oshodi_ops-Applied ops e' in
        rw goes (
          op ∷ done,
          rest,
          ap (λ l. op ∷ l) split,
          λ k.
              values k
              ∙ ap (effects k done) (
                  get-oshodi_op op e e' k goes
                  ∙ at_key (op_key op) k (λ i. effect op (get_oshodi b e i)) (get_oshodi b e k)),
          ended,
        )
  ]

loop_ended :
    (ended flushed : Bool) (rest : List BatchOp)
    → (if ended then (rest ≡ []) else (0 < length rest))
    → (ended && flushed) ≡ true
    → rest ≡ []
loop_ended true flushed rest h fine = h
loop_ended false flushed rest h fine = absurd (ground (arith, fine))

loop_failed :
    (ended sync flushed : Bool) (rest : List BatchOp)
    → (if ended then (rest ≡ []) else (0 < length rest))
    → sync ≡ false
    → (ended && (not sync || flushed)) ≡ false
    → 0 < length rest
loop_failed true sync flushed rest h lazy failed = absurd (ground (arith, lazy, failed))
loop_failed false sync flushed rest h lazy failed = h

-- After `ApplyBatch`, with or without an error, the bucket holds what a first part of the batch makes
-- of each key. With no error that part is the whole batch, and where the engine does not sync as well,
-- an error means that it is not.
pub oshodi_apply-prefix :
    (b : Bucket) (sync : Bool) (ops : List BatchOp) (e : Oshodi b)
    → (done : List BatchOp) × (rest : List BatchOp) × (ops ≡ done ++ rest)
      × ((k : Bytes)
          → get_oshodi b (oshodi_apply b sync ops e).1 k ≡ effects k done (get_oshodi b e k))
      × ((oshodi_apply b sync ops e).0 ≡ true → rest ≡ [])
      × (sync ≡ false → (oshodi_apply b sync ops e).0 ≡ false → 0 < length rest)
unfolding oshodi_apply
oshodi_apply-prefix b sync ops e =
    let (done, rest, split, values, ended) = oshodi_ops-Applied b ops e in
    (
      done,
      rest,
      split,
      values,
      loop_ended (oshodi_ops b ops e).0 _ rest ended,
      loop_failed (oshodi_ops b ops e).0 sync _ rest ended,
    )

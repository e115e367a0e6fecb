-- ===== src/Mvcc/Latest.antt =====
-- Current values: what a batch does to them, against the other engines.
use dpx.Base.{
  ℕ, ◌≡◌, refl, ap, ◌∙◌, Bytes, Bool, true, false, length, All, List, [], ◌∷◌, ◌++◌, Option, some,
  if◌then◌else◌, arith, Bool-cases, inl, inr, ◌=ᵇ◌, =ᵇ_iff, ◌==◌, ==_iff,
}
use dpx.Codec.{add64}
use dpx.Engine.{BatchOp, set, delete, merge, op_key, effect, effects, merge_int64, or_empty}
use dpx.Memory.{shard_for}
use dpx.Memory.Batches.{for_shard, effects-for_shard}
use dpx.Mvcc.{
  Entry, Shard, Mvcc, entries_of, current_value, new_entry, apply_op, apply_ops, apply_batch,
  last_entry, live_value, get,
}
use dpx.Mvcc.Versions.{entries_of-apply_op}
use dpx.Mvcc.Snapshots.{versions}

last_entry-append : (es : List Entry) (e : Entry) → last_entry (es ++ (e ∷ [])) ≡ some e
last_entry-append [] e = refl
last_entry-append (x ∷ []) e = refl
last_entry-append (x ∷ y ∷ es) e = last_entry-append (y ∷ es) e

current_value-append :
    (es : List Entry) (e : Entry)
    → current_value (es ++ (e ∷ [])) ≡ (if e.deleted then current_value es else some e.value)
unfolding current_value
current_value-append [] e = refl
current_value-append (x ∷ es) e = rw (current_value-append es e) (ground arith)

-- The value that a merge starts from is the one that `Get` returns.
abbrev pub IsClean : List Entry → Type 0
IsClean es = current_value es ≡ live_value (last_entry es)

abbrev is_delete : BatchOp → Bool
is_delete (delete k) = true
is_delete (set k v) = false
is_delete (merge k v) = false

-- The batch deletes the key nowhere.
abbrev pub NotDeleted : Bytes → List BatchOp → Type 0
NotDeleted k ops = All (λ op. is_delete op ≡ true → (op_key op =ᵇ k) ≡ false) ops

new_entry-effect :
    (seq : ℕ) (op : BatchOp) (es : List Entry)
    → IsClean es
    → live_value (some (new_entry seq op es)) ≡ effect op (live_value (last_entry es))
unfolding new_entry merge_int64
new_entry-effect seq (set k v) es c = refl
new_entry-effect seq (delete k) es c = refl
new_entry-effect seq (merge k v) es c = rw c

abbrev view : Shard → Bytes → Option Bytes
view s k = live_value (last_entry (entries_of s k))

view-apply_op :
    (seq : ℕ) (op : BatchOp) (s : Shard) (k : Bytes)
    → IsClean (entries_of s k)
    → view (apply_op seq op s) k ≡ (if op_key op =ᵇ k then effect op (view s k) else view s k)
view-apply_op seq op s k c =
    let es = entries_of s k in
    elim (Bool-cases (op_key op =ᵇ k)) [
      | inl hit ↦
          rw (entries_of-apply_op seq op s k, hit, last_entry-append es (new_entry seq op es))
            (new_entry-effect seq op es c)
      | inr other ↦ rw (entries_of-apply_op seq op s k, other)
    ]

deleted-new_entry :
    (seq : ℕ) (op : BatchOp) (es : List Entry) → (new_entry seq op es).deleted ≡ is_delete op
unfolding new_entry
deleted-new_entry seq (set k v) es = refl
deleted-new_entry seq (delete k) es = refl
deleted-new_entry seq (merge k v) es = refl

IsClean-append :
    (seq : ℕ) (op : BatchOp) (es : List Entry)
    → is_delete op ≡ false
    → IsClean (es ++ (new_entry seq op es ∷ []))
IsClean-append seq op es h = rw (
  current_value-append es (new_entry seq op es),
  last_entry-append es (new_entry seq op es),
  deleted-new_entry seq op es,
  h,
)

apply_op-IsClean :
    (seq : ℕ) (op : BatchOp) (s : Shard) (k : Bytes)
    → (is_delete op ≡ true → (op_key op =ᵇ k) ≡ false)
    → IsClean (entries_of s k)
    → IsClean (entries_of (apply_op seq op s) k)
apply_op-IsClean seq op s k h c = elim (Bool-cases (op_key op =ᵇ k)) [
  | inr other ↦ rw (entries_of-apply_op seq op s k, other) c
  | inl hit ↦
      rw (entries_of-apply_op seq op s k, hit)
        (IsClean-append seq op (entries_of s k) (ground (arith, h)))
]

view-apply_ops :
    (seq : ℕ) (ops : List BatchOp) (s : Shard) (k : Bytes)
    → IsClean (entries_of s k)
    → NotDeleted k ops
    → view (apply_ops seq ops s) k ≡ effects k ops (view s k)
unfolding apply_ops effects
view-apply_ops seq [] s k c h = refl
view-apply_ops seq (op ∷ ops) s k c (h, hs) =
    view-apply_ops seq ops (apply_op seq op s) k (apply_op-IsClean seq op s k h c) hs
    ∙ ap (effects k ops) (view-apply_op seq op s k c)

for_shard-NotDeleted :
    (j : ℕ) (k : Bytes) (ops : List BatchOp) → NotDeleted k ops → NotDeleted k (for_shard j ops)
unfolding for_shard
for_shard-NotDeleted j k [] h = tt
for_shard-NotDeleted j k (op ∷ ops) (h, hs) = elim (Bool-cases (shard_for (op_key op) == j)) [
  | inl here ↦ rw (here, for_shard) (h, for_shard-NotDeleted j k ops hs)
  | inr away ↦ rw (away, for_shard) (for_shard-NotDeleted j k ops hs)
]

-- A batch on the multi-version engine does to the value of a key what it does on the other engines,
-- if the batch does not delete the key and no deletion hides an older value of it.
pub get-apply_batch :
    (ops : List BatchOp) (e : Mvcc) (k : Bytes)
    → IsClean (versions e (shard_for k) k)
    → NotDeleted k ops
    → get (apply_batch ops e) k ≡ effects k ops (get e k)
unfolding get apply_batch
get-apply_batch [] e k c h = unfold effects in refl
get-apply_batch (op ∷ ops) e k c h =
    let sh = shard_for k in
    let seq = add64 e.seq_counter (length (op ∷ ops)) in
    view-apply_ops seq (for_shard sh (op ∷ ops)) (e.shards sh) k c
      (for_shard-NotDeleted sh k (op ∷ ops) h)
    ∙ effects-for_shard k (op ∷ ops) (get e k)

entries_of_self :
    (seq : ℕ) (op : BatchOp) (s : Shard)
    → entries_of (apply_op seq op s) (op_key op)
      ≡ entries_of s (op_key op) ++ (new_entry seq op (entries_of s (op_key op)) ∷ [])
entries_of_self seq op s =
    rw (entries_of-apply_op seq op s (op_key op), (=ᵇ_iff (op_key op) (op_key op)).1 refl)

deleted_then_merged :
    (seq : ℕ) (s : Shard) (k d v : Bytes)
    → current_value (entries_of s k) ≡ some v
    → view (apply_ops seq (delete k ∷ merge k d ∷ []) s) k ≡ some (merge_int64 v d)
unfolding apply_ops new_entry merge_int64
deleted_then_merged seq s k d v h =
    let s' = apply_op seq (delete k) s in
    let es = entries_of s' k in
    let old : current_value es ≡ some v =
      ap current_value (entries_of_self seq (delete k) s)
      ∙ current_value-append (entries_of s k) (new_entry seq (delete k) (entries_of s k))
      ∙ h in
    ap (λ l. live_value (last_entry l)) (entries_of_self seq (merge k d) s')
    ∙ ap live_value (last_entry-append es (new_entry seq (merge k d) es))
    ∙ ap (λ o. some (merge_int64 (or_empty o) d)) old

-- A merge after a deletion starts from the value before the deletion, where the other engines start
-- from nothing: deleting a key that has a value `v` and adding `d` to it leaves `v` plus `d` here,
-- and `d` there.
pub merge_after_delete :
    (e : Mvcc) (k d v : Bytes)
    → current_value (versions e (shard_for k) k) ≡ some v
    → (get (apply_batch (delete k ∷ merge k d ∷ []) e) k ≡ some (merge_int64 v d))
      × (effects k (delete k ∷ merge k d ∷ []) (get e k) ≡ some (merge_int64 [] d))
unfolding get apply_batch for_shard
merge_after_delete e k d v h =
    let sh = shard_for k in
    let seq = add64 e.seq_counter 2 in
    let here = (==_iff sh sh).1 refl in
    let self = (=ᵇ_iff k k).1 refl in
    (
      rw (get, apply_batch, for_shard, here) (deleted_then_merged seq (e.shards sh) k d v h),
      unfold effects in rw self,
    )

-- ===== src/Mvcc/Versions.antt =====
-- The versions of a key: what a commit adds, and what a snapshot sees of them.
use dpx.Base.{
  ℕ, ◌≤◌, ◌<◌, ◌≡◌, refl, sym, ap, ◌∙◌, Bytes, leb, le→leb, All, All-map, All-append, List, [], ◌∷◌,
  ◌++◌, append-nil, append_assoc, none, some, if◌then◌else◌, arith, Bool-cases, inl, inr, ◌=ᵇ◌,
  =ᵇ_iff, lookup-insert,
}
use dpx.Engine.{BatchOp, op_key, set, delete, merge}
use dpx.Mvcc.{Entry, Shard, entries_of, new_entry, apply_op, apply_ops, last_entry}
use dpx.Mvcc.Search.{IsSorted, visible}

pub seq-new_entry : (seq : ℕ) (op : BatchOp) (es : List Entry) → (new_entry seq op es).seq ≡ seq
unfolding new_entry
seq-new_entry seq (set k v) es = refl
seq-new_entry seq (delete k) es = refl
seq-new_entry seq (merge k v) es = refl

pub entries_of-apply_op :
    (seq : ℕ) (op : BatchOp) (s : Shard) (k : Bytes)
    → entries_of (apply_op seq op s) k ≡ (
        if op_key op =ᵇ k
        then entries_of s k ++ (new_entry seq op (entries_of s k) ∷ [])
        else entries_of s k)
unfolding entries_of apply_op
entries_of-apply_op seq op s k =
    let es = entries_of s (op_key op) in
    elim (Bool-cases (op_key op =ᵇ k)) [
      | inl hit ↦
          rw (lookup-insert (op_key op) k (es ++ (new_entry seq op es ∷ [])) s, hit)
            (ap (λ j. entries_of s j ++ (new_entry seq op (entries_of s j) ∷ []))
              ((=ᵇ_iff (op_key op) k).0 hit))
      | inr other ↦ rw (lookup-insert (op_key op) k (es ++ (new_entry seq op es ∷ [])) s, other)
    ]

-- A commit only adds versions, all with its own sequence.
pub apply_ops-extends :
    (seq : ℕ) (ops : List BatchOp) (s : Shard) (k : Bytes)
    → (added : List Entry) × (entries_of (apply_ops seq ops s) k ≡ entries_of s k ++ added)
      × All (λ (x : Entry). x.seq ≡ seq) added
unfolding apply_ops
apply_ops-extends seq [] s k = ([], sym (append-nil (entries_of s k)), tt)
apply_ops-extends seq (op ∷ ops) s k =
    let (added, eq, same) = apply_ops-extends seq ops (apply_op seq op s) k in
    let one = entries_of-apply_op seq op s k in
    let new = new_entry seq op (entries_of s k) in
    elim (Bool-cases (op_key op =ᵇ k)) [
      | inr other ↦ (added, eq ∙ ap (λ l. l ++ added) (rw other at one), same)
      | inl hit ↦ (
        new ∷ added,
        eq ∙ ap (λ l. l ++ added) (rw hit at one) ∙ append_assoc (entries_of s k) (new ∷ []) added,
        (seq-new_entry seq op (entries_of s k), same),
      )
    ]

pub visible-append :
    (xs ys : List Entry) (t : ℕ)
    → All (λ (x : Entry). t < x.seq) ys
    → visible (xs ++ ys) t ≡ visible xs t
unfolding visible
visible-append [] [] t h = refl
visible-append [] (y ∷ ys) t h = ground arith
visible-append (x ∷ xs) ys t h = rw (visible-append xs ys t h)

visible-cons :
    (e : Entry) (es : List Entry) (t : ℕ)
    → visible (e ∷ es) t
      ≡ (if leb e.seq t then (elim (visible es t) [ none ↦ some e | some x ↦ some x ]) else none)
unfolding visible
visible-cons e es t = refl

last_entry-some : (e : Entry) (es : List Entry) → (x : Entry) × (last_entry (e ∷ es) ≡ some x)
last_entry-some e [] = (e, refl)
last_entry-some e (f ∷ es) = last_entry-some f es

-- A snapshot that is not older than any version sees the last one.
pub visible_all :
    (es : List Entry) (t : ℕ) → All (λ (x : Entry). x.seq ≤ t) es → visible es t ≡ last_entry es
visible_all [] t h = unfold visible in refl
visible_all (e ∷ []) t (h, _) = unfold visible in rw (le→leb e.seq t h)
visible_all (e ∷ f ∷ es) t (h, hs) = rw (
  visible-cons e (f ∷ es) t,
  le→leb e.seq t h,
  visible_all (f ∷ es) t hs,
  (last_entry-some f es).1,
)

abbrev pub AtMost : ℕ → List Entry → Type 0
AtMost t es = All (λ (x : Entry). x.seq ≤ t) es

abbrev pub AtLeast : ℕ → List Entry → Type 0
AtLeast t es = All (λ (x : Entry). t ≤ x.seq) es

abbrev pub Stamped : ℕ → List Entry → Type 0
Stamped seq es = All (λ (x : Entry). x.seq ≡ seq) es

Stamped-AtLeast : (t seq : ℕ) (es : List Entry) → t ≤ seq → Stamped seq es → AtLeast t es
Stamped-AtLeast t seq es h = All-map (λ x e. omega arith) es

pub Stamped-IsSorted : (seq : ℕ) (es : List Entry) → Stamped seq es → IsSorted es
Stamped-IsSorted seq [] h = tt
Stamped-IsSorted seq (e ∷ es) (h, hs) =
    (Stamped-AtLeast e.seq seq es (omega arith) hs, Stamped-IsSorted seq es hs)

pub IsSorted-append :
    (xs ys : List Entry) (seq : ℕ)
    → IsSorted xs
    → AtMost seq xs
    → Stamped seq ys
    → IsSorted (xs ++ ys)
IsSorted-append [] ys seq s b a = Stamped-IsSorted seq ys a
IsSorted-append (x ∷ xs) ys seq (lo, s) (b, bs) a = (
  All-append (λ (y : Entry). x.seq ≤ y.seq) xs ys lo (Stamped-AtLeast x.seq seq ys b a),
  IsSorted-append xs ys seq s bs a,
)

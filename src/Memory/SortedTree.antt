-- ===== src/Memory/SortedTree.antt =====
-- A tree as a sorted list: it meets what `BTree` asks, and runs.
use dpx.Base.{
  Bytes, true, ◌≡◌, refl, All, [], ◌∷◌, none, some, if◌then◌else◌, ◌=ᵇ◌, =ᵇ_iff, arith, Bool-cases,
  inl, inr, lookup,
}
use dpx.Engine.Order.{◌≺◌, ≺_trans, ≺_total}
use dpx.Memory.{BTree, Pairs, IsSorted, from_pivot}

unfoldable pub put : Pairs → Bytes → Bytes → Pairs
put [] k v = (k, v) ∷ []
put ((j, w) ∷ l) k v =
    if j =ᵇ k then (k, v) ∷ l else if k ≺ j then (k, v) ∷ (j, w) ∷ l else (j, w) ∷ put l k v

unfoldable pub remove : Pairs → Bytes → Pairs
remove [] k = []
remove ((j, w) ∷ l) k = if j =ᵇ k then remove l k else (j, w) ∷ remove l k

pub lookup-put :
    (l : Pairs) (k j v : Bytes) → lookup j (put l k v) ≡ (if k =ᵇ j then some v else lookup j l)
unfolding lookup put
lookup-put [] k j v = refl
lookup-put ((i, w) ∷ l) k j v =
    ground (arith, lookup-put l k j v, =ᵇ_iff i k, =ᵇ_iff k j, =ᵇ_iff i j)

pub lookup-remove :
    (l : Pairs) (k j : Bytes) → lookup j (remove l k) ≡ (if k =ᵇ j then none else lookup j l)
unfolding lookup remove
lookup-remove [] k j = ground arith
lookup-remove ((i, w) ∷ l) k j =
    ground (arith, lookup-remove l k j, =ᵇ_iff i k, =ᵇ_iff k j, =ᵇ_iff i j)

abbrev Above : Bytes → Pairs → Type 0
Above j l = All (λ p. j ≺ p.0 ≡ true) l

Above-trans : (i j : Bytes) (l : Pairs) → i ≺ j ≡ true → Above j l → Above i l
Above-trans i j [] h a = tt
Above-trans i j ((k, v) ∷ l) h (a, as') = (≺_trans i j k h a, Above-trans i j l h as')

put-Above : (j : Bytes) (l : Pairs) (k v : Bytes) → j ≺ k ≡ true → Above j l → Above j (put l k v)
unfolding put
put-Above j [] k v h a = (h, tt)
put-Above j ((i, w) ∷ l) k v h (a, as') = elim (Bool-cases (i =ᵇ k)) [
  | inl e ↦ rw e (h, as')
  | inr n ↦ elim (Bool-cases (k ≺ i)) [
    | inl e ↦ rw (n, e) (h, (a, as'))
    | inr m ↦ rw (n, m) (a, put-Above j l k v h as')
  ]
]

remove-Above : (j : Bytes) (l : Pairs) (k : Bytes) → Above j l → Above j (remove l k)
unfolding remove
remove-Above j [] k a = tt
remove-Above j ((i, w) ∷ l) k (a, as') = elim (Bool-cases (i =ᵇ k)) [
  | inl e ↦ rw e (remove-Above j l k as')
  | inr n ↦ rw n (a, remove-Above j l k as')
]

pub put-IsSorted : (l : Pairs) (k v : Bytes) → IsSorted l → IsSorted (put l k v)
unfolding put
put-IsSorted [] k v s = (tt, tt)
put-IsSorted ((i, w) ∷ l) k v (a, s) = elim (Bool-cases (i =ᵇ k)) [
  | inl e ↦ rw e (rw ((=ᵇ_iff i k).0 e) at a, s)
  | inr n ↦ elim (Bool-cases (k ≺ i)) [
    | inl e ↦ rw (n, e) ((e, Above-trans k i l e a), (a, s))
    | inr m ↦
        rw (n, m)
          (
            put-Above i l k v (≺_total k i m (ground (arith, =ᵇ_iff i k, =ᵇ_iff k i))) a,
            put-IsSorted l k v s,
          )
  ]
]

pub remove-IsSorted : (l : Pairs) (k : Bytes) → IsSorted l → IsSorted (remove l k)
unfolding remove
remove-IsSorted [] k s = tt
remove-IsSorted ((i, w) ∷ l) k (a, s) = elim (Bool-cases (i =ᵇ k)) [
  | inl e ↦ rw e (remove-IsSorted l k s)
  | inr n ↦ rw n (remove-Above i l k a, remove-IsSorted l k s)
]

abbrev pub SortedPairs : Type 0
SortedPairs = (l : Pairs) × IsSorted l

unfoldable pub sorted_tree : BTree
unfolding lookup put remove from_pivot
sorted_tree = record {
  Tree = SortedPairs;
  new = ([], tt);
  get = λ t k. lookup k t.0;
  put = λ t k v. (put t.0 k v, put-IsSorted t.0 k v t.1);
  remove = λ t k. (remove t.0 k, remove-IsSorted t.0 k t.1);
  scan = λ t. t.0;
  ascend = λ t p. from_pivot p t.0;
  get-new = λ k. refl;
  get-put = λ t k j v. lookup-put t.0 k j v;
  get-remove = λ t k j. lookup-remove t.0 k j;
  lookup-scan = λ t k. refl;
  scan-IsSorted = λ t. t.1;
  ascend-eq = λ t p. refl;
}

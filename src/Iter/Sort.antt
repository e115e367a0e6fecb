-- ===== src/Iter/Sort.antt =====
-- `sort.Slice` by key, as the engines use it on pairs of distinct keys.
use dpx.Base.{
  Bytes, true, false, ◌≡◌, refl, ap, ◌∙◌, [], ◌∷◌, none, some, if◌then◌else◌, ◌=ᵇ◌, =ᵇ_iff, All,
  arith, Bool-cases, inl, inr, lookup, Distinct,
}
use dpx.Engine.Order.{◌≺◌, ≺_trans, ≺_total}
use dpx.Memory.{Pairs, IsSorted}

unfoldable pub insert_pair : Bytes → Bytes → Pairs → Pairs
insert_pair k v [] = (k, v) ∷ []
insert_pair k v ((j, w) ∷ l) =
    let rest = insert_pair k v l in if j ≺ k then (j, w) ∷ rest else (k, v) ∷ (j, w) ∷ l

unfoldable pub sort_pairs : Pairs → Pairs
sort_pairs [] = []
sort_pairs ((k, v) ∷ l) = insert_pair k v (sort_pairs l)

lookup-insert_pair :
    (k v : Bytes) (l : Pairs) (j : Bytes)
    → lookup k l ≡ none
    → lookup j (insert_pair k v l) ≡ (if k =ᵇ j then some v else lookup j l)
unfolding lookup insert_pair
lookup-insert_pair k v [] j new = refl
lookup-insert_pair k v ((i, w) ∷ l) j new =
    ground (arith, lookup-insert_pair k v l j, =ᵇ_iff i k, =ᵇ_iff k j, =ᵇ_iff i j)

pub lookup-sort_pairs : (l : Pairs) (j : Bytes) → Distinct l → lookup j (sort_pairs l) ≡ lookup j l
unfolding lookup sort_pairs
lookup-sort_pairs [] j d = refl
lookup-sort_pairs ((k, v) ∷ l) j (new, d) =
    lookup-insert_pair k v (sort_pairs l) j (lookup-sort_pairs l k d ∙ new)
    ∙ ap (λ r. if k =ᵇ j then some v else r) (lookup-sort_pairs l j d)

Above : Bytes → Pairs → Type 0
Above j l = All (λ (p : Bytes × Bytes). j ≺ p.0 ≡ true) l

Above-trans : (i j : Bytes) (l : Pairs) → i ≺ j ≡ true → Above j l → Above i l
unfolding Above
Above-trans i j [] h a = tt
Above-trans i j ((k, v) ∷ l) h (a, as') = (≺_trans i j k h a, Above-trans i j l h as')

insert_pair-Above :
    (j k v : Bytes) (l : Pairs) → j ≺ k ≡ true → Above j l → Above j (insert_pair k v l)
unfolding insert_pair Above
insert_pair-Above j k v [] h a = (h, tt)
insert_pair-Above j k v ((i, w) ∷ l) h (a, as') = elim (Bool-cases (i ≺ k)) [
  | inl e ↦ rw e (a, insert_pair-Above j k v l h as')
  | inr e ↦ rw e (h, (a, as'))
]

insert_pair-IsSorted :
    (k v : Bytes) (l : Pairs) → lookup k l ≡ none → IsSorted l → IsSorted (insert_pair k v l)
unfolding insert_pair lookup Above
insert_pair-IsSorted k v [] new s = (tt, tt)
insert_pair-IsSorted k v ((i, w) ∷ l) new (a, s) = elim (Bool-cases (i ≺ k)) [
  | inl e ↦ rw e (insert_pair-Above i k v l e a, insert_pair-IsSorted k v l (ground (arith, new)) s)
  | inr e ↦
      let other : (i =ᵇ k) ≡ false = ground (arith, new) in
      let up = ≺_total i k e other in rw e ((up, Above-trans k i l up a), (a, s))
]

-- The keys of what comes out grow strictly.
pub sort_pairs-IsSorted : (l : Pairs) → Distinct l → IsSorted (sort_pairs l)
unfolding sort_pairs
sort_pairs-IsSorted [] d = tt
sort_pairs-IsSorted ((k, v) ∷ l) (new, d) =
    insert_pair-IsSorted k v (sort_pairs l) (lookup-sort_pairs l k d ∙ new)
      (sort_pairs-IsSorted l d)

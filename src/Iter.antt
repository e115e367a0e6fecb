-- ===== src/Iter.antt =====
-- engine/engine.go: `Iterator`; helpers.go: `collectIter`; and the iterators over collected pairs
-- (`memIter`, `oshodiIter`, `badgerIter`). `Close` releases resources and is not modelled.
pub mod Reverse
pub mod Collect
pub mod Cursors
pub mod Sort
mod Tests
use dpx.Base.{
  ℕ, zero, suc, ◌+◌, ◌-◌, Bytes, Bool, true, false, not, ◌&&◌, ltb, leb, length, get_elem?, ◌++◌,
  List, [], ◌∷◌, Option, none, some, if◌then◌else◌, Result, ok, err, panic, ◌≡◌,
}

-- The methods over what an iterator keeps. The positioning calls return Go's Boolean.
pub record Iterator : Type 1 where
  pub State : Type 0
  pub first : State → Bool × State
  pub next : State → Bool × State
  pub prev : State → Bool × State
  pub valid : State → Bool
  pub key : State → Bytes
  pub value : State → Bytes
  pub error : State → Option ℕ

-- What is left to deliver behind a positioning call: these pairs in this order, with no error on
-- the way.
abbrev pub Delivers : (it : Iterator) → List (Bytes × Bytes) → Bool × it.State → Type 0
Delivers it [] (moved, s) = ((moved && it.valid s) ≡ false) × (it.error s ≡ none)
Delivers it ((k, v) ∷ l) (moved, s) =
    ((moved && it.valid s) ≡ true)
    × (it.error s ≡ none)
    × (it.key s ≡ k)
    × (it.value s ≡ v)
    × Delivers it l (it.next s)

-- The loop of `collectIter`, from a positioning call on, for at most `n` tests of its condition;
-- `none` where that many are not enough.
unfoldable pub collect_loop :
    (it : Iterator)
    → ℕ
    → ℕ
    → Bool × it.State
    → List (Bytes × Bytes)
    → Option (List (Bytes × Bytes) × it.State)
collect_loop it limit zero (moved, s) pairs = none
collect_loop it limit (suc n) (moved, s) pairs =
    let rest = collect_loop it limit n (it.next s) (pairs ++ ((it.key s, it.value s) ∷ [])) in
    if moved && it.valid s && not (ltb 0 limit && leb limit (length pairs))
    then rest
    else some (pairs, s)

module _ {A : Type 0} where
  abbrev pub set_at : ℕ → A → List A → List A
  set_at i y [] = []
  set_at zero y (x ∷ xs) = y ∷ xs
  set_at (suc i) y (x ∷ xs) = x ∷ set_at i y xs

  abbrev pub swap_items : ℕ → ℕ → List A → Option A → Option A → Option (List A)
  swap_items i j l (some x) (some y) = some (set_at j x (set_at i y l))
  swap_items i j l _ _ = none

  -- `l[i], l[j] = l[j], l[i]`; `none` where an index is out of range.
  unfoldable pub swap : ℕ → ℕ → List A → Option (List A)
  swap i j l = swap_items i j l (get_elem? l i) (get_elem? l j)

  -- `for i, j := i, end-1; i < j; i, j = i+1, j-1`, for at most `n` tests of its condition.
  unfoldable pub reverse_loop : ℕ → ℕ → ℕ → List A → Option (Result ℕ (List A))
  reverse_loop zero i end l = none
  reverse_loop (suc n) i end l =
      if ltb (i + 1) end
      then elim (swap i (end - 1) l) [
        | none ↦ some panic
        | some l' ↦ reverse_loop n (i + 1) (end - 1) l'
      ]
      else some (ok l)

-- `collectIter` behind the loop: from the iterator's error on.
unfoldable pub turn :
    ℕ → Bool → List (Bytes × Bytes) → Option ℕ → Option (Result ℕ (List (Bytes × Bytes)))
turn fuel backward pairs (some e) = some (err e)
turn fuel true pairs none = reverse_loop fuel 0 (length pairs) pairs
turn fuel false pairs none = some (ok pairs)

abbrev pub after_loop :
    (it : Iterator)
    → ℕ
    → Bool
    → Option (List (Bytes × Bytes) × it.State)
    → Option (Result ℕ (List (Bytes × Bytes)))
after_loop it fuel backward none = none
after_loop it fuel backward (some (pairs, s)) = turn fuel backward pairs (it.error s)

-- `collectIter`, with `fuel` for either loop.
unfoldable pub collect_iter :
    (it : Iterator) → ℕ → ℕ → Bool → it.State → Option (Result ℕ (List (Bytes × Bytes)))
collect_iter it fuel limit backward s =
    after_loop it fuel backward (collect_loop it limit fuel (it.first s) [])

-- ===== src/Iter/Collect.antt =====
-- helpers.go: `collectIter` over an iterator that delivers a list.
use mathlib.Core.List.{reverse}
use dpx.Base.{
  ℕ, zero, suc, ◌+◌, ◌<◌, ◌≤◌, ◌≡◌, refl, ap, sym, ◌∙◌, Bytes, Bool, true, false, ◌&&◌, ltb, leb,
  length, ◌++◌, List, [], ◌∷◌, append_assoc, append-nil, length-append, none, some, ok, err, arith,
  Bool-cases, inl, inr,
}
use dpx.Iter.{Iterator, Delivers, collect_loop, collect_iter, turn, after_loop}
use dpx.Iter.Cursors.{err_iter}
use dpx.Iter.Reverse.{reverse_loop-reverse}
use dpx.Tx.{collect}

-- Wherever the loop stops, it has the pairs of `collect` behind those that it started with.
collect_loop-collect :
    (it : Iterator) (limit n : ℕ) (moved : Bool × it.State) (l pairs : List (Bytes × Bytes))
    → Delivers it l moved
    → length l < n
    → (s : it.State) × (collect_loop it limit n moved pairs
        ≡ some (pairs ++ collect limit (length pairs) l, s))
      × (it.error s ≡ none)
unfolding collect_loop collect
collect_loop-collect it limit zero moved l pairs d h = absurd (omega arith)
collect_loop-collect it limit (suc n) (m, s) [] pairs (stop, e) h =
    (s, rw stop (ap (λ p. some (p, s)) (sym (append-nil pairs))), e)
collect_loop-collect it limit (suc n) (m, s) ((k, v) ∷ l) pairs (go, e, ek, ev, d) h =
    elim (Bool-cases (ltb 0 limit && leb limit (length pairs))) [
      | inl full ↦ (s, rw (go, full) (ap (λ p. some (p, s)) (sym (append-nil pairs))), e)
      | inr more ↦
          let pairs' : List (Bytes × Bytes) = pairs ++ ((it.key s, it.value s) ∷ []) in
          let (end, same, fine) =
            collect_loop-collect it limit n (it.next s) l pairs' d (omega arith) in
          let one : (it.key s, it.value s) ≡ (k, v) = cc in
          let count : length pairs' ≡ length pairs + 1 = length-append pairs _ in
          (
            end,
            rw (go, more)
                (same
                  ∙ ap (λ c. some (pairs' ++ collect limit c l, end)) count
                  ∙ ap (λ q. some (q, end)) (append_assoc pairs _ _)
                  ∙ ap (λ q. some (pairs ++ (q ∷ collect limit (length pairs + 1) l), end)) one),
            fine,
          )
    ]

length-collect : (limit n : ℕ) (l : List (Bytes × Bytes)) → length (collect limit n l) ≤ length l
unfolding collect
length-collect limit n [] = omega arith
length-collect limit n (x ∷ l) = ground (arith, length-collect limit (n + 1) l)

abbrev pub oriented : Bool → List (Bytes × Bytes) → List (Bytes × Bytes)
oriented true l = reverse l
oriented false l = l

turn-oriented :
    (fuel : ℕ) (backward : Bool) (l : List (Bytes × Bytes))
    → length l < fuel
    → turn fuel backward l none ≡ some (ok (oriented backward l))
unfolding turn
turn-oriented fuel true l h = reverse_loop-reverse fuel l h
turn-oriented fuel false l h = refl

-- Over an iterator that delivers the pairs `l` from its first on, `collectIter` ends, without an
-- error or a panic, with no more than `length l + 1` tests of either loop's condition, and returns
-- the pairs, cut to the limit and then turned round if the scan is a reverse one.
pub collect_iter-terminates :
    (it : Iterator) (s : it.State) (l : List (Bytes × Bytes)) (fuel limit : ℕ) (backward : Bool)
    → Delivers it l (it.first s)
    → length l < fuel
    → collect_iter it fuel limit backward s ≡ some (ok (oriented backward (collect limit 0 l)))
unfolding collect_iter
collect_iter-terminates it s l fuel limit backward d h =
    let (end, same, fine) = collect_loop-collect it limit fuel (it.first s) l [] d h in
    ap (after_loop it fuel backward) same
    ∙ ap (turn fuel backward (collect limit 0 l)) fine
    ∙ turn-oriented fuel backward (collect limit 0 l) (omega (arith, length-collect limit 0 l))

-- A scan that could not be opened ends with its error.
pub collect_iter-err_iter :
    (e fuel limit : ℕ) (backward : Bool)
    → 0 < fuel
    → collect_iter (err_iter e) fuel limit backward tt ≡ some (err e)
unfolding collect_iter collect_loop turn
collect_iter-err_iter e zero limit backward h = absurd (omega arith)
collect_iter-err_iter e (suc fuel) limit backward h = refl

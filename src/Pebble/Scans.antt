-- ===== src/Pebble/Scans.antt =====
-- `pebbleConsumerIter`, against the pairs that the iterator below it delivers.
use mathlib.Core.Path.{subst}
use dpx.Base.{
  some, ok, err, length, ℕ, zero, suc, ◌<◌, ◌≤◌, ◌≡◌, refl, Bytes, Bool, true, false, ◌&&◌, List,
  [], ◌∷◌, if◌then◌else◌, arith, Bool-cases, inl, inr,
}
use dpx.Engine.{is_reserved}
use dpx.Iter.{Delivers}
use dpx.Iter.{collect_iter}
use dpx.Iter.Collect.{collect_iter-terminates, collect_iter-err_iter, oriented}
use dpx.Tx.{collect}
use dpx.Pebble.{
  new_iter_of, opened, refused, PebbleIterator, skip_forward, skip_reserved, behind, consumer_iter,
}

-- The pairs of users' keys.
unfoldable pub unreserved : List (Bytes × Bytes) → List (Bytes × Bytes)
unreserved [] = []
unreserved ((k, v) ∷ l) = let rest = unreserved l in if is_reserved k then rest else (k, v) ∷ rest

module _ (p : PebbleIterator) where
  skip_forward_stays :
      (n : ℕ) (s : p.iter.State)
      → (p.iter.valid s && is_reserved (p.iter.key s)) ≡ false
      → skip_forward p n s ≡ s
  unfolding skip_forward
  skip_forward_stays zero s h = refl
  skip_forward_stays (suc n) s h = rw h refl

  skip_forward_step :
      (n : ℕ) (s : p.iter.State)
      → (p.iter.valid s && is_reserved (p.iter.key s)) ≡ true
      → 0 < n
      → (m : ℕ) × (n ≡ suc m) × (skip_forward p n s ≡ skip_forward p m (p.iter.next s).1)
  unfolding skip_forward
  skip_forward_step zero s h less = absurd (omega arith)
  skip_forward_step (suc n) s h less = (n, refl, rw h refl)

  -- What the consumer's iterator delivers from a position, once the reserved keys are skipped.
  abbrev Skipped : List (Bytes × Bytes) → Type 0
  Skipped l =
      (n : ℕ) (s : p.iter.State)
      → p.ahead s ≤ n
      → Delivers p.iter l (p.iter.valid s, s)
      → Delivers (consumer_iter p) (unreserved l)
          (p.iter.valid (skip_forward p n s), skip_forward p n s)

  behind-Delivers :
      (l : List (Bytes × Bytes)) (m : Bool) (s : p.iter.State)
      → Skipped l
      → m ≡ p.iter.valid s
      → Delivers p.iter l (m, s)
      → Delivers (consumer_iter p) (unreserved l) (behind p (skip_reserved p) (m, s))
  unfolding unreserved skip_reserved
  behind-Delivers l true s skipped e d =
      skipped (p.ahead s) s (omega arith) (subst (λ b. Delivers p.iter l (b, s)) e d)
  behind-Delivers [] false s skipped e d = (refl, d.1)
  behind-Delivers (x ∷ l) false s skipped e d = absurd (ground (arith, d.0))

  skip_forward-Delivers : (l : List (Bytes × Bytes)) → Skipped l
  unfolding unreserved
  skip_forward-Delivers [] n s h (out, fine) =
      let stays : skip_forward p n s ≡ s = skip_forward_stays n s (ground (arith, out)) in
      rw stays (out, fine)
  skip_forward-Delivers ((k, v) ∷ l) n s h (here, fine, ek, ev, d) =
      let valid : p.iter.valid s ≡ true = ground (arith, here) in
      let less = p.next-ahead s valid in
      let moved = p.next-valid s in
      elim (Bool-cases (is_reserved k)) [
        | inl r ↦
            let (m, size, step) = skip_forward_step n s (rw (valid, ek, r) refl) (omega arith) in
            rw (r, step)
              (skip_forward-Delivers l m (p.iter.next s).1 (omega arith)
                (subst (λ b. Delivers p.iter l (b, (p.iter.next s).1)) moved d))
        | inr r ↦
            let stays : skip_forward p n s ≡ s = skip_forward_stays n s (rw (valid, ek, r) refl) in
            rw (r, stays)
              (
                here,
                fine,
                ek,
                ev,
                behind-Delivers l (p.iter.next s).0 (p.iter.next s).1 (skip_forward-Delivers l)
                    moved d,
              )
      ]

-- Over an iterator that delivers the pairs `l`, the consumer's delivers, in their order, exactly
-- those whose keys are not reserved: the loops that skip the others end, and pass over no more.
consumer_iter-Delivers :
    (p : PebbleIterator) (l : List (Bytes × Bytes)) (s : p.iter.State)
    → Delivers p.iter l (p.iter.first s)
    → Delivers (consumer_iter p) (unreserved l) ((consumer_iter p).first s)
consumer_iter-Delivers p l s d =
    behind-Delivers p l (p.iter.first s).0 (p.iter.first s).1 (skip_forward-Delivers p l)
      (p.first-valid s) d

-- A range read through a snapshot's iterator ends, and over a store's iterator that delivers the
-- pairs `l` it returns those whose keys are not reserved, cut to the limit and then turned round if
-- the scan is a reverse one. Where the store's iterator cannot be opened, it returns that error.
pub range-unreserved :
    (p : PebbleIterator) (l : List (Bytes × Bytes)) (s : p.iter.State) (fuel limit e : ℕ)
    (backward : Bool)
    → Delivers p.iter l (p.iter.first s)
    → length (unreserved l) < fuel
    → (collect_iter (new_iter_of (opened p)) fuel limit backward s
        ≡ some (ok (oriented backward (collect limit 0 (unreserved l)))))
      × (collect_iter (new_iter_of (refused e)) fuel limit backward tt ≡ some (err e))
range-unreserved p l s fuel limit e backward d h = (
  collect_iter-terminates (consumer_iter p) s (unreserved l) fuel limit backward
      (consumer_iter-Delivers p l s d) h,
  collect_iter-err_iter e fuel limit backward (omega arith),
)

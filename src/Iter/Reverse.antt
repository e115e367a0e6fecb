-- ===== src/Iter/Reverse.antt =====
-- helpers.go: the loop of `collectIter` that turns a slice round in place.
use mathlib.Core.List.{reverse, reverse-append, reverse-cons}
use dpx.Base.{
  ℕ, zero, suc, ◌+◌, ◌-◌, ◌<◌, ◌≤◌, ◌≡◌, refl, ap, sym, ◌∙◌, true, false, ltb, length, get_elem?,
  ◌++◌, List, [], ◌∷◌, append_assoc, append-nil, length-append, some, ok, arith,
}
use dpx.Iter.{set_at, swap, reverse_loop}

module _ {A : Type 0} where
  -- A list with an item has a last one.
  snoc : (x : A) (xs : List A) → (mid : List A) × (y : A) × (x ∷ xs ≡ mid ++ (y ∷ []))
  snoc x [] = ([], x, refl)
  snoc x (y ∷ ys) = let (mid, z, e) = snoc y ys in (x ∷ mid, z, ap (λ l. x ∷ l) e)

  get_elem-middle :
      (pre : List A) (x : A) (post : List A) → get_elem? (pre ++ (x ∷ post)) (length pre) ≡ some x
  get_elem-middle [] x post = refl
  get_elem-middle (p ∷ pre) x post = get_elem-middle pre x post

  set_at-middle :
      (pre : List A) (x y : A) (post : List A)
      → set_at (length pre) y (pre ++ (x ∷ post)) ≡ pre ++ (y ∷ post)
  set_at-middle [] x y post = refl
  set_at-middle (p ∷ pre) x y post = ap (λ l. p ∷ l) (set_at-middle pre x y post)

  swap-found :
      (i j : ℕ) (x y : A) (l : List A)
      → get_elem? l i ≡ some x
      → get_elem? l j ≡ some y
      → swap i j l ≡ some (set_at j x (set_at i y l))
  unfolding swap
  swap-found i j x y l p q = rw (p, q) refl

  -- The swap of the ends of a stretch.
  swap_ends :
      (pre : List A) (x : A) (mid : List A) (y : A) (post : List A)
      → swap (length pre) (length (pre ++ (x ∷ mid))) (pre ++ (x ∷ (mid ++ (y ∷ post))))
        ≡ some (pre ++ (y ∷ (mid ++ (x ∷ post))))
  swap_ends pre x mid y post =
      let split : (z : A) → pre ++ (z ∷ (mid ++ (y ∷ post))) ≡ (pre ++ (z ∷ mid)) ++ (y ∷ post) =
        λ z. sym (append_assoc pre (z ∷ mid) (y ∷ post)) in
      let far : get_elem? (pre ++ (x ∷ (mid ++ (y ∷ post)))) (length (pre ++ (x ∷ mid))) ≡ some y =
        ap (λ l. get_elem? l (length (pre ++ (x ∷ mid)))) (split x)
        ∙ get_elem-middle (pre ++ (x ∷ mid)) y post in
      let same : length (pre ++ (x ∷ mid)) ≡ length (pre ++ (y ∷ mid)) =
        omega (arith, length-append pre (x ∷ mid), length-append pre (y ∷ mid)) in
      swap-found (length pre) _ x y _ (get_elem-middle pre x (mid ++ (y ∷ post))) far
      ∙ ap (λ l. some (set_at (length (pre ++ (x ∷ mid))) x l))
          (set_at-middle pre x y (mid ++ (y ∷ post)) ∙ split y)
      ∙ ap (λ j. some (set_at j x ((pre ++ (y ∷ mid)) ++ (y ∷ post)))) same
      ∙ ap some (set_at-middle (pre ++ (y ∷ mid)) y x post ∙ append_assoc pre (y ∷ mid) (x ∷ post))

  reverse_ends :
      (x : A) (mid : List A) (y : A)
      → reverse (x ∷ (mid ++ (y ∷ []))) ≡ y ∷ (reverse mid ++ (x ∷ []))
  reverse_ends x mid y =
      reverse-cons x (mid ++ (y ∷ [])) ∙ ap (λ l. l ++ (x ∷ [])) (reverse-append mid (y ∷ []))

  reverse_loop_stop :
      (n i end : ℕ) (l : List A) → end ≤ suc i → 0 < n → reverse_loop n i end l ≡ some (ok l)
  unfolding reverse_loop
  reverse_loop_stop zero i end l h p = absurd (omega arith)
  reverse_loop_stop (suc n) i end l h p =
      let stop : ltb (i + 1) end ≡ false = ground arith in rw stop refl

  reverse_loop_step :
      (n i j : ℕ) (l l' : List A)
      → i < j
      → swap i j l ≡ some l'
      → reverse_loop (suc n) i (suc j) l ≡ reverse_loop n (suc i) j l'
  unfolding reverse_loop
  reverse_loop_step n i j l l' h s =
      let go : ltb (i + 1) (suc j) ≡ true = ground arith in
      let last : suc j - 1 ≡ j = omega arith in
      let up : i + 1 ≡ suc i = omega arith in
      rw (go, last, s, up) (ap (λ k. reverse_loop n (suc i) k l') last)

  -- Where `i` and `end` bound the stretch `m`, the loop turns it round.
  pub reverse_loop_middle :
      (n i end : ℕ) (pre m post : List A)
      → i ≡ length pre
      → end ≡ i + length m
      → length m < n
      → reverse_loop n i end (pre ++ (m ++ post)) ≡ some (ok (pre ++ (reverse m ++ post)))
  reverse_loop_middle zero i end pre m post p q h = absurd (omega arith)
  reverse_loop_middle (suc n) i end pre [] post p q h =
      reverse_loop_stop (suc n) i end _ (omega arith) (omega arith)
  reverse_loop_middle (suc n) i end pre (x ∷ []) post p q h =
      reverse_loop_stop (suc n) i end _ (omega arith) (omega arith)
  reverse_loop_middle (suc n) i end pre (x ∷ z ∷ zs) post p q h =
      let (mid, y, e) = snoc z zs in
      let size : suc (length zs) ≡ length mid + 1 = ap length e ∙ length-append mid (y ∷ []) in
      let before : (z ∷ zs) ++ post ≡ mid ++ (y ∷ post) =
        ap (λ l. l ++ post) e ∙ append_assoc mid (y ∷ []) post in
      let far : length (pre ++ (x ∷ mid)) ≡ i + suc (length mid) =
        length-append pre (x ∷ mid) ∙ omega (arith, p) in
      let turned : reverse (x ∷ z ∷ zs) ≡ y ∷ (reverse mid ++ (x ∷ [])) =
        ap (λ l. reverse (x ∷ l)) e ∙ reverse_ends x mid y in
      ap (λ l. reverse_loop (suc n) i end (pre ++ (x ∷ l))) before
      ∙ ap (λ k. reverse_loop (suc n) i k (pre ++ (x ∷ (mid ++ (y ∷ post)))))
          (omega (arith, size, q))
      ∙ reverse_loop_step n i (i + suc (length mid)) _ _ (omega arith) (
          ap (λ k. swap i k (pre ++ (x ∷ (mid ++ (y ∷ post))))) (sym far)
          ∙ ap (λ k. swap k (length (pre ++ (x ∷ mid))) (pre ++ (x ∷ (mid ++ (y ∷ post))))) p
          ∙ swap_ends pre x mid y post)
      ∙ ap (reverse_loop n (suc i) (i + suc (length mid)))
          (sym (append_assoc pre (y ∷ []) (mid ++ (x ∷ post))))
      ∙ reverse_loop_middle n (suc i) (i + suc (length mid)) (pre ++ (y ∷ [])) mid (x ∷ post)
          (omega (arith, p, length-append pre (y ∷ []))) (omega arith) (omega (arith, size, h))
      ∙ ap (λ l. some (ok l))
          (append_assoc pre (y ∷ []) (reverse mid ++ (x ∷ post))
            ∙ ap (λ l. pre ++ (y ∷ l)) (sym (append_assoc (reverse mid) (x ∷ []) post))
            ∙ ap (λ l. pre ++ (l ++ post)) (sym turned))

-- The loop of `collectIter` turns the slice round.
pub reverse_loop-reverse :
    {A : Type 0} (n : ℕ) (l : List A)
    → length l < n
    → reverse_loop n 0 (length l) l ≡ some (ok (reverse l))
reverse_loop-reverse n l h =
    ap (reverse_loop n 0 (length l)) (sym (append-nil l))
    ∙ reverse_loop_middle n 0 (length l) [] l [] refl (omega arith) h
    ∙ ap (λ r. some (ok r)) (append-nil (reverse l))

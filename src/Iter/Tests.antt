-- ===== src/Iter/Tests.antt =====
-- Iterators on small slices.
use dpx.Base.{Bytes, List, [], ◌∷◌, ◌≡◌, refl, true, false, some, ok, arith}
use dpx.Iter.{collect_iter}
use dpx.Iter.Collect.{collect_iter-terminates, oriented}
use dpx.Iter.Cursors.{
  mem_iter, new_cursor, cursor_first-Delivers, mem_prev, badger_prev, cursor_first, cursor_next,
  cursor_valid,
}
use dpx.Tx.{collect}

abbrev three : List (Bytes × Bytes)
three = (b'a' ∷ [], 1 ∷ []) ∷ (b'b' ∷ [], 2 ∷ []) ∷ (b'c' ∷ [], 3 ∷ []) ∷ []

collect_iter-terminates_example :
    collect_iter mem_iter 4 2 true (new_cursor three)
    ≡ some (ok (oriented true (collect 2 0 three)))
collect_iter-terminates_example =
    collect_iter-terminates mem_iter (new_cursor three) three 4 2 true
      (cursor_first-Delivers mem_prev (new_cursor three)) (omega arith)

two_back : oriented true (collect 2 0 three) ≡ (b'b' ∷ [], 2 ∷ []) ∷ (b'a' ∷ [], 1 ∷ []) ∷ []
unfolding collect
two_back = refl

-- Badger's iterator goes on counting below the first pair, and then `Next` says that it has moved
-- where `Valid` says that it stands on nothing.
next_off_pairs :
    let c = badger_prev (badger_prev (cursor_first (new_cursor three)).1).1 in
    ((cursor_next c.1).0 ≡ true) × (cursor_valid (cursor_next c.1).1 ≡ false)
next_off_pairs = (refl, refl)

next_on_first :
    let c = mem_prev (mem_prev (cursor_first (new_cursor three)).1).1 in
    ((cursor_next c.1).0 ≡ true) × (cursor_valid (cursor_next c.1).1 ≡ true)
next_on_first = (refl, refl)

-- ===== src/Pebble/Tests.antt =====
-- A store over the sorted list and an iterator over a list, which meet the documented laws.
use mathlib.Core.List.{reverse_aux}
use dpx.Base.{
  ok, err, at_key, ℕ, ◌+◌, Bytes, Bool, true, false, length, ◌++◌, List, [], ◌∷◌, none, some, ◌≡◌,
  refl, ap, sym, ◌∙◌, ◌<◌, ◌=ᵇ◌, arith,
}
use dpx.Engine.{
  BatchOp, set, delete, merge, op_key, effect, effects, is_reserved, version_key, applied_key,
}
use dpx.Memory.{Pairs, get_plain, new_plain, raw_iter_legacy}
use dpx.Memory.SortedStore.{SortedStore, put_value, get-put_value}
use dpx.Memory.SortedTree.{sorted_tree}
use dpx.Memory.Scans.{lookup-raw_iter_legacy, raw_iter_legacy-Distinct}
use dpx.Iter.{Delivers, collect_iter}
use dpx.Iter.Collect.{oriented}
use dpx.Tx.{collect}
use dpx.Pebble.{new_iter_of, opened, refused}
use dpx.Pebble.{
  PebbleIterator, PebbleStore, History, mutate_all, Shows, unmerged, merged_to, operand, begun,
  older, with_base, pebble_apply, fill_batch, batch_op,
}
use dpx.Pebble.Scans.{range-unreserved, unreserved}
use dpx.Codec.{add64, uint, put_uint}
use dpx.Pebble.{merger_finish, merger_merge, merge_newer, merge_older}
use dpx.Pebble.Merger.{newer_all, older_all, merged, merged-effects, merges}
use dpx.Pebble.Operands.{Shows-shown, shown-mutate_all, shown-Shows}
use mathlib.Core.Path.{subst}
use dpx.Pebble.Interface.{get-pebble_apply}

-- The pairs before the position, the last one first, and those from it on.
abbrev Zipper : Type 0
Zipper = Pairs × Pairs

abbrev stands : Zipper → Bool
stands (before, []) = false
stands (before, p ∷ after) = true

abbrev forth : Zipper → Zipper
forth (before, []) = (before, [])
forth (before, p ∷ after) = (p ∷ before, after)

abbrev go_back : Zipper → Zipper
go_back ([], after) = ([], [])
go_back (p ∷ before, after) = (before, p ∷ after)

abbrev here : Zipper → Bytes × Bytes
here (before, []) = ([], [])
here (before, p ∷ after) = p

abbrev one : Pairs → ℕ
one [] = 0
one (p ∷ l) = 1

ahead_less : (z : Zipper) → stands z ≡ true → length (forth z).1 < length z.1
ahead_less (before, []) h = absurd (ground (arith, h))
ahead_less (before, p ∷ after) h = omega arith

back_less :
    (z : Zipper) → stands z ≡ true → length (go_back z).0 + one (go_back z).1 < length z.0 + one z.1
back_less ([], []) h = absurd (ground (arith, h))
back_less ([], p ∷ after) h = omega arith
back_less (q ∷ before, []) h = absurd (ground (arith, h))
back_less (q ∷ before, p ∷ after) h = omega arith

abbrev list_iterator : PebbleIterator
list_iterator = record {
  iter = record {
    State = Zipper;
    first = λ z. (stands ([], reverse_aux z.0 z.1), ([], reverse_aux z.0 z.1));
    next = λ z. (stands (forth z), forth z);
    prev = λ z. (stands (go_back z), go_back z);
    valid = stands;
    key = λ z. (here z).0;
    value = λ z. (here z).1;
    error = λ z. none;
  };
  ahead = λ z. length z.1;
  back = λ z. length z.0 + one z.1;
  first-valid = λ z. refl;
  next-valid = λ z. refl;
  prev-valid = λ z. refl;
  next-ahead = ahead_less;
  prev-back = back_less;
}

abbrev scanned : Pairs
scanned = (b'a' ∷ [], 1 ∷ []) ∷ (b'b' ∷ [], 2 ∷ []) ∷ []

abbrev stored_pairs : Pairs
stored_pairs = (applied_key, 8 ∷ []) ∷ (version_key (b'a' ∷ []), 9 ∷ []) ∷ scanned

delivered : Delivers list_iterator.iter stored_pairs (list_iterator.iter.first ([], stored_pairs))
delivered =
    ((
      refl,
      refl,
      refl,
      refl,
      (refl, refl, refl, refl, (refl, refl, refl, refl, (refl, refl, refl, refl, (refl, refl)))),
    ))

few : length (unreserved stored_pairs) < 3
unfolding unreserved is_reserved ◌=ᵇ◌ version_key
few = omega arith

range-unreserved_example :
    (collect_iter (new_iter_of (opened list_iterator)) 3 1 true ([], stored_pairs)
      ≡ some (ok (oriented true (collect 1 0 (unreserved stored_pairs)))))
    × (collect_iter (new_iter_of (refused 7)) 3 1 true tt ≡ some (err 7))
range-unreserved_example =
    range-unreserved list_iterator stored_pairs ([], stored_pairs) 3 1 7 true delivered few

users_only : unreserved stored_pairs ≡ scanned
unfolding unreserved is_reserved ◌=ᵇ◌ version_key
users_only = refl

abbrev word : ℕ → Bytes
word n = n ∷ 0 ∷ 0 ∷ 0 ∷ 0 ∷ 0 ∷ 0 ∷ 0 ∷ []

merged-effects_example :
    some (merged (with_base (some (word 5)) (word 1 ∷ [])) (word 2) (word 3 ∷ []))
    ≡ effects (b'a' ∷ []) (merges (b'a' ∷ []) (word 1 ∷ word 2 ∷ word 3 ∷ [])) (some (word 5))
merged-effects_example =
    merged-effects (b'a' ∷ []) (some (word 5)) (word 1 ∷ []) (word 2) (word 3 ∷ [])

eleven : merged (word 5 ∷ word 1 ∷ []) (word 2) (word 3 ∷ []) ≡ word 11
unfolding merger_finish newer_all older_all merger_merge merge_newer merge_older add64 uint put_uint
eleven = refl

store_all : List BatchOp → SortedStore → SortedStore
store_all [] s = s
store_all (op ∷ ops) s =
    store_all ops (put_value (op_key op) (effect op (get_plain sorted_tree s (op_key op))) s)

get-store_all :
    (ops : List BatchOp) (s : SortedStore) (k : Bytes)
    → get_plain sorted_tree (store_all ops s) k ≡ effects k ops (get_plain sorted_tree s k)
unfolding store_all effects
get-store_all [] s k = refl
get-store_all (op ∷ ops) s k =
    get-store_all ops (put_value (op_key op) (effect op (get_plain sorted_tree s (op_key op))) s) k
    ∙ ap (effects k ops) (
        get-put_value (op_key op) k (effect op (get_plain sorted_tree s (op_key op))) s
        ∙ at_key (op_key op) k (λ j. effect op (get_plain sorted_tree s j))
            (get_plain sorted_tree s k))

-- The values, and the histories that they are of.
record SortedDb : Type 0 where
  store : SortedStore
  history : Bytes → History
  shows : (k : Bytes) → Shows (history k) (get_plain sorted_tree store k)

after_all-Shows :
    (b : List BatchOp) (d : SortedDb) (k : Bytes)
    → Shows (mutate_all k b (d.history k)) (get_plain sorted_tree (store_all b d.store) k)
after_all-Shows b d k =
    subst (Shows (mutate_all k b (d.history k)))
      (shown-mutate_all k b (d.history k)
        ∙ ap (effects k b) (sym (Shows-shown (d.shows k)))
        ∙ sym (get-store_all b d.store k))
      (shown-Shows (mutate_all k b (d.history k)))

abbrev apply_all : List BatchOp → SortedDb → SortedDb
apply_all b d = record {
  store = store_all b d.store;
  history = λ k. mutate_all k b (d.history k);
  shows = after_all-Shows b d;
}

history-apply_all :
    (b : List BatchOp) (s t : SortedDb) (k : Bytes)
    → some (apply_all b s) ≡ some t
    → t.history k ≡ mutate_all k b (s.history k)
history-apply_all b s t k h =
    let same : t ≡ apply_all b s = cc in ap (λ (x : SortedDb). x.history k) same

abbrev sorted_pebble : PebbleStore
sorted_pebble = record {
  Db = SortedDb;
  Batch = List BatchOp;
  get = λ d k. get_plain sorted_tree d.store k;
  new_batch = [];
  batch_set = λ k v b. b ++ (set k v ∷ []);
  batch_delete = λ k b. b ++ (delete k ∷ []);
  batch_merge = λ k v b. b ++ (merge k v ∷ []);
  apply = λ b s. some (apply_all b s);
  log_data = λ s. true;
  pairs = λ start end d. raw_iter_legacy sorted_tree start end d.store;
  contents = λ b. b;
  contents-new_batch = refl;
  contents-batch_set = λ k v b. refl;
  contents-batch_delete = λ k b. refl;
  contents-batch_merge = λ k v b. refl;
  history = λ d k. d.history k;
  history-apply = history-apply_all;
  get-Shows = λ d k. d.shows k;
  lookup-pairs = λ start end d k. lookup-raw_iter_legacy sorted_tree d.store start end k;
  pairs-Distinct = λ start end d. raw_iter_legacy-Distinct sorted_tree start end d.store;
}

abbrev deposits : List BatchOp
deposits =
    set (b'a' ∷ []) (word 5)
    ∷ delete (b'b' ∷ [])
    ∷ merge (b'a' ∷ []) (word 2)
    ∷ merge (b'c' ∷ []) (word 3)
    ∷ []

empty-Shows : (k : Bytes) → Shows (none, []) (get_plain sorted_tree (new_plain sorted_tree) k)
unfolding get_plain sorted_tree new_plain
empty-Shows k = unmerged none

abbrev empty_db : SortedDb
empty_db = record { store = new_plain sorted_tree; history = λ k. (none, []); shows = empty-Shows }

paid : pebble_apply sorted_pebble deposits empty_db ≡ some (apply_all deposits empty_db)
unfolding pebble_apply fill_batch batch_op
paid = refl

get-pebble_apply_example :
    get_plain sorted_tree (apply_all deposits empty_db).store (b'a' ∷ [])
    ≡ effects (b'a' ∷ []) deposits (get_plain sorted_tree empty_db.store (b'a' ∷ []))
get-pebble_apply_example =
    get-pebble_apply sorted_pebble deposits empty_db (apply_all deposits empty_db) (b'a' ∷ []) paid

-- A store may have folded the operands from the newest to the oldest.
folded_back : Shows (some (word 5), word 1 ∷ word 2 ∷ []) (some (word 8))
unfolding merger_finish merger_merge merge_newer merge_older add64 uint put_uint
folded_back =
    merged_to (older (older (begun (operand (word 2))) (operand (word 1))) (operand (word 5)))

-- ===== src/Oshodi/Tests.antt =====
-- A bucket over the sorted list that refuses long values, and a batch that it takes in part.
use dpx.Base.{
  ℕ, Bytes, Bool, true, false, List, [], ◌∷◌, ◌++◌, Option, none, some, if◌then◌else◌, ◌≡◌, refl,
  ap, sym, ◌∙◌, ◌=ᵇ◌, leb, length, ◌<◌, lookup, arith,
}
use dpx.Codec.{put_uint, uint, add64, encode_int64, decode_int64}
use dpx.Engine.{BatchOp, set, merge, effects, is_reserved, applied_key}
use dpx.Engine.Order.{◌≺◌}
use dpx.Memory.{BTree, get_plain, new_plain}
use dpx.Memory.Scans.{IsSorted-Distinct}
use dpx.Memory.SortedTree.{sorted_tree, put, remove}
use dpx.Memory.SortedStore.{SortedStore, put_value, get-put_value}
use dpx.Tx.{Answer, got, not_found, or_missing}
use dpx.Oshodi.{
  Bucket, Oshodi, get_oshodi, oshodi_op, oshodi_ops, oshodi_apply, oshodi_snapshot_iter,
}
use dpx.Oshodi.Prefix.{oshodi_apply-prefix}

abbrev answer_of : Option Bytes → Answer Bytes
answer_of none = not_found
answer_of (some v) = got v

answer_of-if :
    (c : Bool) (x y : Option Bytes)
    → answer_of (if c then x else y) ≡ (if c then answer_of x else answer_of y)
answer_of-if true x y = refl
answer_of-if false x y = refl

or_missing-answer_of : (o : Option Bytes) → o ≡ or_missing (answer_of o)
or_missing-answer_of none = refl
or_missing-answer_of (some v) = refl

abbrev read : SortedStore → Bytes → Answer Bytes
read t k = answer_of (get_plain sorted_tree t k)

abbrev set_short : Bytes → Bytes → SortedStore → Option SortedStore
set_short k v s = if leb 9 (length v) then none else some (put_value k (some v) s)

some_of_if : (c : Bool) (x t : SortedStore) → (if c then none else some x) ≡ some t → x ≡ t
some_of_if true x t h = absurd (ground (arith, h))
some_of_if false x t h = cc

read-put_value :
    (k j : Bytes) (v : Option Bytes) (s t : SortedStore)
    → put_value k v s ≡ t
    → read t j ≡ (if k =ᵇ j then answer_of v else read s j)
read-put_value k j v s t h =
    ap (λ u. read u j) (sym h)
    ∙ ap answer_of (get-put_value k j v s)
    ∙ answer_of-if (k =ᵇ j) v (get_plain sorted_tree s j)

lookup-scan :
    (t : SortedStore) (k : Bytes) → lookup k (BTree.scan sorted_tree t.tree) ≡ or_missing (read t k)
unfolding get_plain
lookup-scan t k =
    BTree.lookup-scan sorted_tree t.tree k ∙ or_missing-answer_of (BTree.get sorted_tree t.tree k)

abbrev short_bucket : Bucket
short_bucket = record {
  Db = SortedStore;
  get = read;
  set_key = set_short;
  delete_key = λ k s. some (put_value k none s);
  flush = λ s. true;
  scan = λ s. BTree.scan sorted_tree s.tree;
  get-set_key = λ k v s t j h.
      read-put_value k j (some v) s t (some_of_if (leb 9 (length v)) (put_value k (some v) s) t h);
  get-delete_key = λ k s t j h. read-put_value k j none s t (some_of_if false _ t h);
  lookup-scan = lookup-scan;
  scan-Distinct = λ s.
      IsSorted-Distinct (BTree.scan sorted_tree s.tree) (BTree.scan-IsSorted sorted_tree s.tree);
}

program : Unit {0}
unfolding oshodi_apply oshodi_ops oshodi_op put_value get_plain new_plain sorted_tree put_uint uint
    add64 encode_int64 decode_int64 ◌=ᵇ◌ lookup put remove ◌≺◌ get_oshodi is_reserved
    oshodi_snapshot_iter
program = tt

abbrev word : ℕ → Bytes
word n = n ∷ 0 ∷ 0 ∷ 0 ∷ 0 ∷ 0 ∷ 0 ∷ 0 ∷ []

abbrev new_oshodi : Oshodi short_bucket
new_oshodi = record { bucket = new_plain sorted_tree; seq = 0 }

-- The third mutation has a value that the bucket refuses.
abbrev broken_batch : List BatchOp
broken_batch =
    set (b'a' ∷ []) (word 5)
    ∷ merge (b'a' ∷ []) (word 2)
    ∷ set (b'b' ∷ []) (0 ∷ word 1)
    ∷ set applied_key (word 9)
    ∷ []

half_paid :
    ((oshodi_apply short_bucket false broken_batch new_oshodi).0 ≡ false)
    × (get_oshodi short_bucket
          (oshodi_apply short_bucket false broken_batch new_oshodi).1
          (b'a' ∷ [])
        ≡ some (word 7))
unfolding program
half_paid = (refl, refl)

oshodi_apply-prefix_example :
    (done : List BatchOp) × (rest : List BatchOp) × (broken_batch ≡ done ++ rest)
    × ((k : Bytes)
        → get_oshodi short_bucket (oshodi_apply short_bucket false broken_batch new_oshodi).1 k
          ≡ effects k done (get_oshodi short_bucket new_oshodi k))
    × ((oshodi_apply short_bucket false broken_batch new_oshodi).0 ≡ true → rest ≡ [])
    × (false ≡ false
        → (oshodi_apply short_bucket false broken_batch new_oshodi).0 ≡ false
        → 0 < length rest)
oshodi_apply-prefix_example = oshodi_apply-prefix short_bucket false broken_batch new_oshodi

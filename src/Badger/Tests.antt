-- ===== src/Badger/Tests.antt =====
-- A store over the sorted list, which meets the documented laws, and runs on it.
use dpx.Base.{
  ℕ, Bytes, List, [], ◌∷◌, Option, none, some, if◌then◌else◌, ◌≡◌, refl, ap, sym, ◌∙◌, ◌=ᵇ◌, Bool,
  true, false, err, lookup, arith,
}
use dpx.Codec.{put_uint, uint, add64}
use dpx.Dump.{put_pairs, short_header, decode_dump as decode_memory_dump}
use dpx.Engine.{BatchOp, set, delete, merge, effects}
use dpx.Memory.{BTree, get_plain, new_plain}
use dpx.Engine.Order.{◌≺◌}
use dpx.Memory.SortedTree.{sorted_tree, put, remove}
use dpx.Memory.SortedStore.{SortedStore, put_value, get-put_value}
use dpx.Tx.{Answer, got, not_found}
use dpx.Tx.{or_missing}
use dpx.Badger.{
  BadgerStore, badger_op, badger_ops, badger_apply, get_badger, checkpoint, encode_badger_dump,
}
use dpx.Badger.Batches.{get-badger_apply}

abbrev answer_of : Option Bytes → Answer Bytes
answer_of none = not_found
answer_of (some v) = got v

answer_of-if :
    (c : Bool) (x y : Option Bytes)
    → answer_of (if c then x else y) ≡ (if c then answer_of x else answer_of y)
answer_of-if true x y = refl
answer_of-if false x y = refl

or_missing-answer_of : (o : Option Bytes) → o ≡ or_missing (answer_of o)
or_missing-answer_of none = refl
or_missing-answer_of (some v) = refl

abbrev read : SortedStore → Bytes → Answer Bytes
read t k = answer_of (get_plain sorted_tree t k)

read-put_value :
    (k j : Bytes) (v : Option Bytes) (t t' : SortedStore)
    → put_value k v t ≡ t'
    → read t' j ≡ (if k =ᵇ j then answer_of v else read t j)
read-put_value k j v t t' h =
    ap (λ u. read u j) (sym h)
    ∙ ap answer_of (get-put_value k j v t)
    ∙ answer_of-if (k =ᵇ j) v (get_plain sorted_tree t j)

get-set_some :
    (k v : Bytes) (t t' : SortedStore) (j : Bytes)
    → some (put_value k (some v) t) ≡ some t'
    → read t' j ≡ (if k =ᵇ j then got v else read t j)
get-set_some k v t t' j h = read-put_value k j (some v) t t' cc

get-delete_got :
    (k : Bytes) (t t' : SortedStore) (j : Bytes)
    → got (put_value k none t) ≡ got t'
    → read t' j ≡ (if k =ᵇ j then not_found else read t j)
get-delete_got k t t' j h = read-put_value k j none t t' cc

never_missing :
    (k : Bytes) (t : SortedStore) → got (put_value k none t) ≡ not_found → read t k ≡ not_found
never_missing k t h = absurd (ground (arith, h))

read-commit : (t d : SortedStore) (j : Bytes) → some t ≡ some d → read d j ≡ read t j
read-commit t d j h = let same : d ≡ t = cc in ap (λ u. read u j) same

lookup-scan :
    (t : SortedStore) (k : Bytes) → lookup k (BTree.scan sorted_tree t.tree) ≡ or_missing (read t k)
unfolding get_plain
lookup-scan t k =
    BTree.lookup-scan sorted_tree t.tree k ∙ or_missing-answer_of (BTree.get sorted_tree t.tree k)

abbrev sorted_badger : BadgerStore
sorted_badger = record {
  Db = SortedStore;
  Txn = SortedStore;
  new_transaction = λ d. d;
  get = read;
  set_entry = λ k v t. some (put_value k (some v) t);
  delete_entry = λ k t. got (put_value k none t);
  commit = λ t. some t;
  sync = λ d. true;
  all = λ t. BTree.scan sorted_tree t.tree;
  seek = λ start t. BTree.ascend sorted_tree t.tree start;
  get-set_entry = get-set_some;
  get-delete_entry = get-delete_got;
  get-deleted = never_missing;
  get-commit = read-commit;
  lookup-all = lookup-scan;
  all-IsSorted = λ t. BTree.scan-IsSorted sorted_tree t.tree;
  seek-eq = λ start t. BTree.ascend-eq sorted_tree t.tree start;
}

abbrev word : ℕ → Bytes
word n = n ∷ 0 ∷ 0 ∷ 0 ∷ 0 ∷ 0 ∷ 0 ∷ 0 ∷ []

abbrev deposits : List BatchOp
deposits =
    set (b'a' ∷ []) (word 5)
    ∷ delete (b'b' ∷ [])
    ∷ merge (b'a' ∷ []) (word 2)
    ∷ merge (b'c' ∷ []) (word 3)
    ∷ []

abbrev empty_db : SortedStore
empty_db = new_plain sorted_tree

program : Unit {0}
unfolding badger_apply badger_ops badger_op put_value get_plain new_plain sorted_tree put_uint uint
    add64 ◌=ᵇ◌ lookup put remove ◌≺◌ checkpoint encode_badger_dump put_pairs
program = tt

abbrev paid_db : SortedStore
paid_db = put_value (b'c' ∷ []) (some (word 3)) (
    put_value (b'a' ∷ []) (some (word 7))
      (put_value (b'b' ∷ []) none (put_value (b'a' ∷ []) (some (word 5)) empty_db)))

paid : badger_apply sorted_badger deposits empty_db ≡ some paid_db
unfolding program
paid = refl

get-badger_apply_example :
    get_badger sorted_badger paid_db (b'a' ∷ [])
    ≡ effects (b'a' ∷ []) deposits (get_badger sorted_badger empty_db (b'a' ∷ []))
get-badger_apply_example = get-badger_apply sorted_badger deposits empty_db paid_db (b'a' ∷ []) paid

-- The dump of the empty database, as the memory engine's decoder takes it.
empty_dump_refused : decode_memory_dump (encode_badger_dump []) ≡ err (short_header 8)
unfolding program decode_memory_dump
empty_dump_refused = refl

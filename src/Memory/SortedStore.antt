-- ===== src/Memory/SortedStore.antt =====
-- The plain engine over the sorted list as a store of which one value is changed at a time.
use dpx.Base.{Bytes, Option, none, some, ◌≡◌, if◌then◌else◌, ◌=ᵇ◌}
use dpx.Memory.{Plain, get_plain, BTree}
use dpx.Memory.SortedTree.{sorted_tree}

abbrev pub SortedStore : Type 0
SortedStore = Plain sorted_tree

unfoldable pub put_value : Bytes → Option Bytes → SortedStore → SortedStore
put_value k (some v) s = record s { tree = BTree.put sorted_tree s.tree k v }
put_value k none s = record s { tree = BTree.remove sorted_tree s.tree k }

pub get-put_value :
    (k j : Bytes) (v : Option Bytes) (s : SortedStore)
    → get_plain sorted_tree (put_value k v s) j ≡ (if k =ᵇ j then v else get_plain sorted_tree s j)
unfolding get_plain put_value
get-put_value k j (some v) s = BTree.get-put sorted_tree s.tree k j v
get-put_value k j none s = BTree.get-remove sorted_tree s.tree k j

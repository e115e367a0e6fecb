-- ===== src/Memory/Checkpoint.antt =====
-- `CreateCheckpoint` and `Open` of both layouts: what is in the file, and what comes back. The file
-- is its bytes, `none` where there is none.
use dpx.Base.{
  ℕ, zero, suc, ◌+◌, ◌<◌, ◌≤◌, Bytes, ◌≡◌, refl, sym, ap, ◌∙◌, All, length, Distinct, insert,
  insert-append, lookup, lookup_before, List, [], ◌∷◌, ◌++◌, append-nil, append_assoc, Option, none,
  some, if◌then◌else◌, arith, ltb, ◌==◌, ==_iff, ◌=ᵇ◌, =ᵇ_iff, Map, Result, ok, ◌>>=◌, Bool-cases,
  inl, inr, false,
}
use mathlib.Core.Path.{subst}
use dpx.Codec.{two64}
use dpx.Dump.{DumpError, encode_dump, decode_dump}
use dpx.Dump.Decoding.{PairFits, decode_dump-encode_dump}
use dpx.Memory.{
  BTree, Plain, Sharded, num_shards, shard_for, store_shard, max_applied, get_plain, get_sharded,
  current_sequence_sharded, new_sharded,
}
use dpx.Memory.Scans.{IsSorted-Distinct}

-- The callback of `Scan`: `allData[it.key] = it.value`.
unfoldable pub add_pairs : Map Bytes → List (Bytes × Bytes) → Map Bytes
add_pairs m [] = m
add_pairs m ((k, v) ∷ l) = add_pairs (insert k v m) l

module _ (btree : BTree) where
  unfoldable pub checkpoint_plain : Plain btree → Bytes
  checkpoint_plain e = encode_dump (add_pairs [] (btree.scan e.tree)) e.applied

  -- The loop over the shards from `i`, with `n` to go.
  unfoldable pub add_shards : ℕ → ℕ → Map Bytes → Sharded btree → Map Bytes
  add_shards zero i m e = m
  add_shards (suc n) i m e = add_shards n (i + 1) (add_pairs m (btree.scan (e i).tree)) e

  unfoldable pub checkpoint_sharded : Sharded btree → Bytes
  checkpoint_sharded e =
      encode_dump (add_shards num_shards 0 [] e) (current_sequence_sharded btree e)

  unfoldable pub load_plain : Map Bytes → btree.Tree → btree.Tree
  load_plain [] t = t
  load_plain ((k, v) ∷ m) t = load_plain m (btree.put t k v)

  unfoldable pub open_plain : Option Bytes → Plain btree → Result DumpError (Plain btree)
  open_plain none e = ok e
  open_plain (some b) e = do
    (loaded, applied) ← decode_dump b
    ok (record { tree = load_plain loaded btree.new; applied = applied })

  unfoldable pub load_sharded : Map Bytes → Sharded btree → Sharded btree
  unfolding store_shard
  load_sharded [] e = e
  load_sharded ((k, v) ∷ m) e =
      let s = shard_for k in
      load_sharded m (store_shard btree e s (record (e s) { tree = btree.put (e s).tree k v }))

  unfoldable pub open_sharded : Option Bytes → Sharded btree → Result DumpError (Sharded btree)
  open_sharded none e = ok e
  open_sharded (some b) e = do
    (loaded, applied) ← decode_dump b
    ok (λ i. record (load_sharded loaded e i) { applied = applied })

  -- Distinct pairs are added in their order.
  add_pairs-append : (m l : Map Bytes) → Distinct (m ++ l) → add_pairs m l ≡ m ++ l
  unfolding add_pairs
  add_pairs-append m [] d = sym (append-nil m)
  add_pairs-append m ((k, v) ∷ l) d =
      let new = insert-append k v m (lookup_before k v m l d) in
      let shift : (m ++ ((k, v) ∷ [])) ++ l ≡ m ++ ((k, v) ∷ l) = append_assoc m ((k, v) ∷ []) l in
      rw new
        (add_pairs-append (m ++ ((k, v) ∷ [])) l (subst (λ x. Distinct x) (sym shift) d) ∙ shift)

  abbrev or_else : Option Bytes → Option Bytes → Option Bytes
  or_else none old = old
  or_else (some v) old = some v

  put_first :
      (j k v : Bytes) (m : Map Bytes) (old : Option Bytes)
      → lookup j m ≡ none
      → or_else (lookup k m) (if j =ᵇ k then some v else old)
        ≡ or_else (if j =ᵇ k then some v else lookup k m) old
  put_first j k v m old new = elim (Bool-cases (j =ᵇ k)) [
    | inl same ↦ rw (same, subst (λ i. lookup i m ≡ none) ((=ᵇ_iff j k).0 same) new) refl
    | inr away ↦ rw away refl
  ]

  get-load_plain :
      (m : Map Bytes) (t : btree.Tree) (k : Bytes)
      → Distinct m
      → btree.get (load_plain m t) k ≡ or_else (lookup k m) (btree.get t k)
  unfolding load_plain lookup
  get-load_plain [] t k d = refl
  get-load_plain ((j, v) ∷ m) t k (new, d) =
      get-load_plain m (btree.put t j v) k d
      ∙ rw (btree.get-put t j k v) (put_first j k v m (btree.get t k) new)

  get-store_shard :
      (j k v : Bytes) (e : Sharded btree)
      → let s = shard_for j in
        get_sharded btree
          (store_shard btree e s (record (e s) { tree = btree.put (e s).tree j v }))
          k
        ≡ (if j =ᵇ k then some v else get_sharded btree e k)
  unfolding get_sharded store_shard
  get-store_shard j k v e =
      let s = shard_for j in
      elim (Bool-cases (s == shard_for k)) [
        | inl here ↦
            rw (get_sharded, store_shard, here, btree.get-put (e s).tree j k v)
              (ap (λ i. if j =ᵇ k then some v else btree.get (e i).tree k)
                ((==_iff s (shard_for k)).0 here))
        | inr there ↦
            let differ : (j =ᵇ k) ≡ false =
              ground (arith, =ᵇ_iff j k, ==_iff s (shard_for k), there) in
            rw (get_sharded, store_shard, there, differ) refl
      ]

  get-load_sharded :
      (m : Map Bytes) (e : Sharded btree) (k : Bytes)
      → Distinct m
      → get_sharded btree (load_sharded m e) k ≡ or_else (lookup k m) (get_sharded btree e k)
  unfolding load_sharded lookup
  get-load_sharded [] e k d = refl
  get-load_sharded ((j, v) ∷ m) e k (new, d) =
      let s = shard_for j in
      let e' = store_shard btree e s (record (e s) { tree = btree.put (e s).tree j v }) in
      get-load_sharded m e' k d
      ∙ rw (get-store_shard j k v e) (put_first j k v m (get_sharded btree e k) new)

  or_else-none : (o : Option Bytes) → or_else o none ≡ o
  or_else-none none = refl
  or_else-none (some v) = refl

  -- All shards have the same index.
  max_applied-same :
      (n i seq a : ℕ) (e : Sharded btree)
      → ((j : ℕ) → (e j).applied ≡ a)
      → seq ≤ a
      → max_applied btree (suc n) i seq e ≡ a
  unfolding max_applied
  max_applied-same zero i seq a e same low = ground (arith, same i, low)
  max_applied-same (suc n) i seq a e same low =
      max_applied-same n (i + 1) (if ltb seq (e i).applied then (e i).applied else seq) a e same
        (ground (arith, same i, low))

  -- What the dump of a plain engine must meet for its fields to hold it.
  abbrev pub Fits : Plain btree → Type 0
  Fits e =
      All PairFits (btree.scan e.tree) × (length (btree.scan e.tree) < two64) × (e.applied < two64)

  checkpoint-decodes :
      (e : Plain btree)
      → Fits e
      → decode_dump (checkpoint_plain e) ≡ ok (btree.scan e.tree, e.applied)
  unfolding checkpoint_plain
  checkpoint-decodes e (fits, count, index) =
      let d = IsSorted-Distinct (btree.scan e.tree) (btree.scan-IsSorted e.tree) in
      rw (add_pairs-append [] (btree.scan e.tree) d)
        (decode_dump-encode_dump (btree.scan e.tree) e.applied d fits count index)

  -- A checkpoint of the plain engine whose keys, values, number of keys and index fit their fields
  -- opens, in an engine of either layout, with the index and with every key's value, whatever the
  -- plain one held, and over an empty sharded one.
  pub open-checkpoint :
      (e old : Plain btree)
      → Fits e
      → ((e' : Plain btree) × (open_plain (some (checkpoint_plain e)) old ≡ ok e')
          × (e'.applied ≡ e.applied)
          × ((k : Bytes) → get_plain btree e' k ≡ get_plain btree e k))
        × ((e' : Sharded btree) × (open_sharded (some (checkpoint_plain e)) (new_sharded btree)
              ≡ ok e')
            × (current_sequence_sharded btree e' ≡ e.applied)
            × ((k : Bytes) → get_sharded btree e' k ≡ get_plain btree e k))
  unfolding open_plain open_sharded get_plain
  open-checkpoint e old fit =
      let pairs = btree.scan e.tree in
      let d = IsSorted-Distinct pairs (btree.scan-IsSorted e.tree) in
      let read = checkpoint-decodes e fit in
      let restored : Sharded btree =
        λ i. record (load_sharded pairs (new_sharded btree) i) { applied = e.applied } in
      (
        (
          record { tree = load_plain pairs btree.new; applied = e.applied },
          rw read refl,
          refl,
          λ k.
              get-load_plain pairs btree.new k d
              ∙ rw (btree.lookup-scan e.tree k, btree.get-new k)
                  (or_else-none (btree.get e.tree k)),
        ),
        (
          restored,
          rw read refl,
          unfold current_sequence_sharded in
              max_applied-same 127 0 0 e.applied restored (λ j. refl) (omega arith),
          λ k.
              unfold get_sharded new_sharded in
              get-load_sharded pairs (new_sharded btree) k d
              ∙ rw (btree.lookup-scan e.tree k, btree.get-new k)
                  (or_else-none (btree.get e.tree k)),
        ),
      )

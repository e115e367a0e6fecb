-- ===== src/Mvcc/Interleaved.antt =====
-- `ApplyShardDirect` in the three parts that run at different times when shards have writers of
-- their own: the counter's `Add`, the writes under the shard's lock, and the publication.
use dpx.Base.{
  ℕ, Bytes, ◌≡◌, refl, false, none, some, List, [], ◌∷◌, lookup, insert, =ᵇ_iff, ==_iff, ◌==◌,
  if◌then◌else◌, length,
}
use dpx.Codec.{add64}
use dpx.Engine.{BatchOp, set}
use dpx.Memory.{shard_for}
use dpx.Mvcc.{
  Mvcc, new_mvcc, apply_ops, apply_op, new_entry, entries_of, publish, apply_shard_direct,
  get_snapshot, snapshot_get, find_version, search_loop,
}

unfoldable pub reserve : ℕ → Mvcc → ℕ × Mvcc
reserve n e = let seq = add64 e.seq_counter n in (seq, record e { seq_counter = seq })

unfoldable pub install : ℕ → ℕ → List BatchOp → Mvcc → Mvcc
install seq shard_idx writes e = record e {
  shards = λ sh. if sh == shard_idx then apply_ops seq writes (e.shards sh) else e.shards sh;
}

unfoldable pub publish_commit : ℕ → Mvcc → Mvcc
publish_commit seq e = record e { last_committed = publish seq e.last_committed }

-- Without another writer in between, the three parts are the whole call.
pub direct-parts :
    (shard_idx : ℕ) (writes : List BatchOp) (e : Mvcc)
    → let r = reserve (length writes) e in
      apply_shard_direct shard_idx writes e
      ≡ (r.0, publish_commit r.0 (install r.0 shard_idx writes r.1))
unfolding apply_shard_direct reserve install publish_commit
direct-parts shard_idx writes e = refl

-- With one, a snapshot is not isolated: a writer takes a sequence for the key `k`, then another
-- writer completes a call on another shard, and a snapshot is taken. It finds no value for `k`;
-- once the first writer installs its value, the same snapshot finds that value.
pub late_write_seen :
    (k v j w : Bytes) (other : ℕ)
    → (shard_for k == other) ≡ false
    → let first = reserve 1 new_mvcc in
      let second = apply_shard_direct other (set j w ∷ []) first.1 in
      let seq = (get_snapshot second.1).0 in
      (snapshot_get second.1 seq k ≡ none)
      × (snapshot_get (install first.0 (shard_for k) (set k v ∷ []) second.1) seq k ≡ some v)
unfolding reserve install publish apply_shard_direct get_snapshot snapshot_get apply_ops apply_op
    new_entry entries_of lookup insert find_version search_loop add64
late_write_seen k v j w other apart = (
  rw apart refl,
  rw (apart, (==_iff (shard_for k) (shard_for k)).1 refl, (=ᵇ_iff k k).1 refl) refl,
)

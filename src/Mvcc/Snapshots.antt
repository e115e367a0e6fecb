-- ===== src/Mvcc/Snapshots.antt =====
-- Snapshot isolation and atomic visibility.
use dpx.Base.{
  ℕ, ◌+◌, ◌≤◌, ◌<◌, ◌≡◌, refl, sym, ap, ◌∙◌, Bytes, length, All, All-map, All-append, List, [], ◌∷◌,
  ◌++◌, append-nil, arith, Bool-cases, inl, inr, ◌==◌, lookup,
}
use dpx.Codec.{add64, two64}
use dpx.Engine.{BatchOp}
use dpx.Memory.{shard_for}
use dpx.Memory.Batches.{for_shard}
use dpx.Mvcc.{
  Entry, Mvcc, new_mvcc, entries_of, apply_ops, publish, apply_batch, live_value,
  apply_shard_direct, snapshot_get, get, get_snapshot, close_snapshot,
}
use dpx.Mvcc.Search.{IsSorted, visible, entry_at-find_version}
use dpx.Mvcc.Versions.{
  AtMost, Stamped, apply_ops-extends, visible-append, visible_all, IsSorted-append,
}

abbrev pub versions : Mvcc → ℕ → Bytes → List Entry
versions e sh k = entries_of (e.shards sh) k

-- Versions are in order and none is newer than the counter, and all that is counted is published.
pub record IsValid (e : Mvcc) : Type 0 where
  pub ordered : (sh : ℕ) (k : Bytes) → IsSorted (versions e sh k)
  pub bounded : (sh : ℕ) (k : Bytes) → AtMost e.seq_counter (versions e sh k)
  pub published : e.last_committed ≡ e.seq_counter

-- From `e` to `e'` versions with a later sequence were added, if any, and no more.
abbrev pub Grows : Mvcc → Mvcc → Type 0
Grows e e' =
    (sh : ℕ) (k : Bytes)
    → (added : List Entry) × (versions e' sh k ≡ versions e sh k ++ added)
      × All (λ (x : Entry). e.seq_counter < x.seq) added

-- What one commit at `seq` does.
pub record Commits (seq : ℕ) (e e' : Mvcc) : Type 0 where
  pub counter : e'.seq_counter ≡ seq
  pub published : e'.last_committed ≡ seq
  pub adds :
      (sh : ℕ) (k : Bytes)
      → (added : List Entry) × (versions e' sh k ≡ versions e sh k ++ added) × Stamped seq added

Commits-Grows : {seq : ℕ} {e e' : Mvcc} → e.seq_counter < seq → Commits seq e e' → Grows e e'
Commits-Grows {seq} h c sh k =
    let (added, eq, same) = c.adds sh k in (added, eq, All-map (λ x p. omega arith) added same)

Commits-IsValid :
    {seq : ℕ} {e e' : Mvcc} → e.seq_counter ≤ seq → Commits seq e e' → IsValid e → IsValid e'
Commits-IsValid {seq} {e} {e'} h c v = record {
  ordered = λ sh k.
      let (added, eq, same) = c.adds sh k in
      rw eq (
        IsSorted-append (versions e sh k) added seq (v.ordered sh k)
          (All-map (λ x p. omega arith) (versions e sh k) (v.bounded sh k)) same);
  bounded = λ sh k.
      let (added, eq, same) = c.adds sh k in
      rw (eq, c.counter)
        (All-append (λ (x : Entry). x.seq ≤ seq) (versions e sh k) added
          (All-map (λ x p. omega arith) (versions e sh k) (v.bounded sh k))
          (All-map (λ x p. omega arith) added same));
  published = omega (arith, c.published, c.counter);
}

-- The sequence counter does not wrap.
abbrev pub HasRoom : Mvcc → List BatchOp → Type 0
HasRoom e ops = e.seq_counter + length ops < two64

apply_batch-Commits :
    (op : BatchOp) (ops : List BatchOp) (e : Mvcc)
    → IsValid e
    → HasRoom e (op ∷ ops)
    → Commits (e.seq_counter + length (op ∷ ops)) e (apply_batch (op ∷ ops) e)
unfolding apply_batch add64 publish
apply_batch-Commits op ops e v room = record {
  counter = omega arith;
  published = ground (arith, v.published);
  adds = λ sh k.
      let seq = add64 e.seq_counter (length (op ∷ ops)) in
      let exact : seq ≡ e.seq_counter + length (op ∷ ops) = omega arith in
      let (added, eq, same) = apply_ops-extends seq (for_shard sh (op ∷ ops)) (e.shards sh) k in
      (added, eq, All-map (λ x p. p ∙ exact) added same);
}

direct-Commits :
    (sh : ℕ) (ops : List BatchOp) (e : Mvcc)
    → IsValid e
    → HasRoom e ops
    → Commits (e.seq_counter + length ops) e (apply_shard_direct sh ops e).1
unfolding apply_shard_direct add64 publish
direct-Commits sh ops e v room = record {
  counter = omega arith;
  published = ground (arith, v.published);
  adds = λ j k.
      let seq = add64 e.seq_counter (length ops) in
      let exact : seq ≡ e.seq_counter + length ops = omega arith in
      let (added, eq, same) = apply_ops-extends seq ops (e.shards j) k in
      elim (Bool-cases (j == sh)) [
        | inl here ↦ (added, rw here eq, All-map (λ x p. p ∙ exact) added same)
        | inr away ↦ ([], rw (away, append-nil (versions e j k)), tt)
      ];
}

-- The calls on an engine, but for compaction.
pub data Step : Mvcc → Mvcc → Type 0 where
  batch : (e : Mvcc) (ops : List BatchOp) → HasRoom e ops → Step e (apply_batch ops e)
  direct :
      (e : Mvcc) (sh : ℕ) (ops : List BatchOp)
      → HasRoom e ops
      → Step e (apply_shard_direct sh ops e).1
  snapshot : (e : Mvcc) → Step e (get_snapshot e).1
  close : (e : Mvcc) → Step e (close_snapshot e)

pub data Steps (e : Mvcc) : Mvcc → Type 0 where
  here : Steps e e
  next : {f g : Mvcc} → Steps e f → Step f g → Steps e g

none_added : (e : Mvcc) → Grows e e
none_added e sh k = ([], sym (append-nil (versions e sh k)), tt)

-- A commit of no operations at the current sequence adds nothing that shows.
direct_nothing : (e : Mvcc) (sh : ℕ) → Grows e (apply_shard_direct sh [] e).1
unfolding apply_shard_direct apply_ops
direct_nothing e sh j k = ([], ground (arith, append-nil (versions e j k)), tt)

new-IsValid : IsValid new_mvcc
unfolding entries_of lookup
new-IsValid = record { ordered = λ sh k. tt; bounded = λ sh k. tt; published = refl }

-- Every call keeps the invariant, and adds only versions newer than the counter that it found.
pub Step-IsValid : {e e' : Mvcc} → Step e e' → IsValid e → IsValid e' × Grows e e'
Step-IsValid (batch e [] room) v = unfold apply_batch in (v, none_added e)
Step-IsValid (batch e (op ∷ ops) room) v =
    let c = apply_batch-Commits op ops e v room in
    (Commits-IsValid (omega arith) c v, Commits-Grows (omega arith) c)
Step-IsValid (direct e sh [] room) v =
    (Commits-IsValid (omega arith) (direct-Commits sh [] e v room) v, direct_nothing e sh)
Step-IsValid (direct e sh (op ∷ ops) room) v =
    let c = direct-Commits sh (op ∷ ops) e v room in
    (Commits-IsValid (omega arith) c v, Commits-Grows (omega arith) c)
Step-IsValid (snapshot e) v =
    unfold get_snapshot in
    (record { ordered = v.ordered; bounded = v.bounded; published = v.published }, none_added e)
Step-IsValid (close e) v =
    unfold close_snapshot in
    (record { ordered = v.ordered; bounded = v.bounded; published = v.published }, none_added e)

snapshot_get-visible :
    (e : Mvcc) (seq : ℕ) (k : Bytes)
    → IsValid e
    → snapshot_get e seq k ≡ live_value (visible (versions e (shard_for k) k) seq)
unfolding snapshot_get
snapshot_get-visible e seq k v =
    ap live_value
      (entry_at-find_version (versions e (shard_for k) k) seq (v.ordered (shard_for k) k))

Step-snapshot_get :
    {e e' : Mvcc} (seq : ℕ) (k : Bytes)
    → Step e e'
    → IsValid e
    → seq ≤ e.seq_counter
    → snapshot_get e' seq k ≡ snapshot_get e seq k
Step-snapshot_get {e} {e'} seq k st v h =
    let (v', grows) = Step-IsValid st v in
    let (added, eq, newer) = grows (shard_for k) k in
    let old = versions e (shard_for k) k in
    snapshot_get-visible e' seq k v'
    ∙ ap (λ l. live_value (visible l seq)) eq
    ∙ ap live_value (visible-append old added seq (All-map (λ x p. omega arith) added newer))
    ∙ sym (snapshot_get-visible e seq k v)

counter_grows : {e e' : Mvcc} → Step e e' → IsValid e → e.seq_counter ≤ e'.seq_counter
unfolding apply_batch apply_shard_direct add64 get_snapshot close_snapshot
counter_grows (batch e [] room) v = omega arith
counter_grows (batch e (op ∷ ops) room) v = omega arith
counter_grows (direct e sh ops room) v = omega arith
counter_grows (snapshot e) v = omega arith
counter_grows (close e) v = omega arith

Steps-keep :
    {e e' : Mvcc} (seq : ℕ) (k : Bytes)
    → Steps e e'
    → IsValid e
    → seq ≤ e.seq_counter
    → IsValid e' × (e.seq_counter ≤ e'.seq_counter) × (snapshot_get e' seq k ≡ snapshot_get e seq k)
Steps-keep seq k here v h = (v, omega arith, refl)
Steps-keep seq k (next {f = f} steps st) v h =
    let (v', grown, same) = Steps-keep seq k steps v h in
    (
      (Step-IsValid st v').0,
      omega (arith, counter_grows st v'),
      Step-snapshot_get seq k st v' (omega arith) ∙ same,
    )

-- Every engine that calls reach from the new one is valid.
pub Steps-IsValid : {e : Mvcc} → Steps new_mvcc e → IsValid e
Steps-IsValid here = new-IsValid
Steps-IsValid (next steps st) = (Step-IsValid st (Steps-IsValid steps)).0

snapshot_shards :
    (e : Mvcc) (seq : ℕ) (k : Bytes) → snapshot_get (get_snapshot e).1 seq k ≡ snapshot_get e seq k
unfolding snapshot_get get_snapshot
snapshot_shards e seq k = refl

latest_snapshot : (e : Mvcc) (k : Bytes) → IsValid e → snapshot_get e e.last_committed k ≡ get e k
unfolding get
latest_snapshot e k v =
    let es = versions e (shard_for k) k in
    snapshot_get-visible e e.last_committed k v
    ∙ ap live_value (
        visible_all es e.last_committed
          (All-map (λ x p. omega (arith, v.published)) es (v.bounded (shard_for k) k)))

-- Snapshot isolation: on an engine that calls have made from a new one, a snapshot that is taken
-- reads, whatever calls follow, the value that it read at first, for each key. The calls are any
-- but compaction, one at a time, that do not overflow the sequence counter.
pub snapshot_isolation :
    {e e' : Mvcc} (k : Bytes)
    → Steps new_mvcc e
    → Steps (get_snapshot e).1 e'
    → snapshot_get e' (get_snapshot e).0 k ≡ snapshot_get e (get_snapshot e).0 k
unfolding get_snapshot
snapshot_isolation {e} k before after =
    let v = Steps-IsValid before in
    (Steps-keep e.last_committed k after (Step-IsValid (snapshot e) v).0
      (omega (arith, v.published))).2
    ∙ snapshot_shards e e.last_committed k

-- Atomic visibility: a batch shows whole or not at all. To a snapshot taken right after it, each key
-- has the value that `Get` returns; to one taken right before it, the value that it had before. The
-- engine is one that calls other than compaction have made from a new one, and neither they nor the
-- batch overflow the sequence counter.
pub atomic_visibility :
    {e : Mvcc} (ops : List BatchOp) (k : Bytes)
    → Steps new_mvcc e
    → HasRoom e ops
    → let e' = apply_batch ops e in
      (snapshot_get e' (get_snapshot e').0 k ≡ get e' k)
      × (snapshot_get e' (get_snapshot e).0 k ≡ get e k)
unfolding get_snapshot
atomic_visibility {e} ops k before room =
    let v = Steps-IsValid before in
    let st = batch e ops room in
    (
      latest_snapshot (apply_batch ops e) k (Step-IsValid st v).0,
      Step-snapshot_get e.last_committed k st v (omega (arith, v.published))
          ∙ latest_snapshot e k v,
    )

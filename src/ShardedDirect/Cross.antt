-- ===== src/ShardedDirect/Cross.antt =====
-- Proposals of different shards.
use dpx.Base.{
  ℕ, ◌≤◌, ◌<◌, ◌+◌, Bytes, false, ◌≡◌, refl, sym, ap, ◌∙◌, some, Bool-cases, Option-cases, inl, inr,
  arith, ◌==◌, ==_iff,
}
use dpx.Codec.{two64, add64}
use dpx.Engine.{StorageEngine, is_reserved}
use dpx.Proposal.{Proposal}
use dpx.Fsm.{detect_conflict, applied_ok, epoch_record, write_op}
use dpx.Direct.Reset.{set_key, effects-set_batch, set_batch}
use dpx.ShardedDirect.{
  ShardProposer, ShardedDirect, Commit, inline_conflict, record_epochs, inline_ops, commit_batch,
  apply_inline, put_shard, route,
}

-- The call of a shard leaves the others as they are.
pub apply_inline-other :
    {S : Type 0} (commit : Commit S) (i j : ℕ) (p : Proposal) (d : ShardedDirect S)
    → (j == i) ≡ false
    → (apply_inline commit i p d).1.shards j ≡ d.shards j
unfolding apply_inline
apply_inline-other commit i j p d away =
    let sp = d.shards i in
    elim (Bool-cases (inline_conflict sp.key_epoch p)) [
      | inl clash ↦ rw (clash, away) refl
      | inr clear ↦ elim (Option-cases (commit.run i (add64 sp.index 1) p.writes d.store)) [
        | inl e ↦ rw (clear, e, away) refl
        | inr (s, e) ↦ rw (clear, e, away) refl
      ]
    ]

-- A call moves an index on by at most one.
abbrev Counts : {S : Type 0} → ℕ → ShardedDirect S → ShardedDirect S → Type 0
Counts j d d' =
    ((d.shards j).index ≤ (d'.shards j).index) × ((d'.shards j).index ≤ (d.shards j).index + 1)

put_shard-Counts :
    {S : Type 0} (i j : ℕ) (sp : ShardProposer) (d : ShardedDirect S)
    → sp.index ≡ (d.shards i).index + 1
    → Counts j d (put_shard i sp d)
put_shard-Counts i j sp d step = elim (Bool-cases (j == i)) [
  | inl here ↦
      let same = ap (λ i'. (d.shards i').index) ((==_iff j i).0 here) in
      rw here (omega (arith, same, step), omega (arith, same, step))
  | inr there ↦ rw there (omega arith, omega arith)
]

pub apply_inline-index :
    {S : Type 0} (commit : Commit S) (i j : ℕ) (p : Proposal) (d : ShardedDirect S)
    → (d.shards i).index + 1 < two64
    → Counts j d (apply_inline commit i p d).1
unfolding apply_inline
apply_inline-index commit i j p d room =
    let sp = d.shards i in
    let step : add64 sp.index 1 ≡ sp.index + 1 = unfold add64 in omega arith in
    let counted : ShardProposer = record sp { index = add64 sp.index 1 } in
    let staged : ShardProposer = record counted {
      key_epoch = record_epochs (add64 sp.index 1) p.writes sp.key_epoch;
    } in
    elim (Bool-cases (inline_conflict sp.key_epoch p)) [
      | inl clash ↦ rw clash (put_shard-Counts i j counted d step)
      | inr clear ↦ elim (Option-cases (commit.run i (add64 sp.index 1) p.writes d.store)) [
        | inl e ↦ rw (clear, e) (put_shard-Counts i j staged d step)
        | inr ((seq, s), e) ↦
            rw (clear, e) (put_shard-Counts i j (record staged { applied = seq }) d step)
      ]
    ]

-- Whether a proposal conflicts is up to its shard's epochs.
blocked :
    {S : Type 0} (commit : Commit S) (i : ℕ) (p : Proposal) (d : ShardedDirect S)
    → (apply_inline commit i p d).0.conflict ≡ inline_conflict (d.shards i).key_epoch p
unfolding apply_inline
blocked commit i p d =
    let sp = d.shards i in
    elim (Bool-cases (inline_conflict sp.key_epoch p)) [
      | inl clash ↦ rw clash refl
      | inr clear ↦ elim (Option-cases (commit.run i (add64 sp.index 1) p.writes d.store)) [
        | inl e ↦ rw (clear, e) refl
        | inr (s, e) ↦ rw (clear, e) refl
      ]
    ]

module _ (eng : StorageEngine) where
  set_inline :
      (i : ℕ) (k v : Bytes) (d : ShardedDirect eng.State)
      → is_reserved k ≡ false
      → let r = apply_inline (commit_batch eng) i (set_key k v) d in
        r.0 ≡ applied_ok → eng.get r.1.store k ≡ some v
  unfolding apply_inline commit_batch inline_conflict inline_ops write_op epoch_record
      detect_conflict
  set_inline i k v d user done =
      let idx = add64 (d.shards i).index 1 in
      elim (Option-cases (eng.apply_batch (set_batch idx k v) d.store)) [
        | inl e ↦ absurd (ground (arith, e, done))
        | inr (s, e) ↦ rw e (
            eng.get-apply_batch (set_batch idx k v) d.store s k e
            ∙ effects-set_batch idx k v (eng.get d.store k) user)
      ]

  -- A conflict across shards is missed: after a proposal that sets a user's key, any proposal of
  -- another shard conflicts exactly if it did before, whatever it has read, although the key's value
  -- is a new one.
  pub cross_shard_missed :
      (p : Proposal) (k v : Bytes) (d : ShardedDirect eng.State)
      → is_reserved k ≡ false
      → (route p == route (set_key k v)) ≡ false
      → let i = route (set_key k v) in
        let r = apply_inline (commit_batch eng) i (set_key k v) d in
        r.0 ≡ applied_ok
        → ((apply_inline (commit_batch eng) (route p) p r.1).0.conflict
            ≡ (apply_inline (commit_batch eng) (route p) p d).0.conflict)
          × (eng.get r.1.store k ≡ some v)
  cross_shard_missed p k v d user away done =
      let i = route (set_key k v) in
      let d' = (apply_inline (commit_batch eng) i (set_key k v) d).1 in
      (
        blocked (commit_batch eng) (route p) p d'
            ∙ ap (λ (sp : ShardProposer). inline_conflict sp.key_epoch p)
                (apply_inline-other (commit_batch eng) i (route p) (set_key k v) d away)
            ∙ sym (blocked (commit_batch eng) (route p) p d),
        set_inline i k v d user done,
      )

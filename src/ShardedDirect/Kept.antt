-- ===== src/ShardedDirect/Kept.antt =====
-- The conflict check of a shard, for the keys that only its own proposals write.
use dpx.Base.{
  ℕ, ◌≤◌, ◌<◌, ◌+◌, Bytes, true, false, leb, ◌≡◌, ◌⊎◌, refl, sym, ap, ◌∙◌, All, length, List, [],
  ◌∷◌, ◌++◌, Option, Bool-cases, Option-cases, inl, inr, arith, insert, ◌==◌, ==_iff, ◌=ᵇ◌,
}
use mathlib.Core.Path.{subst}
use dpx.Codec.{EpochRecord, add64, two64, encode_uint64}
use dpx.Engine.Failure.{get-failed_batch_same}
use dpx.Engine.{StorageEngine, set, effects, is_reserved, applied_key, version_key}
use dpx.Engine.Reserved.{reserved_apart, version_key_reserved, applied_key_reserved}
use dpx.Proposal.{ReadEntry, WriteEntry, Proposal}
use dpx.Direct.{max_stack_shadow}
use dpx.Fsm.{Epochs, detect_conflict, epoch_of, write_op, epoch_record}
use dpx.Fsm.Conflict.{Passes, detect_conflict_iff}
use dpx.Fsm.Staging.{epoch_of-insert, write_op-op_key}
use dpx.ShardedDirect.{
  ShardProposer, ShardedDirect, inline_conflict, record_epochs, inline_ops, commit_batch,
  apply_inline, apply_all, route,
}
use dpx.ShardedDirect.Cross.{apply_inline-other, apply_inline-index}

-- No write of the key.
abbrev pub Avoids : Bytes → List WriteEntry → Type 0
Avoids k ws = All (λ (w : WriteEntry). (w.key =ᵇ k) ≡ false) ws

inline_ops-Avoids :
    (idx : ℕ) (k : Bytes) (ws : List WriteEntry) (old : Option Bytes)
    → is_reserved k ≡ false
    → Avoids k ws
    → effects k (inline_ops idx ws ++ (set applied_key (encode_uint64 idx) ∷ [])) old ≡ old
unfolding inline_ops effects
inline_ops-Avoids idx k [] old user aways =
    rw (reserved_apart applied_key k applied_key_reserved user) refl
inline_ops-Avoids idx k (w ∷ ws) old user (away, aways) =
    let apart = reserved_apart (version_key w.key) k (version_key_reserved w.key) user in
    let rest = inline_ops-Avoids idx k ws old user aways in
    elim (Option-cases (write_op w)) [
      | inl none_known ↦ rw (none_known, apart) rest
      | inr (op, known) ↦ rw (known, write_op-op_key w op known, away, apart) rest
    ]

-- The key gets a record above `e`, or is not written.
record_epochs-hits :
    (e idx : ℕ) (k : Bytes) (ws : List WriteEntry) (m : Epochs)
    → e < idx
    → (e < (epoch_of (record_epochs idx ws m) k).epoch)
      ⊎ ((epoch_of (record_epochs idx ws m) k ≡ epoch_of m k) × Avoids k ws)
unfolding record_epochs
record_epochs-hits e idx k [] m above = inr (refl, tt)
record_epochs-hits e idx k (w ∷ ws) m above =
    let er = epoch_record idx w in
    elim (record_epochs-hits e idx k ws (insert w.key er m) above) [
      | inl hit ↦ inl hit
      | inr (same, aways) ↦ elim (Bool-cases (w.key =ᵇ k)) [
        | inl here ↦
            let new : epoch_of (record_epochs idx ws (insert w.key er m)) k ≡ er =
              same ∙ rw (epoch_of-insert w.key k er m, here) refl in
            inl (rw new (unfold epoch_record in above))
        | inr away ↦ inr (same ∙ rw (epoch_of-insert w.key k er m, away) refl, (away, aways))
      ]
    ]

-- The proposals of other shards do not write the key.
abbrev pub IsOurs : ℕ → Bytes → Proposal → Type 0
IsOurs i k p = (route p ≡ i) ⊎ Avoids k p.writes

module _ (eng : StorageEngine) (i e : ℕ) (k : Bytes) (user : is_reserved k ≡ false) where
  -- From one state to a later one, the shard has a record of the key above `e`, or the record and
  -- the value are the same.
  abbrev Later : ShardedDirect eng.State → ShardedDirect eng.State → Type 0
  Later d d' =
      (e < (epoch_of (d'.shards i).key_epoch k).epoch)
      ⊎ ((epoch_of (d'.shards i).key_epoch k ≡ epoch_of (d.shards i).key_epoch k)
          × (eng.get d'.store k ≡ eng.get d.store k))

  -- What a call does to the engine, when it does not write the key.
  apply_inline-Avoids :
      (j : ℕ) (p : Proposal) (d : ShardedDirect eng.State)
      → Avoids k p.writes
      → eng.get (apply_inline (commit_batch eng) j p d).1.store k ≡ eng.get d.store k
  unfolding apply_inline commit_batch
  apply_inline-Avoids j p d aways =
      let idx = add64 (d.shards j).index 1 in
      let ops = inline_ops idx p.writes ++ (set applied_key (encode_uint64 idx) ∷ []) in
      elim (Bool-cases (inline_conflict (d.shards j).key_epoch p)) [
        | inl clash ↦ rw clash refl
        | inr clear ↦ elim (Option-cases (eng.apply_batch ops d.store)) [
          | inl failed ↦
              rw (clear, failed)
                (get-failed_batch_same eng ops d.store k failed
                  (λ old. inline_ops-Avoids idx k p.writes old user aways))
          | inr (s, done) ↦
              rw (clear, done)
                (eng.get-apply_batch ops d.store s k done
                  ∙ inline_ops-Avoids idx k p.writes (eng.get d.store k) user aways)
        ]
      ]

  apply_inline-key_epoch :
      (p : Proposal) (d : ShardedDirect eng.State)
      → let m = ((apply_inline (commit_batch eng) i p d).1.shards i).key_epoch in
        (m ≡ (d.shards i).key_epoch × ((apply_inline (commit_batch eng) i p d).1.store ≡ d.store))
        ⊎ (m ≡ record_epochs (add64 (d.shards i).index 1) p.writes (d.shards i).key_epoch)
  unfolding apply_inline commit_batch
  apply_inline-key_epoch p d =
      let self = (==_iff i i).1 refl in
      let idx = add64 (d.shards i).index 1 in
      let ops = inline_ops idx p.writes ++ (set applied_key (encode_uint64 idx) ∷ []) in
      elim (Bool-cases (inline_conflict (d.shards i).key_epoch p)) [
        | inl clash ↦ inl (rw (clash, self) (refl, refl))
        | inr clear ↦ elim (Option-cases (eng.apply_batch ops d.store)) [
          | inl failed ↦ inr (rw (clear, failed, self) refl)
          | inr (s, done) ↦ inr (rw (clear, done, self) refl)
        ]
      ]

  own-Later :
      (p : Proposal) (d : ShardedDirect eng.State)
      → e ≤ (d.shards i).index
      → (d.shards i).index + 1 < two64
      → Later d (apply_inline (commit_batch eng) i p d).1
  own-Later p d low room =
      let idx = add64 (d.shards i).index 1 in
      let above : e < idx = unfold add64 in omega arith in
      let m = (d.shards i).key_epoch in
      elim (apply_inline-key_epoch p d) [
        | inl (same, store) ↦ inr (ap (λ m'. epoch_of m' k) same, ap (λ s. eng.get s k) store)
        | inr new ↦ elim (record_epochs-hits e idx k p.writes m above) [
          | inl hit ↦ inl (rw new hit)
          | inr (kept, aways) ↦
              inr (ap (λ m'. epoch_of m' k) new ∙ kept, apply_inline-Avoids i p d aways)
        ]
      ]

  apply_inline-Later :
      (p : Proposal) (d : ShardedDirect eng.State)
      → e ≤ (d.shards i).index
      → (d.shards i).index + 1 < two64
      → IsOurs i k p
      → Later d (apply_inline (commit_batch eng) (route p) p d).1
  apply_inline-Later p d low room ours = elim (Bool-cases (i == route p)) [
    | inl here ↦
        subst (λ j. Later d (apply_inline (commit_batch eng) j p d).1) ((==_iff i (route p)).0 here)
          (own-Later p d low room)
    | inr there ↦
        let aways : Avoids k p.writes = elim ours [
          | inl routed ↦ absurd (ground (arith, (==_iff i (route p)).1 (sym routed), there))
          | inr aways ↦ aways
        ] in
        inr (
          ap (λ (sp : ShardProposer). epoch_of sp.key_epoch k)
              (apply_inline-other (commit_batch eng) (route p) i p d there),
          apply_inline-Avoids (route p) p d aways,
        )
  ]

  Later-trans : (a b c : ShardedDirect eng.State) → Later a b → Later b c → Later a c
  Later-trans a b c ab (inl hit) = inl hit
  Later-trans a b c (inl hit) (inr (same, keep)) =
      inl (subst (λ n. e < n) (sym (ap (λ (er : EpochRecord). er.epoch) same)) hit)
  Later-trans a b c (inr (same, keep)) (inr (same', keep')) = inr (same' ∙ same, keep' ∙ keep)

  apply_all-Later :
      (ps : List Proposal) (d : ShardedDirect eng.State)
      → e ≤ (d.shards i).index
      → ((j : ℕ) → (d.shards j).index + length ps < two64)
      → All (IsOurs i k) ps
      → Later d (apply_all (commit_batch eng) ps d)
  unfolding apply_all
  apply_all-Later [] d low room ours = inr (refl, refl)
  apply_all-Later (p ∷ ps) d low room (own, ours) =
      let d' = (apply_inline (commit_batch eng) (route p) p d).1 in
      let here : (d.shards (route p)).index + 1 < two64 = omega (arith, room (route p)) in
      let counts = λ (j : ℕ). apply_inline-index (commit_batch eng) (route p) j p d here in
      Later-trans d d' (apply_all (commit_batch eng) ps d')
        (apply_inline-Later p d low (omega (arith, room i)) own)
        (apply_all-Later ps d' (omega (arith, low, (counts i).0))
          (λ j. omega (arith, room j, (counts j).1)) ours)

module _ (eng : StorageEngine) where
  -- Within a shard, on an engine with batches: take a read of a
  -- user's key, no debit's, whose epoch is not above the index of the shard `i`, and any proposals,
  -- of which those of other shards do not write the key, while no index overflows. If the read then
  -- passes, the key holds the value that it held before those proposals.
  shard_keeps_read :
      (i : ℕ) (ps : List Proposal) (d : ShardedDirect eng.State) (re : ReadEntry)
      → is_reserved re.key ≡ false
      → re.is_debit ≡ false
      → re.epoch ≤ (d.shards i).index
      → ((j : ℕ) → (d.shards j).index + length ps < two64)
      → All (IsOurs i re.key) ps
      → let d' = apply_all (commit_batch eng) ps d in
        Passes (d'.shards i).key_epoch [] re → eng.get d'.store re.key ≡ eng.get d.store re.key
  shard_keeps_read i ps d re user plain low room ours (passed, _) =
      elim (apply_all-Later eng i re.epoch re.key user ps d low room ours) [
        | inr (same, keep) ↦ keep
        | inl late ↦ elim passed [
          | inl early ↦ absurd (omega (arith, late, early))
          | inr (_, debit) ↦ cc
        ]
      ]

  -- A read of a user's key that is no debit's, with an epoch that is not above the index of the shard,
  -- and the proposals of other shards do not write the key.
  abbrev pub IsOwnRead : ℕ → List Proposal → ShardedDirect eng.State → ReadEntry → Type 0
  IsOwnRead i ps d re =
      (is_reserved re.key ≡ false)
      × (re.is_debit ≡ false)
      × (re.epoch ≤ (d.shards i).index)
      × All (IsOurs i re.key) ps

  keeps_reads :
      (i : ℕ) (ps : List Proposal) (d : ShardedDirect eng.State) (rs : List ReadEntry)
      → ((j : ℕ) → (d.shards j).index + length ps < two64)
      → All (IsOwnRead i ps d) rs
      → let d' = apply_all (commit_batch eng) ps d in
        All (Passes (d'.shards i).key_epoch []) rs
        → All (λ re. eng.get d'.store re.key ≡ eng.get d.store re.key) rs
  keeps_reads i ps d [] room owns passes = tt
  keeps_reads i ps d (re ∷ rs) room ((user, plain, low, ours), owns) (pass, passes) = (
    shard_keeps_read i ps d re user plain low room ours pass,
    keeps_reads i ps d rs room owns passes,
  )

  -- Optimistic concurrency control within a shard, on an engine with batches: take a proposal of at
  -- most 64 reads, all of users' keys, none of them a debit's and none with an epoch above the index
  -- of the shard `i`, and let any proposals be applied, of which those of other shards do not write
  -- those keys, while no index overflows. If the proposal then passes the check of the shard, each
  -- key that it has read holds the value that it held before those proposals.
  pub shard_keeps_passed_reads :
      (i : ℕ) (ps : List Proposal) (d : ShardedDirect eng.State) (p : Proposal)
      → leb (length p.read_set) max_stack_shadow ≡ true
      → ((j : ℕ) → (d.shards j).index + length ps < two64)
      → All (IsOwnRead i ps d) p.read_set
      → let d' = apply_all (commit_batch eng) ps d in
        inline_conflict (d'.shards i).key_epoch p ≡ false
        → All (λ re. eng.get d'.store re.key ≡ eng.get d.store re.key) p.read_set
  unfolding inline_conflict
  shard_keeps_passed_reads i ps d p few room owns clear =
      let m = ((apply_all (commit_batch eng) ps d).shards i).key_epoch in
      let checked : detect_conflict m [] p.read_set ≡ false = ground (arith, few, clear) in
      keeps_reads i ps d p.read_set room owns ((detect_conflict_iff m [] p.read_set).0 checked)

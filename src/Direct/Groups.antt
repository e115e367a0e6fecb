-- ===== src/Direct/Groups.antt =====
-- What a group does to the record and the value of a key.
use dpx.Base.{
  ℕ, ◌+◌, ◌≤◌, ◌<◌, Bytes, false, ◌≡◌, ◌⊎◌, refl, ap, ◌∙◌, List, [], ◌∷◌, ◌++◌, Option, none,
  length, leb, Option-cases, Bool-cases, inl, inr, arith, ◌=ᵇ◌,
}
use dpx.Codec.{add64, two64, EpochRecord, encode_epoch_record, encode_uint64}
use dpx.Engine.Failure.{get-failed_batch_same}
use dpx.Engine.{BatchOp, StorageEngine, set, effects, is_reserved, applied_key, version_key}
use dpx.Engine.Effect.{effects-append, effects_other}
use dpx.Engine.Reserved.{reserved_apart, version_key_reserved, applied_key_reserved}
use dpx.Proposal.{ReadEntry, WriteEntry, Proposal}
use dpx.Fsm.{
  ApplyResult, Epochs, detect_conflict, epoch_of, write_op, epoch_record, Staged, stage, Fsm,
}
use dpx.Fsm.Conflict.{Passes}
use dpx.Fsm.Staging.{epoch_of-insert, stage-Touches, write_op-op_key}
use dpx.Direct.{
  Group, max_stack_shadow, known_op, stack_write, stack_writes, close_entry, stack_entry, map_entry,
  entries, group_entries, Direct, new_group, commit_group, finish_group, apply_batch_direct,
}

module _ (e : ℕ) (k : Bytes) (user : is_reserved k ≡ false) where
  -- From one group to a later one, the key gets a record above `e`, or keeps its record and what the
  -- batch makes of its value.
  abbrev Later : Group → Group → Type 0
  Later g g' =
      (e < (epoch_of g'.key_epoch k).epoch)
      ⊎ ((epoch_of g'.key_epoch k ≡ epoch_of g.key_epoch k)
          × ((old : Option Bytes) → effects k g'.batch old ≡ effects k g.batch old))

  Later-trans : (a b c : Group) → Later a b → Later b c → Later a c
  Later-trans a b c ab (inl hit) = inl hit
  Later-trans a b c (inl hit) (inr (same, keep)) =
      inl (omega (arith, ap (λ (er : EpochRecord). er.epoch) same))
  Later-trans a b c (inr (same, keep)) (inr (same', keep')) =
      inr (same' ∙ same, λ old. keep' old ∙ keep old)

  abbrev written : ℕ → WriteEntry → List BatchOp
  written idx w =
      known_op (write_op w)
      ++ (set (version_key w.key) (encode_epoch_record (epoch_record idx w)) ∷ [])

  effects-written :
      (idx : ℕ) (w : WriteEntry) (old : Option Bytes)
      → (w.key =ᵇ k) ≡ false
      → effects k (written idx w) old ≡ old
  unfolding effects
  effects-written idx w old away =
      let apart = reserved_apart (version_key w.key) k (version_key_reserved w.key) user in
      elim (Option-cases (write_op w)) [
        | inl none_known ↦ rw (none_known, apart) refl
        | inr (op, known) ↦ rw (known, write_op-op_key w op known, away, apart) refl
      ]

  stack_write-Later :
      (idx : ℕ) (w : WriteEntry) (g : Group) → e < idx → Later g (stack_write idx w g)
  unfolding stack_write
  stack_write-Later idx w g above = elim (Bool-cases (w.key =ᵇ k)) [
    | inl here ↦ inl (
        rw (epoch_of-insert w.key k (epoch_record idx w) g.key_epoch, here)
          (unfold epoch_record in above))
    | inr away ↦ inr (
      rw (epoch_of-insert w.key k (epoch_record idx w) g.key_epoch, away) refl,
      λ old.
          effects-append k g.batch (written idx w) old
          ∙ effects-written idx w (effects k g.batch old) away,
    )
  ]

  stack_writes-Later :
      (idx : ℕ) (ws : List WriteEntry) (g : Group) → e < idx → Later g (stack_writes idx ws g)
  unfolding stack_writes
  stack_writes-Later idx [] g above = inr (refl, λ old. refl)
  stack_writes-Later idx (w ∷ ws) g above =
      Later-trans g (stack_write idx w g) (stack_writes idx ws (stack_write idx w g))
        (stack_write-Later idx w g above) (stack_writes-Later idx ws (stack_write idx w g) above)

  close_entry-Later : (idx : ℕ) (g : Group) → Later g (close_entry idx g)
  unfolding close_entry
  close_entry-Later idx g =
      let last : List BatchOp = set applied_key (encode_uint64 idx) ∷ [] in
      inr (
        refl,
        λ old.
            effects-append k g.batch last old
            ∙ effects_other k last (effects k g.batch old)
                (reserved_apart applied_key k applied_key_reserved user, tt),
      )

  -- An entry counts one index further, and is later.
  abbrev Advances : Group → Group → Type 0
  Advances g g' = (g'.index ≡ g.index + 1) × Later g g'

  stack_writes-index :
      (idx : ℕ) (ws : List WriteEntry) (g : Group) → (stack_writes idx ws g).index ≡ g.index
  unfolding stack_writes stack_write
  stack_writes-index idx [] g = refl
  stack_writes-index idx (w ∷ ws) g = stack_writes-index idx ws (stack_write idx w g)

  stack_entry-Advances :
      (p : Proposal) (g : Group)
      → e ≤ g.index
      → g.index + 1 < two64
      → Advances g (stack_entry p g).1
  unfolding stack_entry
  stack_entry-Advances p g low room =
      let idx = add64 g.index 1 in
      let count : idx ≡ g.index + 1 = unfold add64 in omega arith in
      let g' : Group = record g { index = idx } in
      let g'' = stack_writes idx p.writes g' in
      elim (Bool-cases (detect_conflict g.key_epoch g.shadow p.read_set)) [
        | inl clash ↦ rw clash (count, inr (refl, λ old. refl))
        | inr clear ↦ rw clear (
          unfold close_entry in stack_writes-index idx p.writes g' ∙ count,
          Later-trans g g'' (close_entry idx g'')
              (stack_writes-Later idx p.writes g' (omega (arith, count)))
              (close_entry-Later idx g''),
        )
      ]

  map_entry-Advances :
      (p : Proposal) (g : Group) → e ≤ g.index → g.index + 1 < two64 → Advances g (map_entry p g).1
  unfolding map_entry
  map_entry-Advances p g low room =
      let idx = add64 g.index 1 in
      let count : idx ≡ g.index + 1 = unfold add64 in omega arith in
      let begun : Staged = record {
        batch = g.batch;
        key_epoch = g.key_epoch;
        shadow = g.shadow;
        unknown = none;
      } in
      let st = stage idx p.writes begun in
      let staged : Group = record g {
        index = idx;
        batch = st.batch;
        key_epoch = st.key_epoch;
        shadow = st.shadow;
      } in
      let moved : Later g staged = elim (stage-Touches idx k user p.writes begun) [
        | inl hit ↦ inl (omega (arith, hit, count))
        | inr kept ↦ inr kept
      ] in
      elim (Bool-cases (detect_conflict g.key_epoch g.shadow p.read_set)) [
        | inl clash ↦ rw clash (count, inr (refl, λ old. refl))
        | inr clear ↦ elim (Option-cases st.unknown) [
          | inr (op, bad) ↦ rw (clear, bad) (count, moved)
          | inl known ↦
              rw (clear, known)
                (
                  unfold close_entry in count,
                  Later-trans g staged (close_entry idx staged) moved
                      (close_entry-Later idx staged),
                )
        ]
      ]

  abbrev AdvancesAlways : (Proposal → Group → ApplyResult × Group) → Type 0
  AdvancesAlways one =
      (p : Proposal) (g : Group) → e ≤ g.index → g.index + 1 < two64 → Advances g (one p g).1

  entries-Later :
      (one : Proposal → Group → ApplyResult × Group) (ps : List Proposal) (g : Group)
      → AdvancesAlways one
      → e ≤ g.index
      → g.index + length ps < two64
      → Later g (entries one ps g).1
  unfolding entries
  entries-Later one [] g step low room = inr (refl, λ old. refl)
  entries-Later one (p ∷ ps) g step low room =
      let g' = (one p g).1 in
      let (count, first) = step p g low (omega arith) in
      Later-trans g g' (entries one ps g').1 first
        (entries-Later one ps g' step (omega (arith, count)) (omega (arith, count)))

  group_entries-Later :
      (ps : List Proposal) (g : Group)
      → e ≤ g.index
      → g.index + length ps < two64
      → Later g (group_entries ps g).1
  unfolding group_entries
  group_entries-Later ps g low room = elim (Bool-cases (leb (length ps) max_stack_shadow)) [
    | inl small ↦
        rw small (entries-Later stack_entry ps g (λ p g. stack_entry-Advances p g) low room)
    | inr large ↦ rw large (entries-Later map_entry ps g (λ p g. map_entry-Advances p g) low room)
  ]

module _ (eng : StorageEngine) where
  finish_group-key_epoch :
      (ps : List Proposal) (results : List ApplyResult) (g : Group) (f : Fsm eng)
      → (finish_group eng ps results g f).1.fsm.key_epoch ≡ g.key_epoch
  unfolding finish_group commit_group
  finish_group-key_epoch ps results g f = ground arith

  finish_group-get :
      (ps : List Proposal) (results : List ApplyResult) (g : Group) (f : Fsm eng) (k : Bytes)
      → ((old : Option Bytes) → effects k g.batch old ≡ old)
      → let d = (finish_group eng ps results g f).1 in eng.get d.fsm.store k ≡ eng.get f.store k
  unfolding finish_group commit_group
  finish_group-get ps results g f k keep = elim (Bool-cases g.has_write) [
    | inr idle ↦ rw (idle, commit_group) refl
    | inl busy ↦ elim (Option-cases (eng.apply_batch g.batch f.store)) [
      | inl lost ↦
          rw (busy, lost, commit_group) (get-failed_batch_same eng g.batch f.store k lost keep)
      | inr (s, done) ↦
          rw (busy, done, commit_group)
            (eng.get-apply_batch g.batch f.store s k done ∙ keep (eng.get f.store k))
    ]
  ]

  -- Optimistic concurrency control without Raft: let a group of proposals of any size be applied by
  -- a proposer whose index is not below the epoch of a read of a user's key, which is no debit's,
  -- and does not overflow. If the read then passes the check, the key holds the value that it held
  -- before the group.
  pub group_keeps_passed_read :
      (ps : List Proposal) (d : Direct eng) (re : ReadEntry) (shadow : Epochs)
      → is_reserved re.key ≡ false
      → re.is_debit ≡ false
      → re.epoch ≤ d.index
      → d.index + length ps < two64
      → let d' = (apply_batch_direct eng ps d).1 in
        Passes d'.fsm.key_epoch shadow re → eng.get d'.fsm.store re.key ≡ eng.get d.fsm.store re.key
  unfolding apply_batch_direct effects
  group_keeps_passed_read ps d re shadow user plain low room (passed, _) =
      let r = group_entries ps (new_group eng d) in
      let kept = finish_group-key_epoch ps r.0 r.1 d.fsm in
      elim (group_entries-Later re.epoch re.key user ps (new_group eng d) low room) [
        | inr (same, keep) ↦ finish_group-get ps r.0 r.1 d.fsm re.key keep
        | inl late ↦ elim passed [
          | inl early ↦ absurd (omega (arith, ap (λ (m : Epochs). (epoch_of m re.key).epoch) kept))
          | inr (_, debit) ↦ cc
        ]
      ]

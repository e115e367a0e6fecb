-- ===== src/Fsm/Unchanged.antt =====
-- What the check of a read set guarantees: optimistic concurrency control.
use dpx.Base.{
  Result, ℕ, Bytes, false, ◌≡◌, ◌<◌, ◌⊎◌, refl, ap, ◌∙◌, All, List, [], ◌∷◌, ◌++◌, Option, arith,
  Bool-cases, Option-cases, inl, inr, panic, ok, err,
}
use dpx.Codec.{EpochRecord, encode_uint64}
use dpx.Engine.Failure.{get-failed_batch_same}
use dpx.Engine.{BatchOp, set, effects, StorageEngine, is_reserved, applied_key}
use dpx.Engine.Effect.{effects-append, effects_other}
use dpx.Engine.Reserved.{applied_key_reserved, reserved_apart}
use dpx.Proposal.{DecodeError, ReadEntry, Proposal, unmarshal}
use dpx.Fsm.{
  SyncPolicy, Epochs, epoch_of, Staged, stage, Fsm, Log, commit, finish, start, apply_proposal,
  apply_decoded, apply_content, apply_log, apply_logs, apply_batch, detect_conflict, Epochs,
}
use dpx.Fsm.Conflict.{Passes, detect_conflict_iff}
use dpx.Fsm.Staging.{stage-Touches}

module _ (eng : StorageEngine) (k : Bytes) where
  -- The key `k` has the same record and the same value in the two states.
  abbrev Keeps : Fsm eng → Fsm eng → Type 0
  Keeps f f' =
      (epoch_of f'.key_epoch k ≡ epoch_of f.key_epoch k) × (eng.get f'.store k ≡ eng.get f.store k)

  abbrev epoch_at : Fsm eng → ℕ
  epoch_at f = (epoch_of f.key_epoch k).epoch

  Keeps-trans : (f g h : Fsm eng) → Keeps f g → Keeps g h → Keeps f h
  Keeps-trans f g h (a, b) (c, d) = (c ∙ a, d ∙ b)

module _ (eng : StorageEngine) (policy : SyncPolicy) (k : Bytes)
    (user : is_reserved k ≡ false) where
  commit-get :
      (index : ℕ) (batch : List BatchOp) (f : Fsm eng)
      → ((old : Option Bytes) → effects k batch old ≡ old)
      → eng.get (commit eng policy index batch f).1.store k ≡ eng.get f.store k
  unfolding commit
  commit-get index batch f h = elim (Option-cases (eng.apply_batch batch f.store)) [
    | inl failed ↦ rw (failed, commit) (get-failed_batch_same eng batch f.store k failed h)
    | inr (s, done) ↦ ground (arith, eng.get-apply_batch batch f.store s k, h (eng.get f.store k))
  ]

  commit-key_epoch :
      (index : ℕ) (batch : List BatchOp) (f : Fsm eng)
      → (commit eng policy index batch f).1.key_epoch ≡ f.key_epoch
  unfolding commit
  commit-key_epoch index batch f = ground arith

  abbrev closed_batch : ℕ → Staged → List BatchOp
  closed_batch index st = st.batch ++ (set applied_key (encode_uint64 index) ∷ [])

  effects-closed_batch :
      (index : ℕ) (st : Staged) (old : Option Bytes)
      → effects k (closed_batch index st) old ≡ effects k st.batch old
  effects-closed_batch index st old =
      let last = set applied_key (encode_uint64 index) ∷ [] in
      effects-append k st.batch last old
      ∙ effects_other k last (effects k st.batch old)
          (reserved_apart applied_key k applied_key_reserved user, tt)

  finish-key_epoch :
      (index : ℕ) (st : Staged) (f : Fsm eng)
      → (finish eng policy index st f).2.key_epoch ≡ st.key_epoch
  unfolding finish
  finish-key_epoch index st f = elim (Option-cases st.unknown) [
    | inr (op, e) ↦ rw (e, finish)
    | inl e ↦
        rw (e, finish)
          (commit-key_epoch index (closed_batch index st) (record f { key_epoch = st.key_epoch }))
  ]

  finish-get :
      (index : ℕ) (st : Staged) (f : Fsm eng)
      → ((old : Option Bytes) → effects k st.batch old ≡ old)
      → eng.get (finish eng policy index st f).2.store k ≡ eng.get f.store k
  unfolding finish
  finish-get index st f h = elim (Option-cases st.unknown) [
    | inr (op, e) ↦ rw (e, finish)
    | inl e ↦
        rw (e, finish)
          (commit-get index (closed_batch index st) (record f { key_epoch = st.key_epoch })
            (λ old. effects-closed_batch index st old ∙ h old))
  ]

  -- One proposal: the key's record gets the proposal's index, or the key keeps record and value.
  apply_proposal-Keeps :
      (index : ℕ) (p : Proposal) (shadow : Epochs) (f : Fsm eng)
      → let f' = (apply_proposal eng policy index p shadow f).2 in
        (epoch_at eng k f' ≡ index) ⊎ Keeps eng k f f'
  unfolding apply_proposal effects
  apply_proposal-Keeps index p shadow f =
      let st = stage index p.writes (start eng shadow f) in
      let ke = finish-key_epoch index st f in
      elim (stage-Touches index k user p.writes (start eng shadow f)) [
        | inl hit ↦ inl (ap (λ (m : Epochs). (epoch_of m k).epoch) ke ∙ hit)
        | inr (same, keep) ↦
            inr
              (ap (λ (m : Epochs). epoch_of m k) ke ∙ same, finish-get index st f (λ old. keep old))
      ]

  apply_decoded-Keeps :
      (index : ℕ) (p : Proposal) (shadow : Epochs) (f : Fsm eng)
      → let f' = (apply_decoded eng policy index p shadow f).2 in
        (epoch_at eng k f' ≡ index) ⊎ Keeps eng k f f'
  unfolding apply_decoded
  apply_decoded-Keeps index p shadow f =
      elim (Bool-cases (detect_conflict f.key_epoch shadow p.read_set)) [
        | inl clash ↦ rw (apply_decoded, clash) (inr (refl, refl))
        | inr clear ↦ elim (Option-cases (apply_proposal eng policy index p shadow f).0) [
          | inl e ↦ rw (apply_decoded, clear, e) (apply_proposal-Keeps index p shadow f)
          | inr (x, e) ↦ rw (apply_decoded, clear, e) (apply_proposal-Keeps index p shadow f)
        ]
      ]

  apply_content-Keeps :
      (index : ℕ) (r : Result DecodeError Proposal) (shadow : Epochs) (f : Fsm eng)
      → let f' = (apply_content eng policy index r shadow f).2 in
        (epoch_at eng k f' ≡ index) ⊎ Keeps eng k f f'
  unfolding apply_content
  apply_content-Keeps index (err e) shadow f = inr (refl, refl)
  apply_content-Keeps index panic shadow f = inr (refl, refl)
  apply_content-Keeps index (ok p) shadow f = apply_decoded-Keeps index p shadow f

  apply_log-Keeps :
      (log : Log) (shadow : Epochs) (f : Fsm eng)
      → let f' = (apply_log eng policy log shadow f).2 in
        (epoch_at eng k f' ≡ log.index) ⊎ Keeps eng k f f'
  unfolding apply_log
  apply_log-Keeps log shadow f = elim (Bool-cases log.is_command) [
    | inr skipped ↦ rw (apply_log, skipped) (inr (refl, refl))
    | inl command ↦
        rw (apply_log, command) (apply_content-Keeps log.index (unmarshal log.content) shadow f)
  ]

  -- After logs with indices above `e`, the key's record is above `e`, or the key was kept.
  apply_logs-Keeps :
      (e : ℕ) (logs : List Log) (shadow : Epochs) (f : Fsm eng)
      → All (λ l. e < l.index) logs
      → let f' = (apply_logs eng policy logs shadow f).1 in
        (e < epoch_at eng k f') ⊎ Keeps eng k f f'
  unfolding apply_logs
  apply_logs-Keeps e [] shadow f h = inr (refl, refl)
  apply_logs-Keeps e (log ∷ logs) shadow f (h, hs) =
      let r = apply_log eng policy log shadow f in
      let f'' = (apply_logs eng policy logs r.1 r.2).1 in
      elim (apply_logs-Keeps e logs r.1 r.2 hs) [
        | inl above ↦ inl above
        | inr later ↦ elim (apply_log-Keeps log shadow f) [
          | inr first ↦ inr (Keeps-trans eng k f r.2 f'' first later)
          | inl hit ↦ inl (omega (arith, ap (λ (er : EpochRecord). er.epoch) later.0))
        ]
      ]

-- A read that `tx.Get` recorded: of a user's key, not a debit's, and with every later log's index
-- above its epoch.
abbrev pub FreshRead : List Log → ReadEntry → Type 0
FreshRead logs re =
    (is_reserved re.key ≡ false) × (re.is_debit ≡ false) × All (λ l. re.epoch < l.index) logs

module _ (eng : StorageEngine) (policy : SyncPolicy) (logs : List Log) (f : Fsm eng) where
  pub read_unchanged :
      (re : ReadEntry) (shadow : Epochs)
      → FreshRead logs re
      → let f' = (apply_batch eng policy logs f).1 in
        Passes f'.key_epoch shadow re → eng.get f'.store re.key ≡ eng.get f.store re.key
  unfolding apply_batch
  read_unchanged re shadow (user, plain, above) (passed, _) =
      elim (apply_logs-Keeps eng policy re.key user re.epoch logs [] f above) [
        | inr (_, same) ↦ same
        | inl late ↦ elim passed [ inl early ↦ absurd (omega arith) | inr (_, debit) ↦ cc ]
      ]

  reads_unchanged :
      (rs : List ReadEntry) (shadow : Epochs)
      → All (FreshRead logs) rs
      → let f' = (apply_batch eng policy logs f).1 in
        All (Passes f'.key_epoch shadow) rs
        → All (λ re. eng.get f'.store re.key ≡ eng.get f.store re.key) rs
  reads_unchanged [] shadow h p = tt
  reads_unchanged (re ∷ rs) shadow (h, hs) (p, ps) =
      (read_unchanged re shadow h p, reads_unchanged rs shadow hs ps)

  -- Optimistic concurrency control: let any logs be applied to a state, with indices above the
  -- epochs of a proposal's reads. If the proposal then passes the check, each key that it read holds
  -- the value that it held before those logs: its reads are still current when it commits.
  pub passed_reads_current :
      (p : Proposal) (shadow : Epochs)
      → All (FreshRead logs) p.read_set
      → detect_conflict (apply_batch eng policy logs f).1.key_epoch shadow p.read_set ≡ false
      → All
          (λ re. eng.get (apply_batch eng policy logs f).1.store re.key ≡ eng.get f.store re.key)
          p.read_set
  passed_reads_current p shadow fresh clear =
      reads_unchanged p.read_set shadow fresh (
        (detect_conflict_iff (apply_batch eng policy logs f).1.key_epoch shadow p.read_set).0 clear)

-- ===== src/Fsm/Recorded.antt =====
-- The version records of the store against the epochs in memory: what `open` finds after a restart.
use dpx.Base.{
  Result, ℕ, Bytes, false, ◌≡◌, refl, ◌∙◌, All, List, [], ◌∷◌, ◌++◌, Option, none, some, arith,
  lookup, lookup-insert, Bool-cases, Option-cases, inl, inr, ◌=ᵇ◌, =ᵇ_iff, panic, ok, err, not,
  ◌&&◌,
}
use dpx.Codec.{EpochRecord, encode_epoch_record, encode_uint64}
use dpx.Engine.{BatchOp, set, op_key, effects, StorageEngine, is_reserved, version_key, applied_key}
use dpx.Engine.Effect.{effects-append, effects_other}
use dpx.Engine.Reserved.{version_key_reserved, version_key-eq}
use dpx.Proposal.{DecodeError, WriteEntry, Proposal, unmarshal}
use dpx.Fsm.{
  SyncPolicy, Epochs, Staged, stage, stage_one, write_op, epoch_record, Fsm, Log, ApplyResult,
  commit, finish, start, apply_proposal, apply_decoded, apply_content, apply_log, apply_logs,
  apply_batch, detect_conflict, is_sync_batch,
}
use dpx.Fsm.Staging.{write_op-op_key}

abbrev pub stored : Option EpochRecord → Option Bytes
stored none = none
stored (some er) = some (encode_epoch_record er)

abbrev pub IsUserWrite : WriteEntry → Type 0
IsUserWrite w = is_reserved w.key ≡ false

-- The batch records what the map of epochs does, from a store that held `old` under the key.
abbrev Records : Bytes → Option Bytes → Staged → Type 0
Records k old st = effects (version_key k) st.batch old ≡ stored (lookup k st.key_epoch)

user_apart : (k j : Bytes) → is_reserved j ≡ false → (j =ᵇ version_key k) ≡ false
user_apart k j user = elim (Bool-cases (j =ᵇ version_key k)) [
  | inr e ↦ e
  | inl e ↦ cc ((=ᵇ_iff j (version_key k)).0 e, user, version_key_reserved k)
]

stage_one-Records :
    (index : ℕ) (k : Bytes) (old : Option Bytes) (w : WriteEntry) (op : BatchOp) (st : Staged)
    → op_key op ≡ w.key
    → IsUserWrite w
    → Records k old st
    → Records k old (stage_one index w op st)
unfolding stage_one effects
stage_one-Records index k old w op st same user h =
    let er = epoch_record index w in
    let tail : List BatchOp = op ∷ set (version_key w.key) (encode_epoch_record er) ∷ [] in
    rw
      (
        effects-append (version_key k) st.batch tail old,
        same,
        user_apart k w.key user,
        version_key-eq w.key k,
        h,
        lookup-insert w.key k er st.key_epoch,
      )
      (ground arith)

stage-Records :
    (index : ℕ) (k : Bytes) (old : Option Bytes) (ws : List WriteEntry) (st : Staged)
    → All IsUserWrite ws
    → Records k old st
    → Records k old (stage index ws st)
unfolding stage
stage-Records index k old [] st us h = h
stage-Records index k old (w ∷ ws) st (u, us) h = elim (Option-cases (write_op w)) [
  | inl e ↦ rw (e, stage) h
  | inr (op, e) ↦
      rw (e, stage)
        (stage-Records index k old ws (stage_one index w op st) us
          (stage_one-Records index k old w op st (write_op-op_key w op e) u h))
]

-- The engine holds under each version key the record that the map of epochs has.
abbrev pub IsRecorded : (eng : StorageEngine) → Fsm eng → Type 0
IsRecorded eng f = (k : Bytes) → eng.get f.store (version_key k) ≡ stored (lookup k f.key_epoch)

-- Whatever the log decodes to, its writes are of users' keys.
abbrev pub HasUserWrites : Log → Type 0
HasUserWrites log = (p : Proposal) → unmarshal log.content ≡ ok p → All IsUserWrite p.writes

applied_apart : (k : Bytes) → (applied_key =ᵇ version_key k) ≡ false
unfolding version_key ◌=ᵇ◌
applied_apart k = refl

module _ (eng : StorageEngine) (policy : SyncPolicy) where
  commit-IsRecorded :
      (index : ℕ) (batch : List BatchOp) (f : Fsm eng)
      → ((k : Bytes)
          → effects (version_key k) batch (eng.get f.store (version_key k))
            ≡ stored (lookup k f.key_epoch))
      → (commit eng policy index batch f).0 ≡ none
      → IsRecorded eng (commit eng policy index batch f).1
  unfolding commit
  commit-IsRecorded index batch f h done k = elim (Option-cases (eng.apply_batch batch f.store)) [
    | inl e ↦ absurd (ground (arith, done, e))
    | inr (s, e) ↦
        let held = eng.get-apply_batch batch f.store s (version_key k) e ∙ h k in
        elim (Bool-cases (is_sync_batch policy && not (eng.sync_ok s))) [
          | inl lost ↦ rw (commit, e, lost) held
          | inr fine ↦ rw (commit, e, fine) held
        ]
  ]

  finish-IsRecorded :
      (index : ℕ) (st : Staged) (f : Fsm eng)
      → ((k : Bytes) → Records k (eng.get f.store (version_key k)) st)
      → (finish eng policy index st f).0 ≡ none
      → IsRecorded eng (finish eng policy index st f).2
  unfolding finish
  finish-IsRecorded index st f h done = elim (Option-cases st.unknown) [
    | inr (op, e) ↦ absurd (ground (arith, done, e))
    | inl e ↦
        let last : List BatchOp = set applied_key (encode_uint64 index) ∷ [] in
        rw (e, finish)
          (commit-IsRecorded index (st.batch ++ last) (record f { key_epoch = st.key_epoch })
            (λ k.
              effects-append (version_key k) st.batch last (eng.get f.store (version_key k))
              ∙ effects_other (version_key k) last _ (applied_apart k, tt)
              ∙ h k)
            (rw (finish, e) at done))
  ]

  apply_proposal-IsRecorded :
      (index : ℕ) (p : Proposal) (shadow : Epochs) (f : Fsm eng)
      → All IsUserWrite p.writes
      → IsRecorded eng f
      → (apply_proposal eng policy index p shadow f).0 ≡ none
      → IsRecorded eng (apply_proposal eng policy index p shadow f).2
  unfolding apply_proposal effects
  apply_proposal-IsRecorded index p shadow f us h done =
      finish-IsRecorded index (stage index p.writes (start eng shadow f)) f
        (λ k.
          stage-Records index k (eng.get f.store (version_key k)) p.writes (start eng shadow f) us
            (h k))
        done

  apply_decoded-IsRecorded :
      (index : ℕ) (p : Proposal) (shadow : Epochs) (f : Fsm eng)
      → All IsUserWrite p.writes
      → IsRecorded eng f
      → (apply_decoded eng policy index p shadow f).0.error ≡ none
      → IsRecorded eng (apply_decoded eng policy index p shadow f).2
  unfolding apply_decoded
  apply_decoded-IsRecorded index p shadow f us h done =
      elim (Bool-cases (detect_conflict f.key_epoch shadow p.read_set)) [
        | inl clash ↦ rw (apply_decoded, clash) h
        | inr clear ↦ elim (Option-cases (apply_proposal eng policy index p shadow f).0) [
          | inl e ↦ rw (apply_decoded, clear, e) (apply_proposal-IsRecorded index p shadow f us h e)
          | inr (x, e) ↦ absurd (ground (arith, done, clear, e))
        ]
      ]

  apply_content-IsRecorded :
      (index : ℕ) (r : Result DecodeError Proposal) (shadow : Epochs) (f : Fsm eng)
      → ((p : Proposal) → r ≡ ok p → All IsUserWrite p.writes)
      → IsRecorded eng f
      → (apply_content eng policy index r shadow f).0.error ≡ none
      → IsRecorded eng (apply_content eng policy index r shadow f).2
  unfolding apply_content
  apply_content-IsRecorded index (err e) shadow f us h done = h
  apply_content-IsRecorded index panic shadow f us h done = h
  apply_content-IsRecorded index (ok p) shadow f us h done =
      apply_decoded-IsRecorded index p shadow f (us p refl) h done

  apply_log-IsRecorded :
      (log : Log) (shadow : Epochs) (f : Fsm eng)
      → HasUserWrites log
      → IsRecorded eng f
      → (apply_log eng policy log shadow f).0.error ≡ none
      → IsRecorded eng (apply_log eng policy log shadow f).2
  unfolding apply_log
  apply_log-IsRecorded log shadow f us h done = elim (Bool-cases log.is_command) [
    | inr skipped ↦ rw (apply_log, skipped) h
    | inl command ↦
        rw (apply_log, command)
          (apply_content-IsRecorded log.index (unmarshal log.content) shadow f us h
            (rw (apply_log, command) at done))
  ]

  apply_logs-IsRecorded :
      (logs : List Log) (shadow : Epochs) (f : Fsm eng)
      → All HasUserWrites logs
      → IsRecorded eng f
      → All (λ (r : ApplyResult). r.error ≡ none) (apply_logs eng policy logs shadow f).0
      → IsRecorded eng (apply_logs eng policy logs shadow f).1
  unfolding apply_logs
  apply_logs-IsRecorded [] shadow f us h done = h
  apply_logs-IsRecorded (log ∷ logs) shadow f (u, us) h (done, later) =
      let r = apply_log eng policy log shadow f in
      apply_logs-IsRecorded logs r.1 r.2 us (apply_log-IsRecorded log shadow f u h done) later

  -- After any logs that are applied without an error (conflicts are none), and whose writes are of
  -- users' keys, the engine holds for each key the epoch record that the state machine has in
  -- memory, if it did before: a restart can rebuild the one from the other.
  pub apply_batch-IsRecorded :
      (logs : List Log) (f : Fsm eng)
      → All HasUserWrites logs
      → IsRecorded eng f
      → All (λ (r : ApplyResult). r.error ≡ none) (apply_batch eng policy logs f).0
      → IsRecorded eng (apply_batch eng policy logs f).1
  unfolding apply_batch
  apply_batch-IsRecorded logs f us h done = apply_logs-IsRecorded logs [] f us h done

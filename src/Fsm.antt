-- ===== src/Fsm.antt =====
-- conductor/fsm.go: the replicated state machine, over any `StorageEngine`. A map of Go is an
-- association list, `f.state.keyEpoch[k]` of a missing key is the zero record, and the log that
-- Raft hands over is a list. Not modelled: the clock (`hlc`, a third-party package that the results
-- do not depend on), telemetry, the pools, and `Snapshot` and `Restore`, which move files.
pub mod Conflict
pub mod Staging
pub mod Unchanged
pub mod Recorded
pub mod Overdraft
pub mod Restart
pub mod Tests
use dpx.Base.{
  ℕ, suc, Bytes, Bool, true, false, not, ◌&&◌, ◌||◌, ltb, leb, ◌==◌, length, drop, take, ◌++◌, List,
  [], ◌∷◌, Option, none, some, if◌then◌else◌, Map, lookup, insert, Result, ok, err, panic,
}
use dpx.Codec.{EpochRecord, no_epoch, encode_epoch_record, decode_epoch_record, encode_uint64}
use dpx.Engine.{
  BatchOp, set, delete, merge, StorageEngine, version_key, applied_key, version_prefix,
}
use dpx.Proposal.{
  ReadEntry, WriteEntry, Proposal, op_set, op_delete, op_credit, op_debit, DecodeError, unmarshal,
}

pub data SyncPolicy : Type 0 where
  sync_batch sync_full sync_none : SyncPolicy

pub data FsmError : Type 0 where
  corrupt_entry : ℕ → DecodeError → FsmError
  unknown_write_op : ℕ → ℕ → FsmError
  engine_failed : FsmError
  sync_failed : ℕ → FsmError
  corrupted_version_record : Bytes → FsmError

-- `shared.ApplyResult`
pub record ApplyResult : Type 0 where
  pub conflict : Bool
  pub error : Option FsmError

abbrev pub applied_ok : ApplyResult
applied_ok = record { conflict = false; error = none }

abbrev pub conflicted : ApplyResult
conflicted = record { conflict = true; error = none }

abbrev pub failed : FsmError → ApplyResult
failed e = record { conflict = false; error = some e }

abbrev pub Epochs : Type 0
Epochs = Map EpochRecord

-- `m[k]`, the zero record where there is none.
abbrev pub or_no_epoch : Option EpochRecord → EpochRecord
or_no_epoch none = no_epoch
or_no_epoch (some er) = er

unfoldable pub epoch_of : Epochs → Bytes → EpochRecord
epoch_of m k = or_no_epoch (lookup k m)

-- One round of the loop of `detectConflict`.
unfoldable pub entry_conflicts : Epochs → Epochs → ReadEntry → Bool
unfolding epoch_of
entry_conflicts key_epoch shadow re =
    let c = epoch_of key_epoch re.key in
    (ltb re.epoch c.epoch && not (c.is_credit && re.is_debit))
    || (elim (lookup re.key shadow) [ none ↦ false | some s ↦ not (s.is_credit && re.is_debit) ])

unfoldable pub detect_conflict : Epochs → Epochs → List ReadEntry → Bool
detect_conflict key_epoch shadow [] = false
detect_conflict key_epoch shadow (re ∷ rs) =
    entry_conflicts key_epoch shadow re || detect_conflict key_epoch shadow rs

-- The `switch` on the operation: `none` is its default case.
unfoldable pub write_op : WriteEntry → Option BatchOp
write_op w =
    if w.op == op_set
    then some (set w.key w.value)
    else if w.op == op_delete
    then some (delete w.key)
    else if (w.op == op_credit) || (w.op == op_debit)
    then some (merge w.key w.value)
    else none

-- What the loop over the writes has built: the batch and the two maps that it records epochs in,
-- and the operation that it stopped at, if it was an unknown one.
pub record Staged : Type 0 where
  pub batch : List BatchOp
  pub key_epoch : Epochs
  pub shadow : Epochs
  pub unknown : Option ℕ

unfoldable pub epoch_record : ℕ → WriteEntry → EpochRecord
epoch_record index w = record { epoch = index; is_credit = w.op == op_credit }

-- One round with a known operation.
unfoldable pub stage_one : ℕ → WriteEntry → BatchOp → Staged → Staged
stage_one index w op st =
    let er = epoch_record index w in
    record {
      batch = st.batch ++ (op ∷ set (version_key w.key) (encode_epoch_record er) ∷ []);
      key_epoch = insert w.key er st.key_epoch;
      shadow = insert w.key er st.shadow;
      unknown = none;
    }

unfoldable pub stage : ℕ → List WriteEntry → Staged → Staged
stage index [] st = st
stage index (w ∷ ws) st = elim (write_op w) [
  | none ↦ record st { unknown = some w.op }
  | some op ↦ stage index ws (stage_one index w op st)
]

-- A log entry; `is_command` is `log.Type == hraft.LogCommand`.
pub record Log : Type 0 where
  pub index : ℕ
  pub is_command : Bool
  pub content : Bytes

abbrev pub is_sync_batch : SyncPolicy → Bool
is_sync_batch sync_batch = true
is_sync_batch sync_full = false
is_sync_batch sync_none = false

-- `bytes.Repeat([]byte{0xFF}, 16)`
abbrev pub sixteen_ff : Bytes
sixteen_ff =
    255 ∷ 255 ∷ 255 ∷ 255 ∷ 255 ∷ 255 ∷ 255 ∷ 255 ∷ 255 ∷ 255 ∷ 255 ∷ 255 ∷ 255 ∷ 255 ∷ 255 ∷ 255
    ∷ []

abbrev pub raw_iter_end : Bytes
raw_iter_end = version_prefix ++ sixteen_ff

-- The scan of `open`, with the map that it has built.
unfoldable pub rebuild : Epochs → List (Bytes × Bytes) → Result FsmError Epochs
rebuild m [] = ok m
rebuild m ((k, v) ∷ rest) =
    let skipped = rebuild m rest in
    let user_key = drop (length version_prefix) k in
    let found = elim (decode_epoch_record v) as (λ _. Result FsmError Epochs) [
      | none ↦ err (corrupted_version_record user_key)
      | some er ↦ rebuild (insert user_key er m) rest
    ] in
    if leb (length k) (length version_prefix) then skipped else found

module _ (eng : StorageEngine) where
  open eng use {State}

  -- `notified` lists what was handed to the watchers.
  pub record Fsm : Type 0 where
    pub applied : ℕ
    pub store : State
    pub key_epoch : Epochs
    pub notified : List (List WriteEntry)

  -- `open`, with `seq` the engine's `CurrentSequence()`; no stop is asked for.
  unfoldable pub open_fsm : ℕ → State → Result FsmError Fsm
  open_fsm seq s = elim (rebuild [] (eng.raw_iter version_prefix raw_iter_end s)) [
    | ok m ↦ ok (record { applied = seq; store = s; key_epoch = m; notified = [] })
    | err e ↦ err e
    | panic ↦ panic
  ]

  -- From `ApplyBatch` on.
  unfoldable pub commit : SyncPolicy → ℕ → List BatchOp → Fsm → Option FsmError × Fsm
  commit policy index batch f = elim (eng.apply_batch batch f.store) [
    | none ↦ (some engine_failed, record f { store = eng.failed_batch batch f.store })
    | some s ↦
        let f' = record f { store = s; applied = index } in
        if is_sync_batch policy && not (eng.sync_ok s)
        then (some (sync_failed index), f')
        else (none, f')
  ]

  -- `applyProposal` from the end of its loop on, with what the loop has staged. The epochs are
  -- recorded even where the proposal then fails.
  unfoldable pub finish : SyncPolicy → ℕ → Staged → Fsm → Option FsmError × Epochs × Fsm
  finish policy index st f =
      let f' = record f { key_epoch = st.key_epoch } in
      elim st.unknown [
        | some op ↦ (some (unknown_write_op op index), st.shadow, f')
        | none ↦
            let batch = st.batch ++ (set applied_key (encode_uint64 index) ∷ []) in
            let (error, f'') = commit policy index batch f' in (error, st.shadow, f'')
      ]

  abbrev pub start : Epochs → Fsm → Staged
  start shadow f = record { batch = []; key_epoch = f.key_epoch; shadow = shadow; unknown = none }

  -- The shadow map comes back beside the error and the state.
  unfoldable pub apply_proposal :
      SyncPolicy → ℕ → Proposal → Epochs → Fsm → Option FsmError × Epochs × Fsm
  apply_proposal policy index p shadow f =
      finish policy index (stage index p.writes (start shadow f)) f

  -- The check, the writes and the notification of one decoded proposal.
  unfoldable pub apply_decoded :
      SyncPolicy → ℕ → Proposal → Epochs → Fsm → ApplyResult × Epochs × Fsm
  apply_decoded policy index p shadow f =
      if detect_conflict f.key_epoch shadow p.read_set
      then (conflicted, shadow, f)
      else let (error, shadow', f') = apply_proposal policy index p shadow f in
        elim error [
          | some e ↦ (failed e, shadow', f')
          | none ↦ (applied_ok, shadow', record f' { notified = f'.notified ++ (p.writes ∷ []) })
        ]

  -- What `Unmarshal` returned; it does not panic.
  unfoldable pub apply_content :
      SyncPolicy → ℕ → Result DecodeError Proposal → Epochs → Fsm → ApplyResult × Epochs × Fsm
  apply_content policy index (err e) shadow f = (failed (corrupt_entry index e), shadow, f)
  apply_content policy index panic shadow f = (applied_ok, shadow, f)
  apply_content policy index (ok p) shadow f = apply_decoded policy index p shadow f

  -- One round of the loop of `applyBatch`.
  unfoldable pub apply_log : SyncPolicy → Log → Epochs → Fsm → ApplyResult × Epochs × Fsm
  apply_log policy log shadow f =
      if not log.is_command
      then (applied_ok, shadow, f)
      else apply_content policy log.index (unmarshal log.content) shadow f

  unfoldable pub apply_logs : SyncPolicy → List Log → Epochs → Fsm → List ApplyResult × Fsm
  apply_logs policy [] shadow f = ([], f)
  apply_logs policy (log ∷ logs) shadow f =
      let (result, shadow', f') = apply_log policy log shadow f in
      let (results, f'') = apply_logs policy logs shadow' f' in (result ∷ results, f'')

  -- `ApplyBatch`: the shadow map starts empty.
  unfoldable pub apply_batch : SyncPolicy → List Log → Fsm → List ApplyResult × Fsm
  apply_batch policy logs f = apply_logs policy logs [] f

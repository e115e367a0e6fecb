-- ===== src/Direct.antt =====
-- conductor/direct.go: the proposer of an embedded node, which applies proposals with no Raft. The
-- state machine is that of `dpx.Fsm`, whose clock it skips. A group is the list of proposals
-- that one flush hands over; Direct/Queue is the queue in front. Pools are not modelled.
pub mod Single
pub mod Groups
pub mod Reset
pub mod Queue
pub mod Handed
pub mod Served
pub mod Turns
mod Tests
mod QueueTests
use dpx.Base.{
  ℕ, Bytes, Bool, true, false, not, ◌&&◌, ltb, leb, length, ◌++◌, List, [], ◌∷◌, Option, none, some,
  if◌then◌else◌, insert,
}
use dpx.Codec.{EpochRecord, encode_epoch_record, encode_uint64, add64}
use dpx.Engine.{BatchOp, set, StorageEngine, version_key, applied_key}
use dpx.Proposal.{WriteEntry, Proposal}
use dpx.Base.{Result, ok, err, panic}
use dpx.Fsm.{
  FsmError, open_fsm, SyncPolicy, Epochs, ApplyResult, applied_ok, conflicted, failed,
  engine_failed, unknown_write_op, detect_conflict, write_op, epoch_record, Staged, stage, Fsm,
}

-- What the loop over a group has built. `shadow` is the stack array, its entries in order, or the
-- map of a larger group.
pub record Group : Type 0 where
  pub index : ℕ
  pub batch : List BatchOp
  pub key_epoch : Epochs
  pub shadow : Epochs
  pub has_write : Bool

abbrev pub max_stack_shadow : ℕ
max_stack_shadow = 64

-- The `switch` of the stack path: it has no default case.
abbrev pub known_op : Option BatchOp → List BatchOp
known_op none = []
known_op (some op) = op ∷ []

-- One write on the stack path. A full array takes no more entries; the search takes the first.
unfoldable pub stack_write : ℕ → WriteEntry → Group → Group
stack_write idx w g =
    let er = epoch_record idx w in
    record g {
      batch =
          g.batch
          ++ (known_op (write_op w) ++ (set (version_key w.key) (encode_epoch_record er) ∷ []));
      key_epoch = insert w.key er g.key_epoch;
      shadow =
          if ltb (length g.shadow) max_stack_shadow
          then g.shadow ++ ((w.key, er) ∷ [])
          else g.shadow;
    }

unfoldable pub stack_writes : ℕ → List WriteEntry → Group → Group
stack_writes idx [] g = g
stack_writes idx (w ∷ ws) g = stack_writes idx ws (stack_write idx w g)

-- The record of the index behind the writes of a proposal.
unfoldable pub close_entry : ℕ → Group → Group
close_entry idx g = record g {
  batch = g.batch ++ (set applied_key (encode_uint64 idx) ∷ []);
  has_write = true;
}

unfoldable pub stack_entry : Proposal → Group → ApplyResult × Group
stack_entry p g =
    let idx = add64 g.index 1 in
    let g' : Group = record g { index = idx } in
    if detect_conflict g.key_epoch g.shadow p.read_set
    then (conflicted, g')
    else (applied_ok, close_entry idx (stack_writes idx p.writes g'))

-- One proposal of a larger group. What it has staged before an unknown operation stays in the batch.
unfoldable pub map_entry : Proposal → Group → ApplyResult × Group
map_entry p g =
    let idx = add64 g.index 1 in
    let g' : Group = record g { index = idx } in
    let begun : Staged = record {
      batch = g.batch;
      key_epoch = g.key_epoch;
      shadow = g.shadow;
      unknown = none;
    } in
    let st = stage idx p.writes begun in
    let staged : Group = record g' {
      batch = st.batch;
      key_epoch = st.key_epoch;
      shadow = st.shadow;
    } in
    if detect_conflict g.key_epoch g.shadow p.read_set then (conflicted, g') else elim st.unknown [
      | some op ↦ (failed (unknown_write_op op idx), staged)
      | none ↦ (applied_ok, close_entry idx staged)
    ]

unfoldable pub entries :
    (Proposal → Group → ApplyResult × Group) → List Proposal → Group → List ApplyResult × Group
entries one [] g = ([], g)
entries one (p ∷ ps) g =
    let (result, g') = one p g in let (results, g'') = entries one ps g' in (result ∷ results, g'')

unfoldable pub group_entries : List Proposal → Group → List ApplyResult × Group
group_entries ps g =
    if leb (length ps) max_stack_shadow then entries stack_entry ps g else entries map_entry ps g

-- A result with neither an error nor a conflict.
unfoldable pub is_applied : ApplyResult → Bool
is_applied r = elim r.error [ none ↦ not r.conflict | some e ↦ false ]

-- After `ApplyBatch` has failed.
unfoldable pub fail_applied : List ApplyResult → List ApplyResult
fail_applied [] = []
fail_applied (r ∷ rs) = (if is_applied r then failed engine_failed else r) ∷ fail_applied rs

-- The writes that the watchers are told of.
unfoldable pub to_notify : List ApplyResult → List Proposal → List (List WriteEntry)
to_notify [] ps = []
to_notify (r ∷ rs) [] = []
to_notify (r ∷ rs) (p ∷ ps) =
    let rest = to_notify rs ps in if is_applied r then p.writes ∷ rest else rest

module _ (eng : StorageEngine) where
  pub record Direct : Type 0 where
    pub fsm : Fsm eng
    pub index : ℕ

  abbrev pub new_group : Direct → Group
  new_group d = record {
    index = d.index;
    batch = [];
    key_epoch = d.fsm.key_epoch;
    shadow = [];
    has_write = false;
  }

  -- The commit behind the loop. An error of `Sync` is dropped.
  unfoldable pub commit_group : List ApplyResult → Group → Fsm eng → List ApplyResult × Fsm eng
  commit_group results g f =
      if not g.has_write then (results, f) else elim (eng.apply_batch g.batch f.store) [
        | none ↦ (fail_applied results, record f { store = eng.failed_batch g.batch f.store })
        | some s ↦ (results, record f { store = s; applied = g.index })
      ]

  -- `applyBatchDirect` from its commit on, with the results and the group that the loop has built.
  unfoldable pub finish_group :
      List Proposal → List ApplyResult → Group → Fsm eng → List ApplyResult × Direct
  unfolding commit_group
  finish_group ps results g f =
      let (results', f') = commit_group results g (record f { key_epoch = g.key_epoch }) in
      (
        results',
        record {
          fsm = record f' { notified = f'.notified ++ to_notify results' ps };
          index = g.index;
        },
      )

  -- `applyBatchDirect`
  unfoldable pub apply_batch_direct : List Proposal → Direct → List ApplyResult × Direct
  apply_batch_direct ps d =
      let (results, g) = group_entries ps (new_group d) in finish_group ps results g d.fsm

  -- `newDirectProposer`: `open`, and an index that starts at zero.
  abbrev pub started : Result FsmError (Fsm eng) → Result FsmError Direct
  started (ok f) = ok (record { fsm = f; index = 0 })
  started (err e) = err e
  started panic = panic

  unfoldable pub open_direct : ℕ → eng.State → Result FsmError Direct
  open_direct seq s = started (open_fsm eng seq s)

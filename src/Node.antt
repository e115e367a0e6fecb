-- ===== src/Node.antt =====
-- dpx.go: a node runs the function of a transaction on a snapshot, proposes its writes, and tries
-- again on a conflict. The retry loop is the third-party package jack, the clock is hlc: both are
-- parameters. Telemetry is not modelled; the counters of `Metrics` are.
pub mod Progress
pub mod Failed
pub mod Ranges
mod Tests
use dpx.Base.{
  ℕ, Bool, true, false, ◌+◌, List, [], ◌∷◌, Option, none, some, if◌then◌else◌, Result, ok, err,
  panic,
}
use dpx.Codec.{add64}
use dpx.Engine.{StorageEngine}
use dpx.Proposal.{Proposal}
use dpx.Fsm.{FsmError, ApplyResult, applied_ok}
use dpx.Tx.{Snapshot, Tx, TxError, is_empty, read_set_slice, validate}
use dpx.Direct.{Direct, apply_batch_direct}

pub data NodeError : Type 0 where
  store_closed get_snapshot_failed err_conflict conflict_exhausted direct_closed : NodeError
  tx_failed : TxError → NodeError
  fn_failed : ℕ → NodeError
  apply_failed : FsmError → NodeError

-- `fn` of a transaction with the calls that it makes: from the snapshot and the sequence counter to
-- its error, the buffers and the counter.
abbrev pub Body : Type 0
Body = Snapshot → ℕ → Option NodeError × Tx × ℕ

-- `AllocateNextSequence` on a node.
abbrev pub allocate_next_sequence : ℕ → ℕ × ℕ
allocate_next_sequence seq = (add64 seq 1, add64 seq 1)

-- What `res` and its error come to.
unfoldable pub outcome : ApplyResult → Option NodeError
outcome res = elim res.error [
  | some e ↦ some (apply_failed e)
  | none ↦ if res.conflict then some err_conflict else none
]

-- The proposal that is made of the buffers, at the clock's tick.
abbrev pub proposal_of : ℕ × ℕ → Snapshot → Tx → Proposal
proposal_of (wall, counter) snap tx = record {
  read_set = read_set_slice snap tx;
  writes = tx.writes;
  timestamp_wall = wall;
  timestamp_counter = counter;
}

abbrev pub first_result : List ApplyResult → ApplyResult
first_result [] = applied_ok
first_result (r ∷ rs) = r

-- How a call of the retry package ends: with no error, with the function's, or after the last try.
pub data Tried : Type 0 where
  done exhausted : Tried
  refused : NodeError → Tried

-- What a concurrent `Shutdown` lets become of a call of `ProposeDirect`: its result, or
-- `errDirectClosed`, with the proposal not applied (refused, not sent, or left in the queue) or
-- applied although its caller is no longer waiting.
pub data Race : Type 0 where
  answered lost applied_unanswered : Race

module _ (eng : StorageEngine) (get_snapshot : eng.State → Option Snapshot) (tick : ℕ × ℕ) where
  -- `Node` over the direct proposer, which holds the engine.
  pub record Node : Type 0 where
    pub proposer : Direct eng
    pub closed : Bool
    pub seq_counter : ℕ
    pub transactions_total : ℕ
    pub exhausted_total : ℕ

  -- `ProposeDirect`, with its error, and what `runOnce` makes of the result. The proposer takes the
  -- proposal in a group of its own.
  abbrev pub after_propose : Race → List ApplyResult × Direct eng → Node → Option NodeError × Node
  after_propose answered (results, d) n =
      (outcome (first_result results), record n { proposer = d })
  after_propose lost (results, d) n = (some direct_closed, n)
  after_propose applied_unanswered (results, d) n = (some direct_closed, record n { proposer = d })

  -- `runOnce` behind `validate`, which does not panic.
  abbrev pub after_validate :
      Race → Result TxError (Unit {0}) → Snapshot → Tx → Node → Option NodeError × Node
  after_validate race (err e) snap tx n = (some (tx_failed e), n)
  after_validate race panic snap tx n = (none, n)
  after_validate race (ok u) snap tx n =
      after_propose race (apply_batch_direct eng (proposal_of tick snap tx ∷ []) n.proposer) n

  unfoldable pub propose_tx : Race → Snapshot → Tx → Node → Option NodeError × Node
  propose_tx race snap tx n = after_validate race (validate tx) snap tx n

  -- `runOnce` behind `fn`.
  abbrev pub after_fn : Race → Snapshot → Option NodeError × Tx × ℕ → Node → Option NodeError × Node
  after_fn race snap (some e, tx, seq) n = (some e, record n { seq_counter = seq })
  after_fn race snap (none, tx, seq) n =
      let n' : Node = record n { seq_counter = seq } in
      if is_empty tx then (none, n') else propose_tx race snap tx n'

  abbrev pub on_snapshot : Race → Option Snapshot → Body → Node → Option NodeError × Node
  on_snapshot race none fn n = (some get_snapshot_failed, n)
  on_snapshot race (some snap) fn n = after_fn race snap (fn snap n.seq_counter) n

  unfoldable pub run_once : Race → Body → Node → Option NodeError × Node
  run_once race fn n = on_snapshot race (get_snapshot n.proposer.fsm.store) fn n

  unfoldable pub count_tried : Tried × Node → Option NodeError × Node
  count_tried (exhausted, n) =
      (some conflict_exhausted, record n { exhausted_total = add64 n.exhausted_total 1 })
  count_tried (refused e, n) = (some e, n)
  count_tried (done, n) = (none, record n { transactions_total = add64 n.transactions_total 1 })

  abbrev pub Retry : Type 0
  Retry = (Node → Option NodeError × Node) → Node → Tried × Node

  -- Each attempt has its own race with a shutdown.
  unfoldable pub run_in_tx : Retry → (Node → Race) → Body → Node → Option NodeError × Node
  run_in_tx retry race fn n =
      let attempt = λ (m : Node). run_once (race m) fn m in
      if n.closed then (some store_closed, n) else count_tried (retry attempt n)

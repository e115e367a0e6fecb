-- ===== src/Direct/Queue.antt =====
-- The queue of the direct proposer: `ProposeDirect` up to its wait, `applierLoop` and `Shutdown`, as
-- steps. An entry is its caller's ticket, which stands for the result channel, and a proposal. A
-- `select` takes any of its cases that is ready, so the steps come in any order.
use dpx.Base.{
  ℕ, Bool, true, false, not, ◌&&◌, ◌||◌, ltb, leb, ◌==◌, length, ◌++◌, List, [], ◌∷◌, Option, none,
  some, if◌then◌else◌, ◌≡◌,
}
use dpx.Engine.{StorageEngine}
use dpx.Fsm.{ApplyResult}
use dpx.Proposal.{Proposal}
use dpx.Direct.{Direct, apply_batch_direct}

abbrev pub submit_buf_size : ℕ
submit_buf_size = 16384

abbrev pub max_batch_size : ℕ
max_batch_size = 2048

abbrev pub Entry : Type 0
Entry = ℕ × Proposal

unfoldable pub proposals : List Entry → List Proposal
proposals [] = []
proposals ((t, p) ∷ es) = p ∷ proposals es

-- The results on the callers' channels.
unfoldable pub deliver : List Entry → List ApplyResult → List (ℕ × ApplyResult)
deliver ((t, p) ∷ es) (r ∷ rs) = (t, r) ∷ deliver es rs
deliver _ _ = []

-- `draining` is whether the loop is in its inner `for`, `stopped` whether it has returned.
pub data Event : Type 0 where
  submit : Entry → Event
  receive drain_one drain_end tick finish shutdown : Event

module _ (eng : StorageEngine) where
  pub record Queue : Type 0 where
    pub proposer : Direct eng
    pub submit_ch : List Entry
    pub batch : List Entry
    pub draining : Bool
    pub closed : Bool
    pub stopped : Bool
    pub delivered : List (ℕ × ApplyResult)

  unfoldable pub new_queue : Direct eng → Queue
  new_queue d = record {
    proposer = d;
    submit_ch = [];
    batch = [];
    draining = false;
    closed = false;
    stopped = false;
    delivered = [];
  }

  -- `applyBatchDirect(batch)` and `batch = batch[:0]`
  abbrev pub hand_over : Queue → Queue
  hand_over q =
      let (results, d) = apply_batch_direct eng (proposals q.batch) q.proposer in
      record q { proposer = d; batch = []; delivered = q.delivered ++ deliver q.batch results }

  unfoldable pub flush : Queue → Queue
  flush q = if length q.batch == 0 then q else hand_over q

  -- `batch = append(batch, <-d.submitCh)`, behind which the loop is draining.
  abbrev pub take_entry : Queue → List Entry → Option Queue
  take_entry q [] = none
  take_entry q (e ∷ rest) =
      some (record q { submit_ch = rest; batch = q.batch ++ (e ∷ []); draining = true })

  abbrev pub when : Bool → Option Queue → Option Queue
  when true q = q
  when false q = none

  -- The end of the inner `for`, and the test behind it.
  abbrev pub after_drain : Queue → Queue
  after_drain q =
      let idle : Queue = record q { draining = false } in
      if leb max_batch_size (length q.batch) then flush idle else idle

  -- One step; `none` where it cannot be taken. A caller that has passed the test of `closed` may
  -- still send.
  unfoldable pub step : Event → Queue → Option Queue
  unfolding flush
  step (submit e) q =
      when (ltb (length q.submit_ch) submit_buf_size)
        (some (record q { submit_ch = q.submit_ch ++ (e ∷ []) }))
  step receive q = when (not q.draining && not q.stopped) (take_entry q q.submit_ch)
  step drain_one q =
      when (q.draining && ltb (length q.batch) max_batch_size) (take_entry q q.submit_ch)
  step drain_end q =
      when (q.draining && ((length q.submit_ch == 0) || leb max_batch_size (length q.batch)))
        (some (after_drain q))
  step tick q = when (not q.draining && not q.stopped) (some (flush q))
  step finish q =
      when (q.closed && (not q.draining && not q.stopped))
        (some (record (flush q) { stopped = true }))
  step shutdown q = some (record q { closed = true })

  abbrev pub sent_by : Event → List Entry
  sent_by (submit e) = e ∷ []
  sent_by receive = []
  sent_by drain_one = []
  sent_by drain_end = []
  sent_by tick = []
  sent_by finish = []
  sent_by shutdown = []

  -- The queues that steps make of a new one, with the entries that have been sent, in order.
  pub data Runs (d : Direct eng) : List Entry → Queue → Type 0 where
    start : Runs d [] (new_queue d)
    next :
        {sent : List Entry} {q q' : Queue} (e : Event)
        → Runs d sent q
        → step e q ≡ some q'
        → Runs d (sent ++ sent_by e) q'

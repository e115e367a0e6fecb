-- ===== src/Direct/QueueTests.antt =====
-- A run of the direct proposer's queue over the plain engine: two callers, one group.
use dpx.Base.{◌≤◌, ◌≡◌, refl, length, ◌++◌, false, List, [], ◌∷◌, All}
use dpx.Fsm.{applied_ok}
use dpx.Fsm.Tests.{eng, key_a, key_b}
use dpx.Direct.Reset.{set_key}
use dpx.Direct.Tests.{embedded, direct_program}
use dpx.Direct.{apply_batch_direct}
use dpx.Direct.Queue.{
  Entry, Queue, new_queue, flush, step, submit, receive, drain_one, drain_end, tick, Runs, start,
  next, max_batch_size, proposals, deliver,
}
use dpx.Direct.Handed.{apply_groups, concat, tickets}
use dpx.Direct.Served.{IsSized}
use dpx.Direct.Turns.{Runs-groups}

abbrev first : Entry
first = (1, set_key key_a (7 ∷ []))

abbrev second : Entry
second = (2, set_key key_b (8 ∷ []))

abbrev waiting : Queue eng
waiting = record {
  proposer = embedded;
  submit_ch = first ∷ second ∷ [];
  batch = [];
  draining = false;
  closed = false;
  stopped = false;
  delivered = [];
}

abbrev taken : Queue eng
taken = record waiting { submit_ch = []; batch = first ∷ second ∷ [] }

abbrev handed : Queue eng
handed = record taken {
  proposer = (apply_batch_direct eng (proposals (first ∷ second ∷ [])) embedded).1;
  batch = [];
  delivered =
      deliver (first ∷ second ∷ [])
        (apply_batch_direct eng (proposals (first ∷ second ∷ [])) embedded).0;
}

both_sent : Runs eng embedded (first ∷ second ∷ []) waiting
unfolding step new_queue
both_sent = next (submit second) one_sent refl
  where
    one_sent : Runs eng embedded (first ∷ []) (record waiting { submit_ch = first ∷ [] })
    one_sent = next (submit first) start refl

both_taken : Runs eng embedded (first ∷ second ∷ []) taken
unfolding step flush
both_taken = next drain_end (next drain_one (next receive both_sent refl) refl) refl

run : Runs eng embedded (first ∷ second ∷ []) handed
unfolding step flush
run = next tick both_taken refl

both_applied : handed.delivered ≡ (1, applied_ok) ∷ (2, applied_ok) ∷ []
unfolding direct_program deliver proposals
both_applied = refl

Runs-groups_example :
    (groups : List (List Entry)) × (first ∷ second ∷ []
      ≡ concat groups ++ (handed.batch ++ handed.submit_ch))
    × (apply_groups eng groups embedded ≡ (handed.delivered, handed.proposer))
    × (tickets handed.delivered ≡ tickets (concat groups))
    × All IsSized groups
    × (length handed.batch ≤ max_batch_size)
Runs-groups_example = Runs-groups eng embedded run

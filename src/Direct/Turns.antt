-- ===== src/Direct/Turns.antt =====
-- The steps of the direct proposer's queue, whatever their order.
use mathlib.Core.Path.{subst}
use dpx.Base.{
  ℕ, ◌≤◌, true, false, not, ◌&&◌, ◌||◌, ltb, leb, ◌==◌, length, ◌++◌, List, [], ◌∷◌, some, ◌≡◌,
  refl, ap, sym, ◌∙◌, All, append-nil, arith, Bool-cases, inl, inr,
}
use dpx.Engine.{StorageEngine}
use dpx.Fsm.{ApplyResult}
use dpx.Direct.{Direct}
use dpx.Direct.Queue.{
  Entry, Queue, new_queue, flush, after_drain, step, Event, submit, receive, drain_one, drain_end,
  tick, finish, shutdown, sent_by, Runs, start, next, max_batch_size, submit_buf_size,
}
use dpx.Direct.Handed.{apply_groups, apply_groups-tickets, concat, tickets}
use dpx.Direct.Served.{
  IsSized, IsServed, with_flags, flush-IsServed, Good, when-some, some-eq, take_entry-Good,
  sent_more,
}

module _ (eng : StorageEngine) (d : Direct eng) where
  flush-Good :
      (sent : List Entry) (q : Queue eng) → IsServed eng d sent q → Good eng d sent (flush eng q)
  flush-Good sent q s =
      let (s', empty) = flush-IsServed eng d sent q s in (s', λ idle. omega (arith, empty))

  after_drain-Good :
      (sent : List Entry) (q : Queue eng)
      → IsServed eng d sent q
      → Good eng d sent (after_drain eng q)
  after_drain-Good sent q s =
      let idle = with_flags eng d sent q false q.closed q.stopped s in
      elim (Bool-cases (leb max_batch_size (length q.batch))) [
        | inl full ↦ rw full (flush-Good sent (record q { draining = false }) idle)
        | inr room ↦ rw room (idle, λ _. ground (arith, room))
      ]

  unsent :
      (sent : List Entry) (q x : Queue eng) → x ≡ q → Good eng d sent x → Good eng d (sent ++ []) q
  unsent sent q x e g =
      subst (λ l. Good eng d l q) (sym (append-nil sent)) (subst (Good eng d sent) e g)

  step-Good :
      (e : Event) (sent : List Entry) (q q' : Queue eng)
      → Good eng d sent q
      → step eng e q ≡ some q'
      → Good eng d (sent ++ sent_by eng e) q'
  unfolding step
  step-Good (submit e) sent q q' (s, w) h =
      let (room, same) = when-some eng d (ltb (length q.submit_ch) submit_buf_size) _ q' h in
      subst (Good eng d (sent ++ (e ∷ []))) (some-eq eng d _ q' same)
        (sent_more eng d sent q e (ground (arith, room)) s, w)
  step-Good receive sent q q' (s, w) h =
      let (free, same) = when-some eng d (not q.draining && not q.stopped) _ q' h in
      unsent sent q' q' refl
        (take_entry-Good eng d sent q q.submit_ch q' refl (w (ground (arith, free))) s same)
  step-Good drain_one sent q q' (s, w) h =
      let (less, same) =
        when-some eng d (q.draining && ltb (length q.batch) max_batch_size) _ q' h in
      unsent sent q' q' refl
        (take_entry-Good eng d sent q q.submit_ch q' refl (ground (arith, less)) s same)
  step-Good drain_end sent q q' (s, w) h =
      let (_, same) =
        when-some eng d
          (q.draining && ((length q.submit_ch == 0) || leb max_batch_size (length q.batch))) _ q'
          h in
      unsent sent q' (after_drain eng q) (some-eq eng d _ q' same) (after_drain-Good sent q s)
  step-Good tick sent q q' (s, w) h =
      let (_, same) = when-some eng d (not q.draining && not q.stopped) _ q' h in
      unsent sent q' (flush eng q) (some-eq eng d _ q' same) (flush-Good sent q s)
  step-Good finish sent q q' (s, w) h =
      let (_, same) = when-some eng d (q.closed && (not q.draining && not q.stopped)) _ q' h in
      let f : Queue eng = flush eng q in
      let (s', w') = flush-Good sent q s in
      unsent sent q' (record f { stopped = true }) (some-eq eng d _ q' same)
        (with_flags eng d sent f f.draining f.closed true s', w')
  step-Good shutdown sent q q' (s, w) h =
      unsent sent q' (record q { closed = true }) (some-eq eng d _ q' h)
        (with_flags eng d sent q q.draining true q.stopped s, w)

  Runs-Good : {sent : List Entry} {q : Queue eng} → Runs eng d sent q → Good eng d sent q
  unfolding new_queue concat apply_groups
  Runs-Good start = (
    record {
      groups = [];
      in_order = refl;
      applied = refl;
      sized = tt;
      bounded = omega arith;
      room = omega arith;
    },
    λ idle. omega arith,
  )
  Runs-Good (next e r h) = step-Good e _ _ _ (Runs-Good r) h

  -- Whatever the order in which callers send, the loop receives and its timer ticks, the entries that
  -- have been sent are, in the order in which they were sent and each once, in the groups that have
  -- been applied one after the other, in the batch and in the channel; no group and no batch has more
  -- than 2048 entries, and the results that have been delivered are those of the groups, one for each
  -- of their callers.
  pub Runs-groups :
      {sent : List Entry} {q : Queue eng}
      → Runs eng d sent q
      → (groups : List (List Entry)) × (sent ≡ concat groups ++ (q.batch ++ q.submit_ch))
        × (apply_groups eng groups d ≡ (q.delivered, q.proposer))
        × (tickets q.delivered ≡ tickets (concat groups))
        × All IsSized groups
        × (length q.batch ≤ max_batch_size)
  Runs-groups r =
      let s = (Runs-Good r).0 in
      (
        s.groups,
        s.in_order,
        s.applied,
        sym (ap (λ (x : List (ℕ × ApplyResult) × Direct eng). tickets x.0) s.applied)
            ∙ apply_groups-tickets eng s.groups d,
        s.sized,
        s.bounded,
      )

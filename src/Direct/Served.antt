-- ===== src/Direct/Served.antt =====
-- What holds of the direct proposer's queue between two steps of its loop and its callers.
use mathlib.Core.Path.{subst}
use dpx.Base.{
  ℕ, ◌<◌, ◌≤◌, Bool, true, false, ◌==◌, length, ◌++◌, List, [], ◌∷◌, Option, some, ◌≡◌, refl, ap,
  sym, ◌∙◌, All, All-append, append_assoc, length-append, arith, Bool-cases, inl, inr,
}
use dpx.Engine.{StorageEngine}
use dpx.Fsm.{ApplyResult}
use dpx.Direct.{Direct, apply_batch_direct}
use dpx.Direct.Queue.{
  Entry, Queue, deliver, proposals, hand_over, flush, take_entry, when, max_batch_size,
  submit_buf_size,
}
use dpx.Direct.Handed.{apply_groups, apply_groups-snoc, concat, concat-snoc}

abbrev pub IsSized : List Entry → Type 0
IsSized g = (0 < length g) × (length g ≤ max_batch_size)

module _ (eng : StorageEngine) (d : Direct eng) where
  -- The entries that have been sent are, in order, in the groups that have been applied, in the batch
  -- and in the channel; the results and the proposer are what the groups make.
  pub record IsServed (sent : List Entry) (q : Queue eng) : Type 0 where
    pub groups : List (List Entry)
    pub in_order : sent ≡ concat groups ++ (q.batch ++ q.submit_ch)
    pub applied : apply_groups eng groups d ≡ (q.delivered, q.proposer)
    pub sized : All IsSized groups
    pub bounded : length q.batch ≤ max_batch_size
    pub room : length q.submit_ch ≤ submit_buf_size

  hand_over-IsServed :
      (sent : List Entry) (q : Queue eng)
      → 0 < length q.batch
      → IsServed sent q
      → IsServed sent (hand_over eng q)
  hand_over-IsServed sent q some' s = record {
    groups = s.groups ++ (q.batch ∷ []);
    in_order =
        s.in_order
        ∙ sym (append_assoc (concat s.groups) q.batch q.submit_ch)
        ∙ ap (λ l. l ++ q.submit_ch) (sym (concat-snoc s.groups q.batch));
    applied =
        apply_groups-snoc eng s.groups q.batch d
        ∙ ap
            (λ (x : List (ℕ × ApplyResult) × Direct eng). (
              x.0 ++ deliver q.batch (apply_batch_direct eng (proposals q.batch) x.1).0,
              (apply_batch_direct eng (proposals q.batch) x.1).1,
            ))
            s.applied;
    sized = All-append IsSized s.groups (q.batch ∷ []) s.sized ((some', s.bounded), tt);
    bounded = omega arith;
    room = s.room;
  }

  -- The flags of a queue do not matter.
  pub with_flags :
      (sent : List Entry) (q : Queue eng) (a b c : Bool)
      → IsServed sent q
      → IsServed sent (record q { draining = a; closed = b; stopped = c })
  with_flags sent q a b c s = record {
    groups = s.groups;
    in_order = s.in_order;
    applied = s.applied;
    sized = s.sized;
    bounded = s.bounded;
    room = s.room;
  }

  pub flush-IsServed :
      (sent : List Entry) (q : Queue eng)
      → IsServed sent q
      → IsServed sent (flush eng q) × (length (flush eng q).batch ≡ 0)
  unfolding flush
  flush-IsServed sent q s = elim (Bool-cases (length q.batch == 0)) [
    | inl empty ↦ rw empty (s, ground (arith, empty))
    | inr some' ↦ rw some' (hand_over-IsServed sent q (ground (arith, some')) s, refl)
  ]

  -- Outside the inner loop, the batch is not full.
  abbrev pub Waits : Queue eng → Type 0
  Waits q = q.draining ≡ false → length q.batch < max_batch_size

  abbrev pub Good : List Entry → Queue eng → Type 0
  Good sent q = IsServed sent q × Waits q

  pub when-some :
      (b : Bool) (o : Option (Queue eng)) (q : Queue eng)
      → when eng b o ≡ some q
      → (b ≡ true) × (o ≡ some q)
  when-some true o q h = (refl, h)
  when-some false o q h = absurd (ground (arith, h))

  pub some-eq : (x y : Queue eng) → some x ≡ some y → x ≡ y
  some-eq x y h = cc

  pub take_entry-Good :
      (sent : List Entry) (q : Queue eng) (l : List Entry) (q' : Queue eng)
      → q.submit_ch ≡ l
      → length q.batch < max_batch_size
      → IsServed sent q
      → take_entry eng q l ≡ some q'
      → Good sent q'
  take_entry-Good sent q [] q' e less s h = absurd (ground (arith, h))
  take_entry-Good sent q (x ∷ rest) q' e less s h = subst (Good sent) (some-eq _ q' h) (
    record {
      groups = s.groups;
      in_order =
          s.in_order
          ∙ ap (λ l. concat s.groups ++ (q.batch ++ l)) e
          ∙ ap (λ l. concat s.groups ++ l) (sym (append_assoc q.batch (x ∷ []) rest));
      applied = s.applied;
      sized = s.sized;
      bounded = omega (arith, length-append q.batch (x ∷ []));
      room = omega (arith, ap (λ (l : List Entry). length l) e, s.room);
    },
    λ idle. absurd (ground (arith, idle)),
  )

  pub sent_more :
      (sent : List Entry) (q : Queue eng) (e : Entry)
      → length q.submit_ch < submit_buf_size
      → IsServed sent q
      → IsServed (sent ++ (e ∷ [])) (record q { submit_ch = q.submit_ch ++ (e ∷ []) })
  sent_more sent q e less s = record {
    groups = s.groups;
    in_order =
        ap (λ l. l ++ (e ∷ [])) s.in_order
        ∙ append_assoc (concat s.groups) (q.batch ++ q.submit_ch) (e ∷ [])
        ∙ ap (λ l. concat s.groups ++ l) (append_assoc q.batch q.submit_ch (e ∷ []));
    applied = s.applied;
    sized = s.sized;
    bounded = s.bounded;
    room = omega (arith, length-append q.submit_ch (e ∷ []));
  }

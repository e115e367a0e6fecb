-- ===== src/Watch/Safety.antt =====
-- Any calls on the watchers, with goroutines that end in between.
use dpx.Base.{
  ℕ, ◌≤◌, Bytes, true, ◌≡◌, refl, sym, ◌∙◌, length, List, some, Bool-cases, inl, inr, arith, ◌==◌,
  ok,
}
use mathlib.Core.Path.{subst}
use dpx.Proposal.{WriteEntry}
use dpx.Watch.{
  watch_chan_buf, Watchers, new_watchers, Call, register, unregister, close_all, notify_batch,
  receive,
}
use dpx.Watch.Open.{IsValid, Succeeds, notify_each-Succeeds}
use dpx.Watch.Register.{if_true, if_false, register-Succeeds}
use dpx.Watch.Removal.{unregister-Succeeds}

close_all-Succeeds : (w : Watchers) → IsValid w → Succeeds (close_all w)
unfolding close_all
close_all-Succeeds w v = elim (Bool-cases w.closed) [
  | inl over ↦ (w, if_true w.closed _ _ over, v)
  | inr on ↦ (
    record w { closed = true; done_closed = true },
    if_false w.closed _ _ on ∙ if_false w.done_closed _ _ (v.done_once ∙ on),
    record {
      homes = v.homes;
      distinct = v.distinct;
      open_waiting = v.open_waiting;
      fresh = v.fresh;
      bounded = v.bounded;
      done_once = refl;
    },
  )
]

receive-IsValid : (c : ℕ) (w : Watchers) → IsValid w → IsValid (receive c w)
receive-IsValid c w v = record {
  homes = v.homes;
  distinct = v.distinct;
  open_waiting = v.open_waiting;
  fresh = v.fresh;
  bounded = λ x. ground (arith, v.bounded x, v.bounded c);
  done_once = v.done_once;
}

notify_batch-Succeeds :
    (es : List WriteEntry) (w : Watchers) → IsValid w → Succeeds (notify_batch es w)
unfolding notify_batch
notify_batch-Succeeds es w v = elim (Bool-cases (length w.watches == 0)) [
  | inl none_there ↦ (w, if_true (length w.watches == 0) _ _ none_there, v)
  | inr some_there ↦
      let (w', told, v') = notify_each-Succeeds es w v in
      (w', if_false (length w.watches == 0) _ _ some_there ∙ told, v')
]

-- What may come next: a call, the end of a goroutine that waits, or a receiver.
pub data Step (w : Watchers) : Call Watchers → Type 0 where
  registers : (prefix : Bytes) → Step w (register prefix w).1
  ends : (c : ℕ) (prefix : Bytes) → w.waiting c ≡ some prefix → Step w (unregister c prefix w)
  closes : Step w (close_all w)
  notifies : (es : List WriteEntry) → Step w (notify_batch es w)
  receives : (c : ℕ) → Step w (ok (receive c w))

pub data Reachable : Watchers → Type 0 where
  at_first : Reachable new_watchers
  then_next : {w w' : Watchers} → Reachable w → Step w (ok w') → Reachable w'

Step-Succeeds : {w : Watchers} {r : Call Watchers} → Step w r → IsValid w → Succeeds r
Step-Succeeds {w} (registers prefix) v = register-Succeeds prefix w v
Step-Succeeds {w} (ends c prefix here) v = unregister-Succeeds c prefix w v here
Step-Succeeds {w} closes v = close_all-Succeeds w v
Step-Succeeds {w} (notifies es) v = notify_batch-Succeeds es w v
Step-Succeeds {w} (receives c) v = (receive c w, refl, receive-IsValid c w v)

abbrev back : Watchers → Call Watchers
back w = ok w

ok_same : (a b : Watchers) → back a ≡ back b → a ≡ b
ok_same a b h = cc

Reachable-IsValid : {w : Watchers} → Reachable w → IsValid w
Reachable-IsValid at_first = record {
  homes = tt;
  distinct = tt;
  open_waiting = λ c p h. refl;
  fresh = λ c later. (refl, refl);
  bounded = λ c. omega arith;
  done_once = refl;
}
Reachable-IsValid (then_next {w} {w'} before st) =
    let (w1, same, v) = Step-Succeeds st (Reachable-IsValid before) in
    subst IsValid (sym (ok_same w' w1 same)) v

-- No call of the watchers panics: after any calls, ends of goroutines and receives, whatever comes
-- next neither sends to a closed channel nor closes one, or `done`, twice, and leaves no channel
-- with more messages than its buffer holds.
pub calls_never_panic :
    {w : Watchers} {r : Call Watchers}
    → Reachable w
    → Step w r
    → (w' : Watchers) × (r ≡ ok w') × ((c : ℕ) → w'.pending c ≤ watch_chan_buf)
calls_never_panic before st =
    let (w', same, v) = Step-Succeeds st (Reachable-IsValid before) in (w', same, v.bounded)

-- ===== src/Watch/Tests.antt =====
-- One watcher of the prefix `a`, and a write behind it.
use dpx.Base.{ℕ, ◌≤◌, ◌≡◌, refl, List, [], ◌∷◌, some, lookup, insert, ok, ◌=ᵇ◌}
use dpx.Proposal.{WriteEntry, op_set}
use dpx.Watch.{
  watch_chan_buf, Watchers, new_watchers, chans_of, close_chan, register, remove_chan, delete_watch,
  unregister, close_all, send, send_all, has_prefix, notify_loop, notify, notify_each, notify_batch,
  update,
}
use dpx.Watch.Safety.{Reachable, at_first, then_next, registers, notifies, calls_never_panic}

watch_program : Unit {0}
unfolding chans_of close_chan register remove_chan delete_watch unregister close_all send send_all
    has_prefix notify_loop notify notify_each notify_batch lookup insert ◌=ᵇ◌
watch_program = tt

abbrev one_watch : Watchers
one_watch = record new_watchers {
  watches = ((97 ∷ []), 0 ∷ []) ∷ [];
  next = 1;
  waiting = update 0 (some (97 ∷ [])) new_watchers.waiting;
}

one_watch-Reachable : Reachable one_watch
unfolding watch_program
one_watch-Reachable = then_next at_first (registers (97 ∷ []))

abbrev write_ab : List WriteEntry
write_ab = record { op = op_set; key = 97 ∷ 98 ∷ []; value = [] } ∷ []

told : (w' : Watchers) × (notify_batch write_ab one_watch ≡ ok w') × (w'.pending 0 ≡ 1)
unfolding watch_program
told = (record one_watch { pending = update 0 1 new_watchers.pending }, refl, refl)

calls_never_panic_example :
    (w' : Watchers) × (notify_batch write_ab one_watch ≡ ok w')
    × ((c : ℕ) → w'.pending c ≤ watch_chan_buf)
calls_never_panic_example = calls_never_panic one_watch-Reachable (notifies write_ab)

-- ===== src/Watch.antt =====
-- watch.go: channels that are told of writes to keys with a prefix. A channel is a number; what it
-- holds and whether it is closed are functions of the number. Go panics on a send to a closed
-- channel and on closing one twice: `panic`. A call is one step, as the lock makes it, and so is the
-- clean-up of a channel's goroutine.
pub mod Open
pub mod Register
pub mod Removal
pub mod Safety
mod Tests
use dpx.Base.{
  ℕ, ◌+◌, ◌-◌, Bytes, Bool, true, false, ltb, ◌==◌, leb, length, take, List, [], ◌∷◌, Option, none,
  some, if◌then◌else◌, Map, insert, lookup, ◌++◌, Result, ok, panic, ◌>>=◌, ◌=ᵇ◌, ◌&&◌,
}
use dpx.Proposal.{WriteEntry}

abbrev pub watch_chan_buf : ℕ
watch_chan_buf = 256

-- `watcherMap`, its channels, and the goroutines that wait: for a channel, the prefix of it.
pub record Watchers : Type 0 where
  pub watches : Map (List ℕ)
  pub closed : Bool
  pub done_closed : Bool
  pub next : ℕ
  pub pending : ℕ → ℕ
  pub is_shut : ℕ → Bool
  pub waiting : ℕ → Option Bytes
  pub dropped : ℕ

-- `newWatcherMap`
abbrev pub new_watchers : Watchers
new_watchers = record {
  watches = [];
  closed = false;
  done_closed = false;
  next = 0;
  pending = λ c. 0;
  is_shut = λ c. false;
  waiting = λ c. none;
  dropped = 0;
}

abbrev pub or_no_chans : Option (List ℕ) → List ℕ
or_no_chans none = []
or_no_chans (some cs) = cs

unfoldable pub chans_of : Map (List ℕ) → Bytes → List ℕ
chans_of m prefix = or_no_chans (lookup prefix m)

-- A call that panics or comes back.
abbrev pub Call : Type 0 → Type 0
Call A = Result ⊥ A

abbrev pub update {ℓ} : {A : Type ℓ} → ℕ → A → (ℕ → A) → ℕ → A
update c a f x = if x == c then a else f x

-- `close(ch)`
unfoldable pub close_chan : ℕ → Watchers → Call Watchers
close_chan c w = if w.is_shut c then panic else ok (record w { is_shut = update c true w.is_shut })

-- `register`: the new channel, and the state with its goroutine waiting.
unfoldable pub register : Bytes → Watchers → ℕ × Call Watchers
register prefix w =
    let c = w.next in
    let made : Watchers = record w { next = c + 1 } in
    (
      c,
      if w.closed
          then close_chan c made
          else ok (record made {
            watches = insert prefix (chans_of w.watches prefix ++ (c ∷ [])) w.watches;
            waiting = update c (some prefix) w.waiting;
          }),
    )

-- The loop that takes the channel out: the first that is the same.
unfoldable pub remove_chan : ℕ → List ℕ → List ℕ
remove_chan c [] = []
remove_chan c (x ∷ xs) = if x == c then xs else x ∷ remove_chan c xs

-- `delete(w.watches, prefix)`
unfoldable pub delete_watch : Bytes → Map (List ℕ) → Map (List ℕ)
delete_watch prefix [] = []
delete_watch prefix ((p, cs) ∷ m) =
    let rest = delete_watch prefix m in if p =ᵇ prefix then rest else (p, cs) ∷ rest

-- What the goroutine of the channel `c` does once its context, or the map, is done.
unfoldable pub unregister : ℕ → Bytes → Watchers → Call Watchers
unregister c prefix w =
    let left = remove_chan c (chans_of w.watches prefix) in
    close_chan c (record w {
      watches =
          if length left == 0 then delete_watch prefix w.watches else insert prefix left w.watches;
      waiting = update c none w.waiting;
    })

unfoldable pub close_all : Watchers → Call Watchers
close_all w =
    if w.closed
    then ok w
    else if w.done_closed
    then panic
    else ok (record w { closed = true; done_closed = true })

-- The `select` of `notify`: a full channel drops the message.
unfoldable pub send : ℕ → Watchers → Call Watchers
send c w =
    if w.is_shut c
    then panic
    else if ltb (w.pending c) watch_chan_buf
    then ok (record w { pending = update c (w.pending c + 1) w.pending })
    else ok (record w { dropped = w.dropped + 1 })

unfoldable pub send_all : List ℕ → Watchers → Call Watchers
send_all [] w = ok w
send_all (c ∷ cs) w = do w' ← send c w; send_all cs w'

-- `strings.HasPrefix`
unfoldable pub has_prefix : Bytes → Bytes → Bool
has_prefix key prefix = leb (length prefix) (length key) && (take (length prefix) key =ᵇ prefix)

-- The loop over the map.
unfoldable pub notify_loop : Bytes → Map (List ℕ) → Watchers → Call Watchers
notify_loop key [] w = ok w
notify_loop key ((prefix, cs) ∷ m) w = do
  w' ← if has_prefix key prefix then send_all cs w else ok w
  notify_loop key m w'

unfoldable pub notify : Bytes → Watchers → Call Watchers
notify key w = if w.closed then ok w else notify_loop key w.watches w

unfoldable pub notify_each : List WriteEntry → Watchers → Call Watchers
notify_each [] w = ok w
notify_each (e ∷ es) w = do w' ← notify e.key w; notify_each es w'

-- `NotifyBatch`
unfoldable pub notify_batch : List WriteEntry → Watchers → Call Watchers
notify_batch writes w = if length w.watches == 0 then ok w else notify_each writes w

-- A receiver takes a message.
abbrev pub receive : ℕ → Watchers → Watchers
receive c w = record w { pending = update c (w.pending c - 1) w.pending }

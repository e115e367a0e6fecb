-- ===== src/Watch/Open.antt =====
-- What makes the watchers valid, and notification.
use dpx.Base.{
  ℕ, ◌≤◌, ◌+◌, Bytes, false, ◌≡◌, refl, sym, ◌∙◌, All, All-map, Distinct, List, [], ◌∷◌, Option,
  none, some, Bool-cases, inl, inr, arith, Map, ◌==◌, ltb, ok,
}
use mathlib.Core.Path.{subst}
use dpx.Proposal.{WriteEntry}
use dpx.Watch.{
  watch_chan_buf, Watchers, Call, update, send, send_all, has_prefix, notify_loop, notify,
  notify_each,
}

-- No channel twice.
abbrev pub NoTwice : List ℕ → Type 0
NoTwice [] = Unit
NoTwice (c ∷ cs) = All (λ (x : ℕ). (x == c) ≡ false) cs × NoTwice cs

-- The goroutines of the channels of a prefix wait, and know it as theirs.
abbrev pub IsHome : (ℕ → Option Bytes) → Bytes × List ℕ → Type 0
IsHome waiting (p, cs) = All (λ c. waiting c ≡ some p) cs × NoTwice cs

pub record IsValid (w : Watchers) : Type 0 where
  pub homes : All (IsHome w.waiting) w.watches
  pub distinct : Distinct w.watches
  pub open_waiting : (c : ℕ) (p : Bytes) → w.waiting c ≡ some p → w.is_shut c ≡ false
  pub fresh : (c : ℕ) → w.next ≤ c → (w.is_shut c ≡ false) × (w.waiting c ≡ none)
  pub bounded : (c : ℕ) → w.pending c ≤ watch_chan_buf
  pub done_once : w.done_closed ≡ w.closed

-- The call comes back, in a valid state.
abbrev pub Succeeds : Call Watchers → Type 0
Succeeds r = (w' : Watchers) × (r ≡ ok w') × IsValid w'

-- It changes nothing but what the channels hold.
abbrev Sends : Watchers → Watchers → Type 0
Sends w w' = (w'.watches ≡ w.watches) × (w'.waiting ≡ w.waiting) × (w'.is_shut ≡ w.is_shut)

abbrev SendsOk : Watchers → Call Watchers → Type 0
SendsOk w r = (w' : Watchers) × (r ≡ ok w') × IsValid w' × Sends w w'

send-SendsOk : (c : ℕ) (w : Watchers) → IsValid w → w.is_shut c ≡ false → SendsOk w (send c w)
unfolding send
send-SendsOk c w v open_yet = elim (Bool-cases (ltb (w.pending c) watch_chan_buf)) [
  | inl room ↦
      rw (open_yet, room)
        (
          record w { pending = update c (w.pending c + 1) w.pending },
          refl,
          record {
            homes = v.homes;
            distinct = v.distinct;
            open_waiting = v.open_waiting;
            fresh = v.fresh;
            bounded = λ x. ground (arith, room, v.bounded x, v.bounded c);
            done_once = v.done_once;
          },
          (refl, refl, refl),
        )
  | inr full ↦
      rw (open_yet, full)
        (
          record w { dropped = w.dropped + 1 },
          refl,
          record {
            homes = v.homes;
            distinct = v.distinct;
            open_waiting = v.open_waiting;
            fresh = v.fresh;
            bounded = v.bounded;
            done_once = v.done_once;
          },
          (refl, refl, refl),
        )
]

send_all-SendsOk :
    (cs : List ℕ) (w : Watchers)
    → IsValid w
    → All (λ c. w.is_shut c ≡ false) cs
    → SendsOk w (send_all cs w)
unfolding send_all
send_all-SendsOk [] w v h = (w, refl, v, (refl, refl, refl))
send_all-SendsOk (c ∷ cs) w v (h, hs) =
    let (w1, sent, v1, (same, same', same'')) = send-SendsOk c w v h in
    let (w2, rest, v2, (t, t', t'')) =
      send_all-SendsOk cs w1 v1 (subst (λ f. All (λ c. f c ≡ false) cs) (sym same'') hs) in
    (w2, rw sent rest, v2, (t ∙ same, t' ∙ same', t'' ∙ same''))

notify_loop-SendsOk :
    (key : Bytes) (m : Map (List ℕ)) (w : Watchers)
    → IsValid w
    → All (IsHome w.waiting) m
    → SendsOk w (notify_loop key m w)
unfolding notify_loop
notify_loop-SendsOk key [] w v h = (w, refl, v, (refl, refl, refl))
notify_loop-SendsOk key ((p, cs) ∷ m) w v ((here, once), hs) =
    let open_now = All-map (λ c e. v.open_waiting c p e) cs here in
    elim (Bool-cases (has_prefix key p)) [
      | inr miss ↦ rw miss (notify_loop-SendsOk key m w v hs)
      | inl hit ↦
          let (w1, sent, v1, (same, same', same'')) = send_all-SendsOk cs w v open_now in
          let (w2, rest, v2, (t, t', t'')) =
            notify_loop-SendsOk key m w1 v1 (subst (λ f. All (IsHome f) m) (sym same') hs) in
          (w2, rw (hit, sent) rest, v2, (t ∙ same, t' ∙ same', t'' ∙ same''))
    ]

notify-Succeeds : (key : Bytes) (w : Watchers) → IsValid w → Succeeds (notify key w)
unfolding notify
notify-Succeeds key w v = elim (Bool-cases w.closed) [
  | inl over ↦ simp over (w, refl, v)
  | inr on ↦
      let (w', done, v', _) = notify_loop-SendsOk key w.watches w v v.homes in
      simp on (w', done, v')
]

pub notify_each-Succeeds :
    (es : List WriteEntry) (w : Watchers) → IsValid w → Succeeds (notify_each es w)
unfolding notify_each
notify_each-Succeeds [] w v = (w, refl, v)
notify_each-Succeeds (e ∷ es) w v =
    let (w1, told, v1) = notify-Succeeds e.key w v in
    let (w2, rest, v2) = notify_each-Succeeds es w1 v1 in (w2, rw told rest, v2)

-- ===== src/Watch/Register.antt =====
-- Registration, and the entries of the map.
use dpx.Base.{
  ℕ, ◌≤◌, ◌+◌, Bytes, Bool, true, false, ◌≡◌, refl, sym, ◌∙◌, All, All-map, All-append, All-insert,
  Distinct-insert, lookup-All, List, [], ◌∷◌, ◌++◌, Option, none, some, Option-cases, Bool-cases,
  inl, inr, if◌then◌else◌, arith, Map, lookup, insert, ◌==◌, ==_iff,
}
use mathlib.Core.Path.{subst}
use dpx.Watch.{Watchers, chans_of, update, close_chan, register}
use dpx.Watch.Open.{IsHome, NoTwice, IsValid, Succeeds}

pub if_true : {A : Type 0} (b : Bool) (x y : A) → b ≡ true → (if b then x else y) ≡ x
if_true b x y h = rw h refl

pub if_false : {A : Type 0} (b : Bool) (x y : A) → b ≡ false → (if b then x else y) ≡ y
if_false b x y h = rw h refl

-- The entries for other prefixes, when a goroutine is recorded anew.
pub update-kept :
    (f : ℕ → Option Bytes) (c x : ℕ) (a : Option Bytes) (p : Bytes)
    → (f c ≡ some p → ⊥)
    → f x ≡ some p
    → update c a f x ≡ some p
update-kept f c x a p other h = elim (Bool-cases (x == c)) [
  | inl same ↦ absurd (other (subst (λ y. f y ≡ some p) ((==_iff x c).0 same) h))
  | inr away ↦ rw away h
]

pub IsHome-update :
    (f : ℕ → Option Bytes) (c : ℕ) (a : Option Bytes) (p : Bytes) (cs : List ℕ)
    → (f c ≡ some p → ⊥)
    → IsHome f (p, cs)
    → IsHome (update c a f) (p, cs)
IsHome-update f c a p cs other (here, once) =
    (All-map (λ x h. update-kept f c x a p other h) cs here, once)

pub IsHome-chans_of :
    (f : ℕ → Option Bytes) (p : Bytes) (m : Map (List ℕ))
    → All (IsHome f) m
    → IsHome f (p, chans_of m p)
unfolding chans_of
IsHome-chans_of f p m h = elim (Option-cases (lookup p m)) [
  | inl e ↦ rw e (tt, tt)
  | inr (cs, e) ↦ rw e (lookup-All (IsHome f) p cs m e h)
]

NoTwice-append :
    (c : ℕ) (cs : List ℕ)
    → All (λ (x : ℕ). (c == x) ≡ false) cs
    → NoTwice cs
    → NoTwice (cs ++ (c ∷ []))
NoTwice-append c [] h n = (tt, tt)
NoTwice-append c (x ∷ cs) (h, hs) (n, ns) =
    (All-append (λ (y : ℕ). (y == x) ≡ false) cs (c ∷ []) n (h, tt), NoTwice-append c cs hs ns)

-- A number that is not waiting takes its place behind the others of a prefix.
IsHome-append :
    (f : ℕ → Option Bytes) (c : ℕ) (p : Bytes) (cs : List ℕ)
    → f c ≡ none
    → IsHome f (p, cs)
    → IsHome (update c (some p) f) (p, cs ++ (c ∷ []))
IsHome-append f c p cs idle (here, once) =
    let other : f c ≡ some p → ⊥ = λ e. ground (arith, e, idle) in
    let apart : All (λ (x : ℕ). (c == x) ≡ false) cs =
      All-map
        (λ x h. elim (Bool-cases (c == x)) [
          | inr away ↦ away
          | inl same ↦ absurd (other (subst (λ y. f y ≡ some p) (sym ((==_iff c x).0 same)) h))
        ])
        cs here in
    (
      All-append (λ x. update c (some p) f x ≡ some p) cs (c ∷ [])
          (IsHome-update f c (some p) p cs other (here, once)).0
          (rw ((==_iff c c).1 refl) refl, tt),
      NoTwice-append c cs apart once,
    )

above_apart : (c x : ℕ) → c + 1 ≤ x → (x == c) ≡ false
above_apart c x later = ground (arith, later)

pub register-Succeeds : (prefix : Bytes) (w : Watchers) → IsValid w → Succeeds (register prefix w).1
unfolding register close_chan
register-Succeeds prefix w v =
    let c = w.next in
    let (open_yet, idle) = v.fresh c (omega arith) in
    let cs = chans_of w.watches prefix in
    elim (Bool-cases w.closed) [
      | inl over ↦ (
        record w { next = c + 1; is_shut = update c true w.is_shut },
        if_true w.closed _ _ over ∙ if_false (w.is_shut c) _ _ open_yet,
        record {
          homes = v.homes;
          distinct = v.distinct;
          open_waiting = λ x p h. elim (Bool-cases (x == c)) [
            | inl same ↦
                absurd
                  (ground (arith, idle, subst (λ y. w.waiting y ≡ some p) ((==_iff x c).0 same) h))
            | inr away ↦ rw away (v.open_waiting x p h)
          ];
          fresh = λ x later.
              (rw (above_apart c x later) (v.fresh x (omega arith)).0, (v.fresh x (omega arith)).1);
          bounded = v.bounded;
          done_once = v.done_once;
        },
      )
      | inr on ↦ (
        record w {
          next = c + 1;
          watches = insert prefix (cs ++ (c ∷ [])) w.watches;
          waiting = update c (some prefix) w.waiting;
        },
        if_false w.closed _ _ on,
        record {
          homes =
              All-insert (IsHome (update c (some prefix) w.waiting)) prefix (cs ++ (c ∷ []))
                w.watches
                (IsHome-append w.waiting c prefix cs idle
                  (IsHome-chans_of w.waiting prefix w.watches v.homes))
                v.distinct
                (All-map
                  (λ e h away.
                    IsHome-update w.waiting c (some prefix) e.0 e.1
                      (λ bad. ground (arith, bad, idle)) h)
                  w.watches v.homes);
          distinct = Distinct-insert prefix (cs ++ (c ∷ [])) w.watches v.distinct;
          open_waiting = λ x p h. elim (Bool-cases (x == c)) [
            | inl same ↦ subst (λ y. w.is_shut y ≡ false) (sym ((==_iff x c).0 same)) open_yet
            | inr away ↦ v.open_waiting x p (rw away at h)
          ];
          fresh = λ x later.
              ((v.fresh x (omega arith)).0, rw (above_apart c x later) (v.fresh x (omega arith)).1);
          bounded = v.bounded;
          done_once = v.done_once;
        },
      )
    ]

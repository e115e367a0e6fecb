-- ===== src/Watch/Removal.antt =====
-- The end of the goroutine of a channel.
use dpx.Base.{
  ℕ, Bytes, true, false, ◌≡◌, refl, sym, ◌∙◌, All, All-map, All-apply, All-insert, Distinct,
  Distinct-insert, length, List, [], ◌∷◌, Option, none, some, Bool-cases, inl, inr, if◌then◌else◌,
  arith, Map, lookup, insert, ◌==◌, ==_iff, ◌=ᵇ◌, =ᵇ_iff,
}
use mathlib.Core.Path.{subst}
use dpx.Watch.{Watchers, chans_of, update, close_chan, remove_chan, delete_watch, unregister}
use dpx.Watch.Open.{NoTwice, IsHome, IsValid, Succeeds}
use dpx.Watch.Register.{if_false, IsHome-update, IsHome-chans_of}

remove_chan-All : (P : ℕ → Type 0) (c : ℕ) (cs : List ℕ) → All P cs → All P (remove_chan c cs)
unfolding remove_chan
remove_chan-All P c [] h = tt
remove_chan-All P c (x ∷ xs) (h, hs) = elim (Bool-cases (x == c)) [
  | inl hit ↦ rw hit hs
  | inr away ↦ rw away (h, remove_chan-All P c xs hs)
]

remove_chan-NoTwice : (c : ℕ) (cs : List ℕ) → NoTwice cs → NoTwice (remove_chan c cs)
unfolding remove_chan
remove_chan-NoTwice c [] n = tt
remove_chan-NoTwice c (x ∷ xs) (n, ns) = elim (Bool-cases (x == c)) [
  | inl hit ↦ rw hit ns
  | inr away ↦
      rw away (remove_chan-All (λ (y : ℕ). (y == x) ≡ false) c xs n, remove_chan-NoTwice c xs ns)
]

-- The channel is gone: it was there once at most.
removed_apart :
    (c : ℕ) (cs : List ℕ) → NoTwice cs → All (λ (x : ℕ). (x == c) ≡ false) (remove_chan c cs)
unfolding remove_chan
removed_apart c [] n = tt
removed_apart c (x ∷ xs) (n, ns) = elim (Bool-cases (x == c)) [
  | inl hit ↦ rw hit (subst (λ y. All (λ (z : ℕ). (z == y) ≡ false) xs) ((==_iff x c).0 hit) n)
  | inr away ↦ rw away (away, removed_apart c xs ns)
]

IsHome-removed :
    (f : ℕ → Option Bytes) (c : ℕ) (a : Option Bytes) (p : Bytes) (cs : List ℕ)
    → IsHome f (p, cs)
    → IsHome (update c a f) (p, remove_chan c cs)
IsHome-removed f c a p cs (here, once) = (
  All-apply (λ (x : ℕ). (x == c) ≡ false) (λ x. update c a f x ≡ some p) (remove_chan c cs)
      (removed_apart c cs once)
      (All-map (λ x h away. rw away h) (remove_chan c cs)
        (remove_chan-All (λ x. f x ≡ some p) c cs here)),
  remove_chan-NoTwice c cs once,
)

delete_watch-All :
    (P : Bytes × List ℕ → Type 0) (prefix : Bytes) (m : Map (List ℕ))
    → All (λ (e : Bytes × List ℕ). (e.0 =ᵇ prefix) ≡ false → P e) m
    → All P (delete_watch prefix m)
unfolding delete_watch
delete_watch-All P prefix [] h = tt
delete_watch-All P prefix ((p, cs) ∷ m) (h, hs) = elim (Bool-cases (p =ᵇ prefix)) [
  | inl hit ↦ rw hit (delete_watch-All P prefix m hs)
  | inr away ↦ rw away (h away, delete_watch-All P prefix m hs)
]

delete_watch-lookup :
    (p prefix : Bytes) (m : Map (List ℕ))
    → lookup p m ≡ none
    → lookup p (delete_watch prefix m) ≡ none
unfolding delete_watch lookup
delete_watch-lookup p prefix [] h = refl
delete_watch-lookup p prefix ((q, cs) ∷ m) h = ground (arith, h, delete_watch-lookup p prefix m)

delete_watch-Distinct :
    (prefix : Bytes) (m : Map (List ℕ)) → Distinct m → Distinct (delete_watch prefix m)
unfolding delete_watch
delete_watch-Distinct prefix [] d = tt
delete_watch-Distinct prefix ((p, cs) ∷ m) (new, d) = elim (Bool-cases (p =ᵇ prefix)) [
  | inl hit ↦ rw hit (delete_watch-Distinct prefix m d)
  | inr away ↦ rw away (delete_watch-lookup p prefix m new, delete_watch-Distinct prefix m d)
]

some_same : (p q : Bytes) → some p ≡ some q → p ≡ q
some_same p q h = cc

none_is_not_some : (p : Bytes) → none ≡ some p → ⊥
none_is_not_some p h = ground (arith, h)

pub unregister-Succeeds :
    (c : ℕ) (prefix : Bytes) (w : Watchers)
    → IsValid w
    → w.waiting c ≡ some prefix
    → Succeeds (unregister c prefix w)
unfolding unregister close_chan
unregister-Succeeds c prefix w v here =
    let open_yet = v.open_waiting c prefix here in
    let cs = chans_of w.watches prefix in
    let left = remove_chan c cs in
    let waiting' = update c none w.waiting in
    let home : IsHome waiting' (prefix, left) =
      IsHome-removed w.waiting c none prefix cs
        (IsHome-chans_of w.waiting prefix w.watches v.homes) in
    let others : All (λ (e : Bytes × List ℕ). (e.0 =ᵇ prefix) ≡ false → IsHome waiting' e)
        w.watches =
      All-map
        (λ e h away.
          IsHome-update w.waiting c none e.0 e.1
            (λ bad.
              ground (arith, (=ᵇ_iff e.0 prefix).1 (some_same e.0 prefix (sym bad ∙ here)), away))
            h)
        w.watches v.homes in
    let watches' =
      if length left == 0 then delete_watch prefix w.watches else insert prefix left w.watches in
    (
      record w { watches = watches'; waiting = waiting'; is_shut = update c true w.is_shut },
      if_false (w.is_shut c) _ _ open_yet,
      record {
        homes = elim (Bool-cases (length left == 0)) [
          | inl empty ↦ rw empty (delete_watch-All (IsHome waiting') prefix w.watches others)
          | inr full ↦
              rw full (All-insert (IsHome waiting') prefix left w.watches home v.distinct others)
        ];
        distinct = elim (Bool-cases (length left == 0)) [
          | inl empty ↦ rw empty (delete_watch-Distinct prefix w.watches v.distinct)
          | inr full ↦ rw full (Distinct-insert prefix left w.watches v.distinct)
        ];
        open_waiting = λ x p h. elim (Bool-cases (x == c)) [
          | inl same ↦ absurd (none_is_not_some p (rw same at h))
          | inr away ↦ rw away (v.open_waiting x p (rw away at h))
        ];
        fresh = λ x later. elim (Bool-cases (x == c)) [
          | inl same ↦ absurd (
              none_is_not_some prefix (
                sym (subst (λ y. w.waiting y ≡ none) ((==_iff x c).0 same) (v.fresh x later).1)
                ∙ here))
          | inr away ↦ rw away (v.fresh x later)
        ];
        bounded = v.bounded;
        done_once = v.done_once;
      },
    )

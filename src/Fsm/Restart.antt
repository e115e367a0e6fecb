-- ===== src/Fsm/Restart.antt =====
-- `open` on the store of a state machine: which epochs come back after a restart.
use dpx.Base.{
  ℕ, ◌+◌, ◌<◌, Bytes, Bool, true, false, not, ◌&&◌, ◌≡◌, refl, ap, ◌∙◌, All, All-map, List, [], ◌∷◌,
  Option, none, some, length, drop, leb, arith, lookup, insert, lookup-insert, Bool-cases, inl, inr,
  ◌=ᵇ◌, =ᵇ_iff, if◌then◌else◌, ok, Distinct, Distinct-lookup, length-append,
}
use dpx.Codec.{EpochRecord, encode_epoch_record, decode_epoch_record, two64}
use dpx.Codec.Records.{decode-encode_epoch_record}
use dpx.Engine.{StorageEngine, version_prefix, version_key}
use dpx.Engine.Order.{◌≺◌, in_range, starts_with_of_between}
use dpx.Engine.Reserved.{version_key-eq}
use dpx.Fsm.{Epochs, Fsm, rebuild, open_fsm, sixteen_ff, raw_iter_end}
use dpx.Fsm.Recorded.{IsRecorded, stored}

-- The user's key of a version key.
abbrev user_key : Bytes → Bytes
user_key k = drop (length version_prefix) k

-- A pair of the scan: a version key, with the record of its key in the map.
abbrev IsVersion : Epochs → Bytes × Bytes → Type 0
IsVersion m (k, v) =
    (er : EpochRecord) × (k ≡ version_key (user_key k))
    × (lookup (user_key k) m ≡ some er)
    × (v ≡ encode_epoch_record er)
    × (er.epoch < two64)

abbrev is_empty_key : Bytes → Bool
is_empty_key u = leb (length u) 0

-- What the scan makes of a key: the record in the pairs, if there is one, else the old one.
abbrev recovered : Option Bytes → Option EpochRecord → Option EpochRecord
recovered none old = old
recovered (some v) old = decode_epoch_record v

abbrev Rebuilds : Epochs → List (Bytes × Bytes) → Epochs → Type 0
Rebuilds m pairs m' =
    (u : Bytes)
    → lookup u m' ≡ (
        if is_empty_key u
        then lookup u m
        else recovered (lookup (version_key u) pairs) (lookup u m))

version_key-length : (u : Bytes) → length (version_key u) ≡ 10 + length u
unfolding version_key
version_key-length u = omega (arith, length-append version_prefix u)

-- What the pair in front adds.
module _ (m : Epochs) (k v : Bytes) (rest : List (Bytes × Bytes)) (m' : Epochs) (er : EpochRecord)
    (named : k ≡ version_key (user_key k)) (new : lookup k rest ≡ none) where
  same_key : (u : Bytes) → (k =ᵇ version_key u) ≡ (user_key k =ᵇ u)
  same_key u = ap (λ j. j =ᵇ version_key u) named ∙ version_key-eq (user_key k) u

  length-named : length k ≡ 10 + length (user_key k)
  length-named = ap length named ∙ version_key-length (user_key k)

  skipped-Rebuilds : leb (length k) 10 ≡ true → Rebuilds m rest m' → Rebuilds m ((k, v) ∷ rest) m'
  unfolding lookup
  skipped-Rebuilds short spec u = elim (Bool-cases (user_key k =ᵇ u)) [
    | inr other ↦ rw (same_key u, other) (spec u)
    | inl e ↦
        let long = ap length ((=ᵇ_iff (user_key k) u).0 e) in
        let none_left : is_empty_key u ≡ true = ground (arith, length-named) in
        rw none_left (rw none_left at (spec u))
  ]

  read-Rebuilds :
      leb (length k) 10 ≡ false
      → decode_epoch_record v ≡ some er
      → Rebuilds (insert (user_key k) er m) rest m'
      → Rebuilds m ((k, v) ∷ rest) m'
  unfolding lookup
  read-Rebuilds full read spec u = elim (Bool-cases (user_key k =ᵇ u)) [
    | inr other ↦ rw (same_key u, other) (rw (lookup-insert (user_key k) u er m, other) at (spec u))
    | inl e ↦
        let long = ap length ((=ᵇ_iff (user_key k) u).0 e) in
        let some_left : is_empty_key u ≡ false = ground (arith, length-named) in
        let gone : lookup (version_key u) rest ≡ none =
          rw (← (=ᵇ_iff k (version_key u)).0 (same_key u ∙ e)) new in
        spec u
        ∙ rw (some_left, same_key u, e, gone, lookup-insert (user_key k) u er m, e, read) refl
  ]

rebuild_lem :
    (whole m : Epochs) (pairs : List (Bytes × Bytes))
    → All (IsVersion whole) pairs
    → Distinct pairs
    → (m' : Epochs) × (rebuild m pairs ≡ ok m') × Rebuilds m pairs m'
unfolding rebuild lookup
rebuild_lem whole m [] vs d = (m, refl, λ u. ground arith)
rebuild_lem whole m ((k, v) ∷ rest) ((er, named, found, same, small), vs) (new, d) =
    let read : decode_epoch_record v ≡ some er = rw same (decode-encode_epoch_record er small) in
    elim (Bool-cases (leb (length k) 10)) [
      | inl short ↦
          let (m', done, spec) = rebuild_lem whole m rest vs d in
          (m', rw short done, skipped-Rebuilds m k v rest m' er named new short spec)
      | inr full ↦
          let (m', done, spec) = rebuild_lem whole (insert (user_key k) er m) rest vs d in
          (m', rw (full, read) done, read-Rebuilds m k v rest m' er named new full read spec)
    ]

-- The keys whose epochs a restart can find: not empty, and below sixteen 0xFF bytes.
abbrev pub is_recoverable : Bytes → Bool
is_recoverable u = not (is_empty_key u) && (u ≺ sixteen_ff)

abbrev pub EpochsFit : Epochs → Type 0
EpochsFit m = (u : Bytes) (er : EpochRecord) → lookup u m ≡ some er → er.epoch < two64

below_nothing : (u : Bytes) → u ≺ [] ≡ false
unfolding ◌≺◌
below_nothing [] = refl
below_nothing (x ∷ u) = refl

in_range-version_key :
    (u : Bytes) → in_range version_prefix raw_iter_end (version_key u) ≡ u ≺ sixteen_ff
unfolding in_range version_key ◌≺◌ ◌=ᵇ◌
in_range-version_key u = rw (below_nothing u) refl

module _ (eng : StorageEngine) (f : Fsm eng) (recorded : IsRecorded eng f)
    (fit : EpochsFit f.key_epoch) where
  abbrev scanned : List (Bytes × Bytes)
  scanned = eng.raw_iter version_prefix raw_iter_end f.store

  record_of_stored :
      (o : Option EpochRecord) (v : Bytes)
      → some v ≡ stored o
      → (er : EpochRecord) × (o ≡ some er) × (v ≡ encode_epoch_record er)
  record_of_stored none v h = absurd (cc)
  record_of_stored (some er) v h = (er, refl, cc)

  scanned_one : (p : Bytes × Bytes) → lookup p.0 scanned ≡ some p.1 → IsVersion f.key_epoch p
  unfolding in_range
  scanned_one (k, v) h =
      let law = eng.lookup-raw_iter version_prefix raw_iter_end f.store k in
      let low : k ≺ version_prefix ≡ false = ground (arith, law) in
      let high : k ≺ raw_iter_end ≡ true = ground (arith, law) in
      let named : k ≡ version_key (user_key k) =
        unfold version_key in starts_with_of_between version_prefix sixteen_ff k low high in
      let held : some v ≡ eng.get f.store k = ground (arith, law) in
      let (er, found, same) =
        record_of_stored (lookup (user_key k) f.key_epoch) v
          (held ∙ ap (eng.get f.store) named ∙ recorded (user_key k)) in
      (er, named, found, same, fit (user_key k) er found)

  scanned-IsVersion : All (IsVersion f.key_epoch) scanned
  scanned-IsVersion =
      All-map (λ p h. scanned_one p h) scanned
        (Distinct-lookup scanned (eng.raw_iter-Distinct version_prefix raw_iter_end f.store))

  recovered-stored :
      (o : Option EpochRecord)
      → ((er : EpochRecord) → o ≡ some er → er.epoch < two64)
      → recovered (stored o) none ≡ o
  recovered-stored none small = refl
  recovered-stored (some er) small = decode-encode_epoch_record er (small er refl)

  lookup-scanned :
      (u : Bytes)
      → recovered (lookup (version_key u) scanned) none
        ≡ (if u ≺ sixteen_ff then lookup u f.key_epoch else none)
  lookup-scanned u =
      let back = recovered-stored (lookup u f.key_epoch) (λ er h. fit u er h) in
      elim (Bool-cases (u ≺ sixteen_ff)) [
        | inl inside ↦
            rw
              (
                eng.lookup-raw_iter version_prefix raw_iter_end f.store (version_key u),
                in_range-version_key u,
                inside,
                recorded u,
              )
              back
        | inr outside ↦
            rw
              (
                eng.lookup-raw_iter version_prefix raw_iter_end f.store (version_key u),
                in_range-version_key u,
                outside,
              )
              refl
      ]

  -- A restart rebuilds the epochs: where the engine holds the epoch records that the state machine
  -- has in memory, and these are below 2 ^ 64, `open` on its store succeeds, and has for each key
  -- the record from before, except for the empty key and the keys that are not below sixteen 0xFF
  -- bytes, for which it has none.
  pub open_rebuilds :
      (seq : ℕ)
      → (f' : Fsm eng) × (open_fsm eng seq f.store ≡ ok f')
        × (f'.store ≡ f.store)
        × (f'.applied ≡ seq)
        × ((u : Bytes)
            → lookup u f'.key_epoch ≡ (if is_recoverable u then lookup u f.key_epoch else none))
  unfolding open_fsm lookup ◌≺◌
  open_rebuilds seq =
      let (m', done, spec) =
        rebuild_lem f.key_epoch [] scanned scanned-IsVersion
          (eng.raw_iter-Distinct version_prefix raw_iter_end f.store) in
      (
        record { applied = seq; store = f.store; key_epoch = m'; notified = [] },
        rw (done, open_fsm) refl,
        refl,
        refl,
        λ u. rw (spec u, lookup-scanned u) (unfold lookup in ground arith),
      )

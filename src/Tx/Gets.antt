-- ===== src/Tx/Gets.antt =====
-- `Get` of a transaction: what it has read is in the read set.
use dpx.Base.{
  ℕ, Bytes, true, false, ◌≡◌, ◌⊎◌, refl, ap, All, [], ◌∷◌, Map, insert, lookup, lookup-insert, some,
  ok, Bool-cases, inl, inr, arith, ◌=ᵇ◌, =ᵇ_iff,
}
use dpx.Codec.{EpochRecord, is_positive, is_negative}
use dpx.Engine.{is_reserved}
use dpx.Proposal.{ReadEntry}
use dpx.Tx.{
  Snapshot, Tx, get, set, delete, atomic_add, debit, Answer, got, not_found, broken, is_broken,
  plain_read, record_read, with_version, hydrate, hydrate_all, or_unversioned,
}
use mathlib.Core.Path.{subst}
use dpx.Tx.Calls.{Calls, got_key, set_key, deleted, added}

-- The transactions whose calls include a `Get` of the key that has returned the value, with no
-- `AtomicAdd` behind it that debits the key.
pub data Gets (snap : Snapshot) (k v : Bytes) : Tx → Type 0 where
  returned : {tx : Tx} → Calls snap tx → (get snap k tx).0 ≡ ok v → Gets snap k v (get snap k tx).1
  then_get : {tx : Tx} → Gets snap k v tx → (key : Bytes) → Gets snap k v (get snap key tx).1
  then_set : {tx : Tx} → Gets snap k v tx → (key value : Bytes) → Gets snap k v (set key value tx).1
  then_delete : {tx : Tx} → Gets snap k v tx → (key : Bytes) → Gets snap k v (delete key tx).1
  then_add :
      {tx : Tx}
      → Gets snap k v tx
      → (key : Bytes) (delta : ℕ) → ((is_positive delta ≡ true) ⊎ ((key =ᵇ k) ≡ false))
      → Gets snap k v (atomic_add snap key delta tx).1

module _ (snap : Snapshot) (k v : Bytes) where
  pub Gets-Calls : {tx : Tx} → Gets snap k v tx → Calls snap tx
  Gets-Calls (returned c e) = got_key c k
  Gets-Calls (then_get g key) = got_key (Gets-Calls g) key
  Gets-Calls (then_set g key value) = set_key (Gets-Calls g) key value
  Gets-Calls (then_delete g key) = deleted (Gets-Calls g) key
  Gets-Calls (then_add g key delta kept) = added (Gets-Calls g) key delta

  abbrev Held : Tx → Type 0
  Held tx = lookup k tx.read_set ≡ some (plain_read k)

  insert_plain :
      (key : Bytes) (m : Map ReadEntry)
      → lookup k m ≡ some (plain_read k)
      → lookup k (insert key (plain_read key) m) ≡ some (plain_read k)
  insert_plain key m h = elim (Bool-cases (key =ᵇ k)) [
    | inl here ↦
        rw (lookup-insert key k (plain_read key) m, here)
          (ap (λ j. some (plain_read j)) ((=ᵇ_iff key k).0 here))
    | inr away ↦ rw (lookup-insert key k (plain_read key) m, away) h
  ]

  record_read-Held :
      (key : Bytes) (a : Answer Bytes) (tx : Tx) → Held tx → Held (record_read key a tx).1
  unfolding record_read
  record_read-Held key not_found tx h = h
  record_read-Held key broken tx h = h
  record_read-Held key (got val) tx h = insert_plain key tx.read_set h

  get-Held : (key : Bytes) (tx : Tx) → Held tx → Held (get snap key tx).1
  unfolding get
  get-Held key tx h = elim (Bool-cases (is_reserved key)) [
    | inl bad ↦ rw (get, bad) h
    | inr user ↦ rw (get, user) (record_read-Held key (snap.get key) tx h)
  ]

  set-Held : (key value : Bytes) (tx : Tx) → Held tx → Held (set key value tx).1
  unfolding set
  set-Held key value tx h = elim (Bool-cases (is_reserved key)) [
    | inl bad ↦ rw (set, bad) h
    | inr user ↦ rw (set, user) h
  ]

  delete-Held : (key : Bytes) (tx : Tx) → Held tx → Held (delete key tx).1
  unfolding delete
  delete-Held key tx h = elim (Bool-cases (is_reserved key)) [
    | inl bad ↦ rw (delete, bad) h
    | inr user ↦ rw (delete, user) h
  ]

  debit-Held :
      (key : Bytes) (delta : ℕ) (tx : Tx)
      → (key =ᵇ k) ≡ false
      → Held tx
      → Held (debit snap key delta tx).1
  unfolding debit
  debit-Held key delta tx away h =
      let re : ReadEntry = record {
        key = key;
        epoch = (or_unversioned (snap.get_version key)).epoch;
        is_debit = true;
      } in
      let kept : lookup k (insert key re tx.read_set) ≡ some (plain_read k) =
        rw (lookup-insert key k re tx.read_set, away) h in
      elim (Bool-cases (is_negative delta)) [
        | inl neg ↦ rw (debit, neg) kept
        | inr pos ↦ rw (debit, pos) kept
      ]

  add-Held :
      (key : Bytes) (delta : ℕ) (tx : Tx)
      → ((is_positive delta ≡ true) ⊎ ((key =ᵇ k) ≡ false))
      → Held tx
      → Held (atomic_add snap key delta tx).1
  unfolding atomic_add
  add-Held key delta tx kept h = elim (Bool-cases (is_reserved key)) [
    | inl bad ↦ rw (atomic_add, bad) h
    | inr user ↦ elim (Bool-cases (is_broken (snap.get key))) [
      | inl lost ↦ rw (atomic_add, user, lost) h
      | inr fine ↦ elim (Bool-cases (is_positive delta)) [
        | inl pos ↦ rw (atomic_add, user, fine, pos) h
        | inr neg ↦
            let away : (key =ᵇ k) ≡ false = elim kept [
              | inl pos ↦ absurd (ground (arith, pos, neg))
              | inr away ↦ away
            ] in
            elim (Bool-cases (is_broken (snap.get_version key))) [
              | inl lost ↦ rw (atomic_add, user, fine, neg, lost) h
              | inr sure ↦ rw (atomic_add, user, fine, neg, sure) (debit-Held key delta tx away h)
            ]
      ]
    ]
  ]

  -- A `Get` that returns a value has found it in the snapshot, and records the read.
  record_read-returned :
      (a : Answer Bytes) (tx : Tx)
      → (record_read k a tx).0 ≡ ok v
      → (a ≡ got v) × Held (record_read k a tx).1
  unfolding record_read
  record_read-returned not_found tx h = absurd (ground (arith, h))
  record_read-returned broken tx h = absurd (ground (arith, h))
  record_read-returned (got val) tx h =
      let same : val ≡ v = cc in
      (ap got same, rw (lookup-insert k k (plain_read k) tx.read_set, (=ᵇ_iff k k).1 refl) refl)

  get-returned :
      (tx : Tx) → (get snap k tx).0 ≡ ok v → (snap.get k ≡ got v) × Held (get snap k tx).1
  unfolding get
  get-returned tx h = elim (Bool-cases (is_reserved k)) [
    | inl bad ↦ absurd (ground (arith, bad, h))
    | inr user ↦
        let stored : (record_read k (snap.get k) tx).0 ≡ ok v = ground (arith, user, h) in
        rw (get, user) (record_read-returned (snap.get k) tx stored)
  ]

  -- A key whose value `Get` has returned, and that has not been debited since, is in the read set, and
  -- the value is the snapshot's.
  pub Gets-Held : {tx : Tx} → Gets snap k v tx → (snap.get k ≡ got v) × Held tx
  Gets-Held (returned {tx} c e) = get-returned tx e
  Gets-Held (then_get {tx} g key) = let (s, h) = Gets-Held g in (s, get-Held key tx h)
  Gets-Held (then_set {tx} g key value) = let (s, h) = Gets-Held g in (s, set-Held key value tx h)
  Gets-Held (then_delete {tx} g key) = let (s, h) = Gets-Held g in (s, delete-Held key tx h)
  Gets-Held (then_add {tx} g key delta kept) =
      let (s, h) = Gets-Held g in (s, add-Held key delta tx kept h)

  -- What holds of all entries of the slice holds of an entry of the read set.
  pub All-hydrate_all :
      (P : ReadEntry → Type 0) (m : Map ReadEntry) (re : ReadEntry)
      → lookup k m ≡ some re
      → All P (hydrate_all snap m)
      → P (hydrate snap re)
  unfolding hydrate_all lookup
  All-hydrate_all P [] re h all = absurd (ground (arith, h))
  All-hydrate_all P ((j, x) ∷ m) re h (p, ps) = elim (Bool-cases (j =ᵇ k)) [
    | inl here ↦
        let same : x ≡ re = ground (arith, here, h) in subst (λ y. P (hydrate snap y)) same p
    | inr away ↦ All-hydrate_all P m re (ground (arith, away, h)) ps
  ]

  with_version-plain :
      (a : Answer EpochRecord)
      → ((with_version a (plain_read k)).key ≡ k)
        × ((with_version a (plain_read k)).is_debit ≡ false)
  with_version-plain (got ver) = (refl, refl)
  with_version-plain not_found = (refl, refl)
  with_version-plain broken = (refl, refl)

  pub hydrate-plain :
      ((hydrate snap (plain_read k)).key ≡ k) × ((hydrate snap (plain_read k)).is_debit ≡ false)
  unfolding hydrate
  hydrate-plain = with_version-plain (snap.get_version k)

-- ===== src/Tx/Calls.antt =====
-- The buffers of a transaction after any calls of its function.
use dpx.Base.{
  ℕ, Bytes, true, false, not, ◌&&◌, ◌≡◌, ◌≤◌, ◌⊎◌, refl, sym, ap, ◌∙◌, All, All-append, [], ◌∷◌,
  Map, insert, Bool-cases, inl, inr, arith, ◌=ᵇ◌, ◌==◌,
}
use dpx.Codec.{EpochRecord, encode_int64, is_positive, is_negative}
use dpx.Engine.{is_reserved}
use dpx.Proposal.{ReadEntry, WriteEntry, op_set, op_delete, op_credit, op_debit}
use dpx.Tx.{
  Snapshot, Tx, new_tx, get, set, delete, atomic_add, debit, Answer, got, not_found, broken,
  or_unversioned, is_broken, plain_read, buffer, record_read, with_version, hydrate, hydrate_all,
  read_set_slice,
}

-- The transactions that calls lead to. The reads of a range change no buffer.
pub data Calls (snap : Snapshot) : Tx → Type 0 where
  started : Calls snap new_tx
  got_key : {tx : Tx} → Calls snap tx → (key : Bytes) → Calls snap (get snap key tx).1
  set_key : {tx : Tx} → Calls snap tx → (key value : Bytes) → Calls snap (set key value tx).1
  deleted : {tx : Tx} → Calls snap tx → (key : Bytes) → Calls snap (delete key tx).1
  added :
      {tx : Tx}
      → Calls snap tx
      → (key : Bytes) (delta : ℕ) → Calls snap (atomic_add snap key delta tx).1

abbrev pub epoch_in : Snapshot → Bytes → ℕ
epoch_in snap k = (or_unversioned (snap.get_version k)).epoch

-- A read is of a user's key; the epoch of a debit's is the snapshot's, that of another is open.
abbrev pub IsRead : Snapshot → Bytes × ReadEntry → Type 0
IsRead snap (k, re) =
    (re.key ≡ k)
    × (is_reserved k ≡ false)
    × (((re.is_debit ≡ false) × (re.epoch ≡ 0))
        ⊎ ((re.is_debit ≡ true) × (re.epoch ≡ epoch_in snap k)))

-- A write is of a user's key, and one of the four operations.
abbrev pub IsWrite : WriteEntry → Type 0
IsWrite w = (is_reserved w.key ≡ false) × (1 ≤ w.op) × (w.op ≤ 4)

pub record IsSound (snap : Snapshot) (tx : Tx) : Type 0 where
  pub reads : All (IsRead snap) tx.read_set
  pub buffered : All IsWrite tx.writes

All-insert :
    {V : Type 0} (P : Bytes × V → Type 0) (k : Bytes) (v : V) (m : Map V)
    → P (k, v)
    → All P m
    → All P (insert k v m)
unfolding insert
All-insert P k v [] p h = (p, tt)
All-insert P k v ((j, w) ∷ m) p (h, hs) = elim (Bool-cases (j =ᵇ k)) [
  | inl e ↦ rw e (p, hs)
  | inr e ↦ rw e (h, All-insert P k v m p hs)
]

module _ (snap : Snapshot) where
  buffer-IsSound :
      (op : ℕ) (key value : Bytes) (tx : Tx)
      → is_reserved key ≡ false
      → 1 ≤ op
      → op ≤ 4
      → IsSound snap tx
      → IsSound snap (buffer op key value tx)
  buffer-IsSound op key value tx user low high s = record {
    reads = s.reads;
    buffered = All-append IsWrite tx.writes _ s.buffered ((user, low, high), tt);
  }

  record_read-IsSound :
      (key : Bytes) (a : Answer Bytes) (tx : Tx)
      → is_reserved key ≡ false
      → IsSound snap tx
      → IsSound snap (record_read key a tx).1
  unfolding record_read
  record_read-IsSound key not_found tx user s = s
  record_read-IsSound key broken tx user s = s
  record_read-IsSound key (got val) tx user s = record {
    reads =
        All-insert (IsRead snap) key (plain_read key) tx.read_set (refl, user, inl (refl, refl))
          s.reads;
    buffered = s.buffered;
  }

  get-IsSound : (key : Bytes) (tx : Tx) → IsSound snap tx → IsSound snap (get snap key tx).1
  unfolding get
  get-IsSound key tx s = elim (Bool-cases (is_reserved key)) [
    | inl bad ↦ rw (get, bad) s
    | inr user ↦ rw (get, user) (record_read-IsSound key (snap.get key) tx user s)
  ]

  set-IsSound : (key value : Bytes) (tx : Tx) → IsSound snap tx → IsSound snap (set key value tx).1
  unfolding set
  set-IsSound key value tx s = elim (Bool-cases (is_reserved key)) [
    | inl bad ↦ rw (set, bad) s
    | inr user ↦
        rw (set, user) (buffer-IsSound op_set key value tx user (omega arith) (omega arith) s)
  ]

  delete-IsSound : (key : Bytes) (tx : Tx) → IsSound snap tx → IsSound snap (delete key tx).1
  unfolding delete
  delete-IsSound key tx s = elim (Bool-cases (is_reserved key)) [
    | inl bad ↦ rw (delete, bad) s
    | inr user ↦
        rw (delete, user) (buffer-IsSound op_delete key [] tx user (omega arith) (omega arith) s)
  ]

  debit-IsSound :
      (key : Bytes) (delta : ℕ) (tx : Tx)
      → is_reserved key ≡ false
      → IsSound snap tx
      → IsSound snap (debit snap key delta tx).1
  unfolding debit
  debit-IsSound key delta tx user s =
      let re : ReadEntry = record { key = key; epoch = epoch_in snap key; is_debit = true } in
      let tx' : Tx = record tx { read_set = insert key re tx.read_set } in
      let s' : IsSound snap tx' = record {
        reads = All-insert (IsRead snap) key re tx.read_set (refl, user, inr (refl, refl)) s.reads;
        buffered = s.buffered;
      } in
      elim (Bool-cases (is_negative delta)) [
        | inl neg ↦
            rw (debit, neg)
              (buffer-IsSound op_debit key (encode_int64 delta) tx' user (omega arith) (omega arith)
                s')
        | inr pos ↦ rw (debit, pos) s'
      ]

  add-IsSound :
      (key : Bytes) (delta : ℕ) (tx : Tx)
      → IsSound snap tx
      → IsSound snap (atomic_add snap key delta tx).1
  unfolding atomic_add
  add-IsSound key delta tx s = elim (Bool-cases (is_reserved key)) [
    | inl bad ↦ rw (atomic_add, bad) s
    | inr user ↦ elim (Bool-cases (is_broken (snap.get key))) [
      | inl lost ↦ rw (atomic_add, user, lost) s
      | inr fine ↦ elim (Bool-cases (is_positive delta)) [
        | inl pos ↦
            rw (atomic_add, user, fine, pos)
              (buffer-IsSound op_credit key (encode_int64 delta) tx user (omega arith) (omega arith)
                s)
        | inr neg ↦ elim (Bool-cases (is_broken (snap.get_version key))) [
          | inl lost ↦ rw (atomic_add, user, fine, neg, lost) s
          | inr sure ↦ rw (atomic_add, user, fine, neg, sure) (debit-IsSound key delta tx user s)
        ]
      ]
    ]
  ]

  -- Whatever a transaction's function calls, its reads and writes are of users' keys, its writes are
  -- of the four known operations, and its debits' reads carry the epoch that the snapshot has.
  pub Calls-IsSound : {tx : Tx} → Calls snap tx → IsSound snap tx
  Calls-IsSound started = record { reads = tt; buffered = tt }
  Calls-IsSound (got_key {tx} c key) = get-IsSound key tx (Calls-IsSound c)
  Calls-IsSound (set_key {tx} c key value) = set-IsSound key value tx (Calls-IsSound c)
  Calls-IsSound (deleted {tx} c key) = delete-IsSound key tx (Calls-IsSound c)
  Calls-IsSound (added {tx} c key delta) = add-IsSound key delta tx (Calls-IsSound c)

  -- An entry of the slice is of a user's key and carries the snapshot's epoch.
  abbrev pub IsHydrated : ReadEntry → Type 0
  IsHydrated re = (is_reserved re.key ≡ false) × (re.epoch ≡ epoch_in snap re.key)

  with_version-IsHydrated :
      (re : ReadEntry) (a : Answer EpochRecord)
      → is_reserved re.key ≡ false
      → re.epoch ≡ 0
      → (is_reserved (with_version a re).key ≡ false)
        × ((with_version a re).key ≡ re.key)
        × ((with_version a re).epoch ≡ (or_unversioned a).epoch)
  with_version-IsHydrated re (got ver) user e = (user, refl, refl)
  with_version-IsHydrated re not_found user e = (user, refl, e)
  with_version-IsHydrated re broken user e = (user, refl, e)

  hydrate-IsHydrated :
      (k : Bytes) (re : ReadEntry) → IsRead snap (k, re) → IsHydrated (hydrate snap re)
  unfolding hydrate
  hydrate-IsHydrated k re (same, user, inl (plain, zero_yet)) =
      let user' : is_reserved re.key ≡ false = rw same user in
      let h = with_version-IsHydrated re (snap.get_version re.key) user' zero_yet in
      let go : ((re.epoch == 0) && not re.is_debit) ≡ true = ground arith in
      rw (hydrate, go) (h.0, h.2 ∙ ap (epoch_in snap) (sym h.1))
  hydrate-IsHydrated k re (same, user, inr (owed, known)) =
      let stop : ((re.epoch == 0) && not re.is_debit) ≡ false = ground arith in
      rw (hydrate, stop) (rw same user, rw same known)

  hydrate_all-IsHydrated :
      (m : Map ReadEntry) → All (IsRead snap) m → All IsHydrated (hydrate_all snap m)
  unfolding hydrate_all
  hydrate_all-IsHydrated [] h = tt
  hydrate_all-IsHydrated ((k, re) ∷ m) (h, hs) =
      (hydrate-IsHydrated k re h, hydrate_all-IsHydrated m hs)

  -- Every entry of the read set that a transaction proposes is of a user's key and carries the epoch
  -- that the snapshot has for the key, whether it was read by `Get` or by `AtomicAdd`.
  pub read_set_slice-IsHydrated :
      {tx : Tx} → Calls snap tx → All IsHydrated (read_set_slice snap tx)
  unfolding read_set_slice
  read_set_slice-IsHydrated {tx} c = hydrate_all-IsHydrated tx.read_set (Calls-IsSound c).reads

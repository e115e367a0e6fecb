-- ===== src/Tx/Downgrade.antt =====
-- What `AtomicAdd` does to an earlier `Get` of the same key.
use dpx.Base.{ℕ, Bytes, ◌≡◌, ◌<◌, true, false, refl, List, [], ◌∷◌, arith, lookup, insert, =ᵇ_iff}
use dpx.Codec.{EpochRecord, is_positive, is_negative}
use dpx.Engine.{is_reserved}
use dpx.Proposal.{ReadEntry, WriteEntry}
use dpx.Fsm.{Epochs, epoch_of, entry_conflicts, detect_conflict}
use dpx.Tx.{
  Snapshot, new_tx, get, record_read, debit, atomic_add, plain_read, hydrate, hydrate_all,
  read_set_slice, got,
}

-- The state machine's records after a credit of the key at `n`.
abbrev pub credited : Bytes → ℕ → Epochs
credited k n = (k, record { epoch = n; is_credit = true }) ∷ []

module _ (snap : Snapshot) (k : Bytes) (delta : ℕ) (val : Bytes) (ver : EpochRecord)
    (user : is_reserved k ≡ false) (found : snap.get k ≡ got val)
    (versioned : snap.get_version k ≡ got ver) (negative : is_negative delta ≡ true)
    (not_positive : is_positive delta ≡ false) where
  got_plain : (get snap k new_tx).1 ≡ record { read_set = (k, plain_read k) ∷ []; writes = [] }
  unfolding get
  got_plain = rw (get, user, found) (unfold record_read insert in refl)

  abbrev as_debit : ReadEntry
  as_debit = record { key = k; epoch = ver.epoch; is_debit = true }

  debited_entry :
      (w : List WriteEntry)
      → (atomic_add snap k delta
          (record { read_set = (k, plain_read k) ∷ []; writes = w })).1.read_set
        ≡ (k, as_debit) ∷ []
  unfolding atomic_add
  debited_entry w =
      rw (atomic_add, user, found, not_positive, versioned)
        (unfold debit in
          rw (debit, negative, versioned) (unfold insert in rw ((=ᵇ_iff k k).1 refl) refl))

  plain_conflicts :
      (n : ℕ)
      → ver.epoch < n
      → detect_conflict (credited k n) [] (hydrate snap (plain_read k) ∷ []) ≡ true
  unfolding detect_conflict hydrate entry_conflicts
  plain_conflicts n h =
      rw (hydrate, versioned)
        (unfold entry_conflicts epoch_of lookup in rw ((=ᵇ_iff k k).1 refl) (ground arith))

  debit_passes : (n : ℕ) → detect_conflict (credited k n) [] (hydrate snap as_debit ∷ []) ≡ false
  unfolding detect_conflict
  debit_passes n =
      let kept : hydrate snap as_debit ≡ as_debit = unfold hydrate in ground arith in
      rw kept (unfold entry_conflicts epoch_of lookup in rw ((=ᵇ_iff k k).1 refl) (ground arith))

  -- A debit downgrades an earlier read of its key: where a credit of the key has been applied after
  -- the snapshot, the read by `Get` alone is a conflict; if the transaction then debits the key with
  -- `AtomicAdd`, it is none, though the value that `Get` returned is no longer current.
  pub debit_downgrades_read :
      (n : ℕ)
      → ver.epoch < n
      → (detect_conflict (credited k n) [] (read_set_slice snap (get snap k new_tx).1) ≡ true)
        × (detect_conflict
              (credited k n)
              []
              (read_set_slice snap (atomic_add snap k delta (get snap k new_tx).1).1)
            ≡ false)
  unfolding read_set_slice hydrate_all
  debit_downgrades_read n h =
      (rw got_plain (plain_conflicts n h), rw (got_plain, debited_entry []) (debit_passes n))

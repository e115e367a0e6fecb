-- ===== src/Proposal/RoundTrip.antt =====
-- `Unmarshal` after `Marshal`.
use dpx.Base.{
  ℕ, ◌+◌, ◌≤◌, ◌<◌, ◌%◌, ◌≡◌, refl, Bytes, Bool, true, false, length, le→leb, ok, ltb,
  length-append, ◌++◌, append_assoc, append-nil, List, [], ◌∷◌, arith, All, ◌==◌, not,
}
use native.Mathlib.Nat.{mod-eq_of_lt}
use dpx.Codec.{put_uint, flag, two64}
use dpx.Codec.Cursor.{
  uint_at-put_uint, uint_at-byte, slice_at-append, length-put_uint-append, room, room_slice,
}
use dpx.Proposal.{
  read_entry, read_entries, write_entry, write_entries, unmarshal_body, unmarshal, marshal,
  put_read_entry, put_read_set, put_write_entry, put_writes, ReadEntry, WriteEntry, Proposal,
}

-- The limits of the wire format: 16 bits for each length and count, 64 for epochs and the clock.
abbrev pub ReadFits : ReadEntry → Type 0
ReadFits re = (length re.key < 65536) × (re.epoch < two64)

abbrev pub WriteFits : WriteEntry → Type 0
WriteFits w = (w.op < 256) × (length w.key < 65536) × (length w.value < 65536)

pub record Fits (p : Proposal) : Type 0 where
  pub wall : p.timestamp_wall < two64
  pub counter : p.timestamp_counter < 65536
  pub reads : length p.read_set < 65536
  pub read_entries : All ReadFits p.read_set
  pub writes : length p.writes < 65536
  pub write_entries : All WriteFits p.writes

debit_flag : (b : Bool) → not (flag b == 0) ≡ b
debit_flag true = refl
debit_flag false = refl

read_entry-put :
    (i : ℕ) (re : ReadEntry) (rest : Bytes)
    → ReadFits re
    → read_entry i (put_read_entry re ++ rest) ≡ ok (re, rest)
unfolding read_entry put_read_entry
read_entry-put i re rest (k, e) =
    let tail = flag re.is_debit ∷ rest in
    let epoch = put_uint 8 re.epoch ++ tail in
    simp append_assoc (
      rw (
        room 2 2 (length re.key) (re.key ++ epoch) (omega arith),
        uint_at-put_uint 2 (length re.key) (re.key ++ epoch) k,
        room_slice (length re.key + 8 + 1) re.key epoch
            (omega (arith, length-put_uint-append 8 re.epoch tail)),
        slice_at-append re.key epoch,
        uint_at-put_uint 8 re.epoch tail e,
        uint_at-byte (flag re.is_debit) rest,
        debit_flag re.is_debit,
      ))

read_entries-put :
    (i : ℕ) (rs : List ReadEntry) (rest : Bytes)
    → All ReadFits rs
    → read_entries (length rs) i (put_read_set rs ++ rest) ≡ ok (rs, rest)
unfolding read_entries put_read_set
read_entries-put i [] rest h = refl
read_entries-put i (re ∷ rs) rest (h, hs) =
    simp append_assoc
      (rw (read_entry-put i re (put_read_set rs ++ rest) h, read_entries-put (i + 1) rs rest hs))

write_entry-put :
    (i : ℕ) (w : WriteEntry) (rest : Bytes)
    → WriteFits w
    → write_entry i (put_write_entry w ++ rest) ≡ ok (w, rest)
unfolding write_entry put_write_entry
write_entry-put i w rest (o, k, v) =
    let value = put_uint 2 (length w.value) ++ (w.value ++ rest) in
    let key = put_uint 2 (length w.key) ++ (w.key ++ value) in
    simp (append_assoc, mod-eq_of_lt o)
      (rw (
        le→leb (1 + 2) (length ((w.op % 256) ∷ key))
            (omega (arith, length-put_uint-append 2 (length w.key) (w.key ++ value))),
        uint_at-byte w.op key,
        uint_at-put_uint 2 (length w.key) (w.key ++ value) k,
        room_slice (length w.key + 2) w.key value
            (omega (arith, length-put_uint-append 2 (length w.value) (w.value ++ rest))),
        slice_at-append w.key value,
        uint_at-put_uint 2 (length w.value) (w.value ++ rest) v,
        room_slice (length w.value) w.value rest (omega arith),
        slice_at-append w.value rest,
      ))

write_entries-put :
    (i : ℕ) (ws : List WriteEntry) (rest : Bytes)
    → All WriteFits ws
    → write_entries (length ws) i (put_writes ws ++ rest) ≡ ok (ws, rest)
unfolding write_entries put_writes
write_entries-put i [] rest h = refl
write_entries-put i (w ∷ ws) rest (h, hs) =
    simp append_assoc
      (rw (write_entry-put i w (put_writes ws ++ rest) h, write_entries-put (i + 1) ws rest hs))

abbrev after_reads : Proposal → Bytes
after_reads p = put_uint 2 (length p.writes) ++ put_writes p.writes

abbrev after_counter : Proposal → Bytes
after_counter p = put_uint 2 (length p.read_set) ++ (put_read_set p.read_set ++ after_reads p)

unmarshal_body-marshal : (p : Proposal) → Fits p → unmarshal_body (marshal p) ≡ ok p
unfolding unmarshal_body marshal
unmarshal_body-marshal p h = rw (
  uint_at-put_uint 8 p.timestamp_wall (put_uint 2 p.timestamp_counter ++ after_counter p) h.wall,
  uint_at-put_uint 2 p.timestamp_counter (after_counter p) h.counter,
  uint_at-put_uint 2 (length p.read_set) (put_read_set p.read_set ++ after_reads p) h.reads,
  read_entries-put 0 p.read_set (after_reads p) h.read_entries,
  room 2 2 (length p.writes) (put_writes p.writes) (omega arith),
  uint_at-put_uint 2 (length p.writes) (put_writes p.writes) h.writes,
  ← append-nil (put_writes p.writes),
  write_entries-put 0 p.writes [] h.write_entries,
)

marshal-long : (p : Proposal) → 14 ≤ length (marshal p)
unfolding marshal
marshal-long p = omega (
  arith,
  length-put_uint-append 8 p.timestamp_wall (put_uint 2 p.timestamp_counter ++ after_counter p),
  length-put_uint-append 2 p.timestamp_counter (after_counter p),
  length-put_uint-append 2 (length p.read_set) (put_read_set p.read_set ++ after_reads p),
  length-append (put_read_set p.read_set) (after_reads p),
  length-put_uint-append 2 (length p.writes) (put_writes p.writes),
)

-- A proposal whose counts, lengths, epochs and clock fit their fields comes back from the wire as
-- it was sent.
pub unmarshal-marshal : (p : Proposal) → Fits p → unmarshal (marshal p) ≡ ok p
unfolding unmarshal
unmarshal-marshal p h =
    let long = marshal-long p in
    let e : ltb (length (marshal p)) 14 ≡ false = ground arith in rw e (unmarshal_body-marshal p h)

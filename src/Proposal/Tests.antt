-- ===== src/Proposal/Tests.antt =====
-- Proposals on the wire: runs, and the theorems at concrete proposals.
use dpx.Base.{Bytes, ◌≡◌, refl, true, length, [], ◌∷◌, ok, err, Settles, arith}
use dpx.Codec.Cursor.{uint_at, slice_at}
use dpx.Codec.{put_uint, uint}
use dpx.Proposal.{
  Proposal, marshal, unmarshal, size, op_debit, op_credit, put_read_entry, put_read_set,
  put_write_entry, put_writes, read_entry, read_entries, write_entry, write_entries, unmarshal_body,
  truncated_read_entry,
}
use dpx.Proposal.Size.{length-marshal}
use dpx.Proposal.Safety.{unmarshal-Settles}
use dpx.Proposal.RoundTrip.{unmarshal-marshal}

abbrev transfer : Proposal
transfer = record {
  read_set = record { key = 97 ∷ 108 ∷ []; epoch = 7; is_debit = true } ∷ [];
  writes =
      record { op = op_debit; key = 97 ∷ 108 ∷ []; value = 5 ∷ [] }
      ∷ record { op = op_credit; key = 98 ∷ []; value = 6 ∷ 0 ∷ [] }
      ∷ [];
  timestamp_wall = 1000;
  timestamp_counter = 3;
}

program : Unit {0}
unfolding put_uint uint put_read_entry put_read_set put_write_entry put_writes uint_at slice_at
    read_entry read_entries write_entry write_entries unmarshal_body marshal unmarshal
program = tt

transfer_bytes : length (marshal transfer) ≡ 43
unfolding program
transfer_bytes = refl

-- A read set that promises more than the buffer holds.
abbrev cut_off : Bytes
cut_off = 0 ∷ 0 ∷ 0 ∷ 0 ∷ 0 ∷ 0 ∷ 0 ∷ 0 ∷ 0 ∷ 0 ∷ 1 ∷ 0 ∷ 9 ∷ 0 ∷ []

cut_off_refused : unmarshal cut_off ≡ err (truncated_read_entry 0)
unfolding program
cut_off_refused = refl

unmarshal-marshal_example : unmarshal (marshal transfer) ≡ ok transfer
unmarshal-marshal_example = unmarshal-marshal transfer (omega arith)

unmarshal-Settles_example : Settles (unmarshal cut_off)
unmarshal-Settles_example = unmarshal-Settles cut_off

length-marshal_example : length (marshal transfer) ≡ size transfer
length-marshal_example = length-marshal transfer

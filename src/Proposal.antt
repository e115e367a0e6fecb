-- ===== src/Proposal.antt =====
-- shared/proposal.go and the entry types of shared/types.go: the unit that `RunInTx` proposes, and
-- its wire format. A buffer is a list of bytes; what Go reads at `data[pos:]` is here the list that
-- is left, and a read past the end is the Go panic. An error keeps its kind and the entry's number,
-- not the offset that the message also prints.
pub mod Size
pub mod Safety
pub mod RoundTrip
mod Tests
use dpx.Base.{
  ℕ, zero, suc, ◌+◌, ◌*◌, ◌%◌, Bytes, Bool, true, false, not, ltb, leb, ◌==◌, ◌&&◌, length, take,
  drop, ◌++◌, List, [], ◌∷◌, if◌then◌else◌, Result, ok, err, panic, guard, ◌>>=◌, ◌>>◌,
}
use dpx.Codec.Cursor.{uint_at, slice_at}
use dpx.Codec.{put_uint, uint, flag}

pub record ReadEntry : Type 0 where
  pub key : Bytes
  pub epoch : ℕ
  pub is_debit : Bool

-- `WriteOp` is a byte; the FSM meets values other than the four constants.
abbrev pub op_set : ℕ
op_set = 1

abbrev pub op_delete : ℕ
op_delete = 2

abbrev pub op_credit : ℕ
op_credit = 3

abbrev pub op_debit : ℕ
op_debit = 4

pub record WriteEntry : Type 0 where
  pub op : ℕ
  pub key : Bytes
  pub value : Bytes

pub record Proposal : Type 0 where
  pub read_set : List ReadEntry
  pub writes : List WriteEntry
  pub timestamp_wall : ℕ
  pub timestamp_counter : ℕ

-- `var p Proposal`
abbrev pub empty_proposal : Proposal
empty_proposal = record { read_set = []; writes = []; timestamp_wall = 0; timestamp_counter = 0 }

unfoldable pub timestamp_is_zero : Proposal → Bool
timestamp_is_zero p = p.timestamp_wall == 0 && p.timestamp_counter == 0

-- The size that `Marshal` computes before it allocates the buffer.
read_set_size : List ReadEntry → ℕ
read_set_size [] = 0
read_set_size (re ∷ rs) = 2 + length re.key + 8 + 1 + read_set_size rs

writes_size : List WriteEntry → ℕ
writes_size [] = 0
writes_size (w ∷ ws) = 1 + 2 + length w.key + 2 + length w.value + writes_size ws

pub size : Proposal → ℕ
unfolding read_set_size writes_size
size p = 8 + 2 + 2 + read_set_size p.read_set + 2 + writes_size p.writes

put_read_entry : ReadEntry → Bytes
put_read_entry re =
    put_uint 2 (length re.key) ++ (re.key ++ (put_uint 8 re.epoch ++ (flag re.is_debit ∷ [])))

put_read_set : List ReadEntry → Bytes
put_read_set [] = []
put_read_set (re ∷ rs) = put_read_entry re ++ put_read_set rs

put_write_entry : WriteEntry → Bytes
put_write_entry w =
    (w.op % 256)
    ∷ (put_uint 2 (length w.key) ++ (w.key ++ (put_uint 2 (length w.value) ++ w.value)))

put_writes : List WriteEntry → Bytes
put_writes [] = []
put_writes (w ∷ ws) = put_write_entry w ++ put_writes ws

-- The entry counts and the lengths are cut to 16 bits by `put_uint 2`.
pub marshal : Proposal → Bytes
marshal p =
    put_uint 8 p.timestamp_wall
    ++ (put_uint 2 p.timestamp_counter
        ++ (put_uint 2 (length p.read_set)
            ++ (put_read_set p.read_set ++ (put_uint 2 (length p.writes) ++ put_writes p.writes))))

pub data DecodeError : Type 0 where
  short_buffer : ℕ → DecodeError
  truncated_read_key_length : ℕ → DecodeError
  truncated_read_entry : ℕ → DecodeError
  truncated_writes_length : DecodeError
  truncated_write_op : ℕ → DecodeError
  truncated_write_key : ℕ → DecodeError
  truncated_write_value : ℕ → DecodeError

abbrev pub Decode : Type 0 → Type 0
Decode A = Result DecodeError A

read_entry : ℕ → Bytes → Decode (ReadEntry × Bytes)
read_entry i d = do
  guard (leb 2 (length d)) (truncated_read_key_length i)
  (k_len, d) ← uint_at 2 d
  guard (leb (k_len + 8 + 1) (length d)) (truncated_read_entry i)
  (key, d) ← slice_at k_len d
  (epoch, d) ← uint_at 8 d
  (debit, d) ← uint_at 1 d
  ok (record { key = key; epoch = epoch; is_debit = not (debit == 0) }, d)

-- The loop from `i`, with `n` entries to go.
read_entries : ℕ → ℕ → Bytes → Decode (List ReadEntry × Bytes)
read_entries zero i d = ok ([], d)
read_entries (suc n) i d = do
  (re, d) ← read_entry i d
  (rs, d) ← read_entries n (i + 1) d
  ok (re ∷ rs, d)

write_entry : ℕ → Bytes → Decode (WriteEntry × Bytes)
write_entry i d = do
  guard (leb (1 + 2) (length d)) (truncated_write_op i)
  (op, d) ← uint_at 1 d
  (k_len, d) ← uint_at 2 d
  guard (leb (k_len + 2) (length d)) (truncated_write_key i)
  (key, d) ← slice_at k_len d
  (v_len, d) ← uint_at 2 d
  guard (leb v_len (length d)) (truncated_write_value i)
  (value, d) ← slice_at v_len d
  ok (record { op = op; key = key; value = value }, d)

write_entries : ℕ → ℕ → Bytes → Decode (List WriteEntry × Bytes)
write_entries zero i d = ok ([], d)
write_entries (suc n) i d = do
  (w, d) ← write_entry i d
  (ws, d) ← write_entries n (i + 1) d
  ok (w ∷ ws, d)

abbrev pub min_proposal_bytes : ℕ
min_proposal_bytes = 14

-- From the checked header on.
unmarshal_body : Bytes → Decode Proposal
unmarshal_body d = do
  (wall, d) ← uint_at 8 d
  (counter, d) ← uint_at 2 d
  (read_len, d) ← uint_at 2 d
  (rs, d) ← read_entries read_len 0 d
  guard (leb 2 (length d)) truncated_writes_length
  (write_len, d) ← uint_at 2 d
  (ws, d) ← write_entries write_len 0 d
  ok (record { read_set = rs; writes = ws; timestamp_wall = wall; timestamp_counter = counter })

-- The receiver is a fresh `Proposal`, as at every call; empty data leaves it as it is.
pub unmarshal : Bytes → Decode Proposal
unmarshal d =
    if ltb (length d) min_proposal_bytes
    then (if length d == 0 then ok empty_proposal else err (short_buffer (length d)))
    else unmarshal_body d

-- To unfold this is to unfold the whole codec, so that it runs.
unfoldable pub codec_runs : Unit {0}
unfolding put_uint uint put_read_entry put_read_set put_write_entry put_writes uint_at slice_at
    read_entry read_entries write_entry write_entries unmarshal_body marshal unmarshal
codec_runs = tt

-- ===== src/Codec.antt =====
-- The integer encodings that every layer shares: `encoding/binary`'s little-endian integers,
-- helpers.go (`EncodeUint64Into`, `encodeInt64`, `decodeInt64`, `EncodeEpochRecordInto`,
-- `DecodeEpochRecord`) and their copies in conductor/fsm.go, engine/memory/memory.go and mvcc.go.
-- An `int64` is its bit pattern, a number below 2 ^ 64.
pub mod Words
pub mod Records
pub mod Cursor
mod Tests
use dpx.Base.{
  ℕ, zero, suc, ◌+◌, ◌*◌, ◌/◌, ◌%◌, ◌^◌, Bytes, Bool, true, false, ltb, leb, ◌==◌, ◌&&◌, length,
  take, drop, ◌++◌, List, [], ◌∷◌, Option, none, some, if◌then◌else◌,
}

abbrev pub two64 : ℕ
two64 = 2 ^ 64

-- `binary.LittleEndian.PutUintN` for w = N / 8 bytes; the cast to N bits drops what is above.
unfoldable pub put_uint : ℕ → ℕ → Bytes
put_uint zero v = []
put_uint (suc w) v = v % 256 ∷ put_uint w (v / 256)

-- `binary.LittleEndian.UintN` of the N / 8 bytes of its argument.
unfoldable pub uint : Bytes → ℕ
uint [] = 0
uint (b ∷ bs) = b + 256 * uint bs

-- `int64` addition wraps.
unfoldable pub add64 : ℕ → ℕ → ℕ
add64 a b = (a + b) % two64

-- `v > 0` and `v < 0` for the bit pattern of an `int64`.
unfoldable pub is_positive : ℕ → Bool
is_positive v = ltb 0 v && ltb v (2 ^ 63)

unfoldable pub is_negative : ℕ → Bool
is_negative v = leb (2 ^ 63) v

unfoldable pub encode_int64 : ℕ → Bytes
unfolding put_uint
encode_int64 v = put_uint 8 v

-- A missing value is an empty slice, and decodes to 0.
unfoldable pub decode_int64 : Bytes → ℕ
unfolding uint
decode_int64 b = if ltb (length b) 8 then 0 else uint (take 8 b)

unfoldable pub encode_uint64 : ℕ → Bytes
unfolding put_uint
encode_uint64 v = put_uint 8 v

-- The last write to a key: its log index, and whether it was a credit.
pub record EpochRecord : Type 0 where
  pub epoch : ℕ
  pub is_credit : Bool

abbrev pub no_epoch : EpochRecord
no_epoch = record { epoch = 0; is_credit = false }

abbrev pub flag : Bool → ℕ
flag true = 1
flag false = 0

unfoldable pub encode_epoch_record : EpochRecord → Bytes
unfolding put_uint
encode_epoch_record er = put_uint 8 er.epoch ++ (flag er.is_credit ∷ [])

abbrev pub byte_at : ℕ → Bytes → ℕ
byte_at i [] = 0
byte_at zero (b ∷ bs) = b
byte_at (suc i) (b ∷ bs) = byte_at i bs

-- `none` is Go's `ok == false`.
unfoldable pub decode_epoch_record : Bytes → Option EpochRecord
unfolding uint
decode_epoch_record b =
    if ltb (length b) 9
    then none
    else some (record { epoch = uint (take 8 b); is_credit = byte_at 8 b == 1 })

-- The engines' copy, where a short record reads as the zero record.
unfoldable pub decode_epoch_record_or_zero : Bytes → EpochRecord
unfolding uint
decode_epoch_record_or_zero b =
    if ltb (length b) 9
    then no_epoch
    else record { epoch = uint (take 8 b); is_credit = byte_at 8 b == 1 }

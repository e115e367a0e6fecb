-- ===== src/Codec/Cursor.antt =====
-- Reading a buffer from a position on, as the decoders of shared/proposal.go and
-- engine/memory/dump.go do: an integer or a slice, where going past the end panics.
use dpx.Base.{
  ℕ, ◌+◌, ◌≤◌, ◌<◌, ◌^◌, ◌≡◌, true, Bytes, leb, length, le→leb, Result, ok, panic, take, drop,
  length-append, ◌++◌, ◌∷◌, arith, take-append, drop-append, if◌then◌else◌,
}
use dpx.Codec.{put_uint, uint}
use dpx.Codec.Words.{length-put_uint, uint-take-put_uint, drop-put_uint}

-- `binary.LittleEndian.UintN(data[pos:])` and `pos += w`
unfoldable pub uint_at : {E : Type 0} → ℕ → Bytes → Result E (ℕ × Bytes)
uint_at w data' = if leb w (length data') then ok (uint (take w data'), drop w data') else panic

-- `data[pos : pos+n]` and `pos += n`
unfoldable pub slice_at : {E : Type 0} → ℕ → Bytes → Result E (Bytes × Bytes)
slice_at n data' = if leb n (length data') then ok (take n data', drop n data') else panic

pub uint_at-put_uint :
    {E : Type 0} (w v : ℕ) (rest : Bytes)
    → v < 256 ^ w
    → uint_at {E = E} w (put_uint w v ++ rest) ≡ ok (v, rest)
unfolding uint_at
uint_at-put_uint w v rest h = rw (
  length-append (put_uint w v) rest,
  length-put_uint w v,
  le→leb w (w + length rest) (omega arith),
  uint-take-put_uint w v rest h,
  drop-put_uint w v rest,
)

pub uint_at-byte : {E : Type 0} (v : ℕ) (rest : Bytes) → uint_at {E = E} 1 (v ∷ rest) ≡ ok (v, rest)
unfolding uint_at uint
uint_at-byte v rest = ground arith

pub slice_at-append :
    {E : Type 0} (k rest : Bytes) → slice_at {E = E} (length k) (k ++ rest) ≡ ok (k, rest)
unfolding slice_at
slice_at-append k rest = rw (
  length-append k rest,
  le→leb (length k) (length k + length rest) (omega arith),
  take-append k rest,
  drop-append k rest,
)

pub length-put_uint-append :
    (w v : ℕ) (rest : Bytes) → length (put_uint w v ++ rest) ≡ w + length rest
length-put_uint-append w v rest = rw (length-append (put_uint w v) rest, length-put_uint w v)

-- A test of the space that is left passes when the field was written.
pub room :
    (n w v : ℕ) (rest : Bytes) → n ≤ w + length rest → leb n (length (put_uint w v ++ rest)) ≡ true
room n w v rest h = rw length-put_uint-append (le→leb n (w + length rest) h)

pub room_slice :
    (n : ℕ) (k rest : Bytes) → n ≤ length k + length rest → leb n (length (k ++ rest)) ≡ true
room_slice n k rest h = rw (length-append k rest) (le→leb n (length k + length rest) h)

pub uint_at_ok :
    {E : Type 0} (w : ℕ) (d : Bytes)
    → w ≤ length d
    → uint_at {E = E} w d ≡ ok (uint (take w d), drop w d)
unfolding uint_at
uint_at_ok w d h = rw (le→leb w (length d) h)

pub slice_at_ok :
    {E : Type 0} (n : ℕ) (d : Bytes) → n ≤ length d → slice_at {E = E} n d ≡ ok (take n d, drop n d)
unfolding slice_at
slice_at_ok n d h = rw (le→leb n (length d) h)

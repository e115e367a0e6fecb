-- ===== src/Codec/Words.antt =====
-- The little-endian integers: lengths, bounds and round trips at every width.
use dpx.Base.{
  ℕ, zero, suc, ◌/◌, ◌^◌, ◌<◌, ◌≡◌, refl, ap, Bytes, All, length, take, drop, take-append,
  drop-append, ◌++◌, [], ◌∷◌, arith,
}
use native.Mathlib.Nat.{pow-suc}
use dpx.Codec.{put_uint, uint, encode_int64, decode_int64, add64, two64}

pub length-put_uint : (w v : ℕ) → length (put_uint w v) ≡ w
unfolding put_uint
length-put_uint zero v = refl
length-put_uint (suc w) v = ap suc (length-put_uint w (v / 256))

-- Every byte that is written is a byte.
pub put_uint_bytes : (w v : ℕ) → All (λ b. b < 256) (put_uint w v)
unfolding put_uint
put_uint_bytes zero v = tt
put_uint_bytes (suc w) v = (omega arith, put_uint_bytes w (v / 256))

pub uint-put_uint : (w v : ℕ) → v < 256 ^ w → uint (put_uint w v) ≡ v
unfolding put_uint uint
uint-put_uint zero v h = omega arith
uint-put_uint (suc w) v h = omega (arith, uint-put_uint w (v / 256) (omega (arith, pow-suc 256 w)))

-- What the program writes and reads back: the value, followed by anything.
pub take-put_uint : (w v : ℕ) (rest : Bytes) → take w (put_uint w v ++ rest) ≡ put_uint w v
take-put_uint w v rest = rw (length-put_uint w v) at (take-append (put_uint w v) rest)

pub drop-put_uint : (w v : ℕ) (rest : Bytes) → drop w (put_uint w v ++ rest) ≡ rest
drop-put_uint w v rest = rw (length-put_uint w v) at (drop-append (put_uint w v) rest)

pub uint-take-put_uint :
    (w v : ℕ) (rest : Bytes) → v < 256 ^ w → uint (take w (put_uint w v ++ rest)) ≡ v
uint-take-put_uint w v rest h = rw (take-put_uint w v rest) (uint-put_uint w v h)

pub uint-lt : (bs : Bytes) → All (λ b. b < 256) bs → uint bs < 256 ^ length bs
unfolding uint
uint-lt [] h = omega arith
uint-lt (b ∷ bs) h = omega (arith, uint-lt bs h.1, h.0, pow-suc 256 (length bs))

pub decode_int64-encode_int64 : (v : ℕ) → v < two64 → decode_int64 (encode_int64 v) ≡ v
unfolding decode_int64 encode_int64
decode_int64-encode_int64 v h = uint-put_uint 8 v h

pub add64_comm : (a b : ℕ) → add64 a b ≡ add64 b a
unfolding add64
add64_comm a b = omega arith

pub add64_assoc : (a b c : ℕ) → add64 (add64 a b) c ≡ add64 a (add64 b c)
unfolding add64
add64_assoc a b c = omega arith

pub add64-lt : (a b : ℕ) → add64 a b < two64
unfolding add64
add64-lt a b = omega arith

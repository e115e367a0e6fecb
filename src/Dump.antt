-- ===== src/Dump.antt =====
-- engine/memory/dump.go: the file format of the memory engines' checkpoints. The map is a list of
-- pairs, in the order in which the encoder's loop meets them.
pub mod Decoding
mod Tests
use dpx.Base.{
  ℕ, zero, suc, ◌+◌, Bytes, leb, ltb, ◌==◌, length, ◌++◌, List, [], ◌∷◌, Map, insert, Result, ok,
  err, guard, ◌>>=◌, ◌>>◌, if◌then◌else◌,
}
use dpx.Codec.{put_uint}
use dpx.Codec.Cursor.{uint_at, slice_at}

-- The size that `encodeDump` computes before it allocates the buffer.
unfoldable pub pairs_size : Map Bytes → ℕ
pairs_size [] = 0
pairs_size ((k, v) ∷ m) = 2 + length k + 4 + length v + pairs_size m

unfoldable pub dump_size : Map Bytes → ℕ
dump_size m = 8 + 8 + pairs_size m

unfoldable pub put_pairs : Map Bytes → Bytes
put_pairs [] = []
put_pairs ((k, v) ∷ m) =
    put_uint 2 (length k) ++ (k ++ (put_uint 4 (length v) ++ (v ++ put_pairs m)))

unfoldable pub encode_dump : Map Bytes → ℕ → Bytes
encode_dump m applied = put_uint 8 applied ++ (put_uint 8 (length m) ++ put_pairs m)

pub data DumpError : Type 0 where
  short_header : ℕ → DumpError
  truncated_key_length truncated_key truncated_value : ℕ → DumpError

-- One round of the loop, at the entry `i`.
unfoldable pub decode_pair : ℕ → Bytes → Result DumpError ((Bytes × Bytes) × Bytes)
decode_pair i d = do
  guard (leb 2 (length d)) (truncated_key_length i)
  (k_len, d) ← uint_at 2 d
  guard (leb (k_len + 4) (length d)) (truncated_key i)
  (k, d) ← slice_at k_len d
  (v_len, d) ← uint_at 4 d
  guard (leb v_len (length d)) (truncated_value i)
  (v, d) ← slice_at v_len d
  ok ((k, v), d)

-- The loop from `i`, with `n` entries to go, and the map that it has filled.
unfoldable pub decode_pairs : ℕ → ℕ → Map Bytes → Bytes → Result DumpError (Map Bytes)
decode_pairs zero i m d = ok m
decode_pairs (suc n) i m d = do
  ((k, v), d) ← decode_pair i d
  decode_pairs n (i + 1) (insert k v m) d

unfoldable pub decode_body : Bytes → Result DumpError (Map Bytes × ℕ)
decode_body d = do
  (applied, d) ← uint_at 8 d
  (count, d) ← uint_at 8 d
  m ← decode_pairs count 0 [] d
  ok (m, applied)

unfoldable pub decode_dump : Bytes → Result DumpError (Map Bytes × ℕ)
decode_dump d =
    if length d == 0
    then ok ([], 0)
    else if ltb (length d) 16
    then err (short_header (length d))
    else decode_body d

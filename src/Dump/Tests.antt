-- ===== src/Dump/Tests.antt =====
-- A dump at concrete pairs, and one that is cut off.
use dpx.Base.{Bytes, ◌≡◌, refl, [], ◌∷◌, Map, insert, ◌=ᵇ◌, ok, err}
use dpx.Codec.{put_uint, uint}
use dpx.Codec.Cursor.{uint_at, slice_at}
use dpx.Dump.{
  encode_dump, decode_dump, decode_body, decode_pairs, decode_pair, put_pairs, truncated_key,
}

program : Unit {0}
unfolding encode_dump decode_dump decode_body decode_pairs decode_pair put_pairs put_uint uint
    insert ◌=ᵇ◌ uint_at slice_at
program = tt

abbrev two_pairs : Map Bytes
two_pairs = (97 ∷ [], 1 ∷ 2 ∷ []) ∷ (98 ∷ [], []) ∷ []

two_pairs_come_back : decode_dump (encode_dump two_pairs 9) ≡ ok (two_pairs, 9)
unfolding program
two_pairs_come_back = refl

-- A dump that is cut off in its first key.
abbrev cut_off : Bytes
cut_off = 9 ∷ 0 ∷ 0 ∷ 0 ∷ 0 ∷ 0 ∷ 0 ∷ 0 ∷ 1 ∷ 0 ∷ 0 ∷ 0 ∷ 0 ∷ 0 ∷ 0 ∷ 0 ∷ 200 ∷ 0 ∷ 97 ∷ []

cut_off_refused : decode_dump cut_off ≡ err (truncated_key 0)
unfolding program
cut_off_refused = refl

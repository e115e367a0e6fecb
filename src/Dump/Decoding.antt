-- ===== src/Dump/Decoding.antt =====
-- `decodeDump`: after `encodeDump`, and on arbitrary bytes.
use dpx.Base.{
  ℕ, zero, suc, ◌+◌, ◌<◌, ◌≡◌, refl, ap, Bytes, false, ltb, ◌==◌, length, length-append,
  length-drop, All, ◌++◌, append_assoc, append-nil, [], ◌∷◌, Map, insert, take, drop, ok, Settles,
  Settles-bind, Bool-cases, inl, inr, arith, Distinct, insert-append, lookup_before, sym,
}
use dpx.Codec.{put_uint, uint, two64}
use dpx.Codec.Words.{length-put_uint}
use dpx.Codec.Cursor.{
  uint_at, slice_at, uint_at-put_uint, slice_at-append, room, room_slice, length-put_uint-append,
  uint_at_ok,
}
use dpx.Dump.{
  pairs_size, dump_size, put_pairs, encode_dump, decode_pair, decode_pairs, decode_body,
  decode_dump,
}

abbrev pub PairFits : Bytes × Bytes → Type 0
PairFits (k, v) = (length k < 65536) × (length v < 4294967296)

decode_pair-put :
    (i : ℕ) (k v rest : Bytes)
    → PairFits (k, v)
    → decode_pair i (put_uint 2 (length k) ++ (k ++ (put_uint 4 (length v) ++ (v ++ rest))))
      ≡ ok ((k, v), rest)
unfolding decode_pair
decode_pair-put i k v rest (short, fits) =
    let tail = put_uint 4 (length v) ++ (v ++ rest) in
    rw (
      room 2 2 (length k) (k ++ tail) (omega arith),
      uint_at-put_uint 2 (length k) (k ++ tail) short,
      room_slice (length k + 4) k tail
          (omega (arith, length-put_uint-append 4 (length v) (v ++ rest))),
      slice_at-append k tail,
      uint_at-put_uint 4 (length v) (v ++ rest) fits,
      room_slice (length v) v rest (omega arith),
      slice_at-append v rest,
    )

pub decode_pairs-put :
    (i : ℕ) (seen m : Map Bytes)
    → All PairFits m
    → Distinct (seen ++ m)
    → decode_pairs (length m) i seen (put_pairs m) ≡ ok (seen ++ m)
unfolding decode_pairs put_pairs
decode_pairs-put i seen [] fits d = ap ok (sym (append-nil seen))
decode_pairs-put i seen ((k, v) ∷ m) (f, fs) d =
    let here = insert-append k v seen (lookup_before k v seen m d) in
    let again : (seen ++ ((k, v) ∷ [])) ++ m ≡ seen ++ ((k, v) ∷ m) =
      append_assoc seen ((k, v) ∷ []) m in
    rw
      (
        decode_pair-put i k v (put_pairs m) f,
        here,
        decode_pairs-put (i + 1) (seen ++ ((k, v) ∷ [])) m fs (rw again d),
        again,
      )
      refl

pub decode_pair-Settles : (i : ℕ) (d : Bytes) → Settles (decode_pair i d)
unfolding decode_pair uint_at slice_at
decode_pair-Settles i d =
    let k = uint (take 2 d) in
    let d1 = drop 2 d in
    let d2 = drop k d1 in ground (arith, length-drop 2 d, length-drop k d1, length-drop 4 d2)

pub decode_pairs-Settles : (n i : ℕ) (m : Map Bytes) (d : Bytes) → Settles (decode_pairs n i m d)
unfolding decode_pairs
decode_pairs-Settles zero i m d = tt
decode_pairs-Settles (suc n) i m d =
    Settles-bind (decode_pair i d) _ (decode_pair-Settles i d)
      λ r _. decode_pairs-Settles n (i + 1) (insert r.0.0 r.0.1 m) r.1

-- `decodeDump` never panics: every file gives a map or an error.
pub decode_dump-Settles : (d : Bytes) → Settles (decode_dump d)
unfolding decode_dump decode_body
decode_dump-Settles d = elim (Bool-cases (length d == 0)) [
  | inl e ↦ rw (decode_dump, e) tt
  | inr some' ↦ elim (Bool-cases (ltb (length d) 16)) [
    | inl e ↦ rw (decode_dump, some', e) tt
    | inr long ↦
        let d1 = drop 8 d in
        rw
          (
            decode_dump,
            some',
            long,
            uint_at_ok 8 d (ground arith),
            uint_at_ok 8 d1 (ground (arith, length-drop 8 d)),
          )
          (Settles-bind (decode_pairs (uint (take 8 d1)) 0 [] (drop 8 d1)) _
            (decode_pairs-Settles (uint (take 8 d1)) 0 [] (drop 8 d1)) λ _ _. tt)
  ]
]

-- The computed size is the number of bytes that the loop writes.
pub length-put_pairs : (m : Map Bytes) → length (put_pairs m) ≡ pairs_size m
unfolding put_pairs pairs_size
length-put_pairs [] = refl
length-put_pairs ((k, v) ∷ m) =
    simp (length-append, length-put_uint) (omega (arith, length-put_pairs m))

-- The size that `encodeDump` computes before its loop is the length of what it writes.
length-encode_dump : (m : Map Bytes) (applied : ℕ) → length (encode_dump m applied) ≡ dump_size m
unfolding encode_dump dump_size
length-encode_dump m applied =
    simp (length-append, length-put_uint) (omega (arith, length-put_pairs m))

-- A dump whose keys are distinct and whose lengths, count and index fit their fields comes back as
-- it was written.
pub decode_dump-encode_dump :
    (m : Map Bytes) (applied : ℕ)
    → Distinct m
    → All PairFits m
    → length m < two64
    → applied < two64
    → decode_dump (encode_dump m applied) ≡ ok (m, applied)
unfolding decode_dump decode_body
decode_dump-encode_dump m applied distinct fits count index =
    let long = length-encode_dump m applied in
    let some' : (length (encode_dump m applied) == 0) ≡ false =
      unfold dump_size in ground (arith, long) in
    let long' : ltb (length (encode_dump m applied)) 16 ≡ false =
      unfold dump_size in ground (arith, long) in
    rw (some', long')
      (unfold encode_dump in
        rw
          (
            uint_at-put_uint 8 applied (put_uint 8 (length m) ++ put_pairs m) index,
            uint_at-put_uint 8 (length m) (put_pairs m) count,
            decode_pairs-put 0 [] m fits distinct,
          )
          refl)

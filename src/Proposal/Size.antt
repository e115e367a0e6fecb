-- ===== src/Proposal/Size.antt =====
-- The buffer that `Marshal` allocates.
use dpx.Base.{◌≡◌, refl, length, length-append, List, [], ◌∷◌, arith}
use dpx.Codec.Words.{length-put_uint}
use dpx.Proposal.{
  Proposal, ReadEntry, WriteEntry, marshal, size, read_set_size, writes_size, put_read_entry,
  put_read_set, put_write_entry, put_writes,
}

length-put_read_set : (rs : List ReadEntry) → length (put_read_set rs) ≡ read_set_size rs
unfolding put_read_set read_set_size put_read_entry
length-put_read_set [] = refl
length-put_read_set (re ∷ rs) =
    simp (length-append, length-put_uint) (omega (arith, length-put_read_set rs))

length-put_writes : (ws : List WriteEntry) → length (put_writes ws) ≡ writes_size ws
unfolding put_writes writes_size put_write_entry
length-put_writes [] = refl
length-put_writes (w ∷ ws) =
    simp (length-append, length-put_uint) (omega (arith, length-put_writes ws))

-- The size computed before the loops is the number of bytes that they write, so the buffer is
-- filled exactly and no write passes its end.
pub length-marshal : (p : Proposal) → length (marshal p) ≡ size p
unfolding marshal size
length-marshal p =
    simp (length-append, length-put_uint)
      (omega (arith, length-put_read_set p.read_set, length-put_writes p.writes))

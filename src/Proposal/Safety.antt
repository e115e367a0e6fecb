-- ===== src/Proposal/Safety.antt =====
-- `Unmarshal` on arbitrary bytes.
use dpx.Base.{
  Bool-cases, inl, inr, ℕ, zero, suc, ◌+◌, ◌≤◌, Bytes, leb, length, take, drop, leb→le, Settles,
  Settles-bind, ok, length-drop, ◌>>=◌, ◌>>◌, guard, arith, ltb, List,
}
use dpx.Codec.Cursor.{uint_at, slice_at, uint_at_ok}
use dpx.Codec.{uint}
use dpx.Proposal.{
  Decode, read_entry, read_entries, write_entry, write_entries, unmarshal_body, unmarshal,
  truncated_writes_length, Proposal, ReadEntry,
}

read_entry-Settles : (i : ℕ) (d : Bytes) → Settles (read_entry i d)
unfolding read_entry uint_at slice_at
read_entry-Settles i d =
    let k = uint (take 2 d) in
    let d' = drop 2 d in
    let d'' = drop k d' in ground (arith, length-drop 2 d, length-drop k d', length-drop 8 d'')

read_entries-Settles : (n i : ℕ) (d : Bytes) → Settles (read_entries n i d)
unfolding read_entries
read_entries-Settles zero i d = tt
read_entries-Settles (suc n) i d = Settles-bind (read_entry i d) _ (read_entry-Settles i d) λ r _.
    Settles-bind (read_entries n (i + 1) r.1) _ (read_entries-Settles n (i + 1) r.1) λ _ _. tt

write_entry-Settles : (i : ℕ) (d : Bytes) → Settles (write_entry i d)
unfolding write_entry uint_at slice_at
write_entry-Settles i d =
    let d1 = drop 1 d in
    let k = uint (take 2 d1) in
    let d2 = drop 2 d1 in
    let d3 = drop k d2 in
    ground (arith, length-drop 1 d, length-drop 2 d1, length-drop k d2, length-drop 2 d3)

write_entries-Settles : (n i : ℕ) (d : Bytes) → Settles (write_entries n i d)
unfolding write_entries
write_entries-Settles zero i d = tt
write_entries-Settles (suc n) i d =
    Settles-bind (write_entry i d) _ (write_entry-Settles i d) λ r _.
      Settles-bind (write_entries n (i + 1) r.1) _ (write_entries-Settles n (i + 1) r.1) λ _ _. tt

-- What follows the read set.
abbrev rest_of : ℕ → ℕ → List ReadEntry → Bytes → Decode Proposal
rest_of wall counter rs d = do
  guard (leb 2 (length d)) truncated_writes_length
  (write_len, d) ← uint_at 2 d
  (ws, d) ← write_entries write_len 0 d
  ok (record { read_set = rs; writes = ws; timestamp_wall = wall; timestamp_counter = counter })

rest_of-Settles :
    (wall counter : ℕ) (rs : List ReadEntry) (d : Bytes) → Settles (rest_of wall counter rs d)
rest_of-Settles wall counter rs d = elim (Bool-cases (leb 2 (length d))) [
  | inr e ↦ rw e tt
  | inl e ↦
      rw (e, uint_at_ok 2 d (leb→le 2 _ e))
        (Settles-bind (write_entries _ 0 (drop 2 d)) _ (write_entries-Settles _ 0 _) λ _ _. tt)
]

-- The header was checked: the first reads do not fail.
unmarshal_body-Settles : (d : Bytes) → 14 ≤ length d → Settles (unmarshal_body d)
unfolding unmarshal_body
unmarshal_body-Settles d h =
    let d1 = drop 8 d in
    let d2 = drop 2 d1 in
    let n = uint (take 2 d2) in
    let d3 = drop 2 d2 in
    let tail =
      λ (r : List ReadEntry × Bytes). rest_of (uint (take 8 d)) (uint (take 2 d1)) r.0 r.1 in
    rw
      (
        uint_at_ok 8 d (omega arith),
        uint_at_ok 2 d1 (omega (arith, length-drop 8 d)),
        uint_at_ok 2 d2 (omega (arith, length-drop 8 d, length-drop 2 d1)),
      )
      (Settles-bind (read_entries n 0 d3) tail (read_entries-Settles n 0 d3)
        λ r _. rest_of-Settles (uint (take 8 d)) (uint (take 2 d1)) r.0 r.1)

-- `Unmarshal` never panics: every buffer, whatever its bytes, gives a proposal or an error.
pub unmarshal-Settles : (d : Bytes) → Settles (unmarshal d)
unmarshal-Settles d = elim (Bool-cases (ltb (length d) 14)) [
  | inl e ↦ unfold unmarshal in rw e (ground arith)
  | inr e ↦ unfold unmarshal in rw e (unmarshal_body-Settles d (ground arith))
]

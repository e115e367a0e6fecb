-- ===== src/Mvcc/Search.antt =====
-- The binary search for the version that a snapshot sees.
use dpx.Base.{
  ℕ, zero, suc, ◌+◌, ◌-◌, ◌/◌, ◌≤◌, ◌<◌, ◌≡◌, refl, sym, ap, ◌∙◌, ltb, leb, length, All, List, [],
  ◌∷◌, Option, none, some, if◌then◌else◌, arith, Bool-cases, inl, inr,
}
use native.Mathlib.Numerals.{add-one}
use dpx.Mvcc.{Entry, seq_at, search_loop, find_version, linear_loop, find_version_linear, entry_at}

-- The versions of a key: sequences do not fall.
abbrev pub IsSorted : List Entry → Type 0
IsSorted [] = Unit
IsSorted (e ∷ es) = All (λ (x : Entry). e.seq ≤ x.seq) es × IsSorted es

-- The number of leading versions that a snapshot at `t` may see.
unfoldable pub boundary : List Entry → ℕ → ℕ
boundary [] t = 0
boundary (e ∷ es) t = if leb e.seq t then suc (boundary es t) else 0

-- The newest of them.
unfoldable pub visible : List Entry → ℕ → Option Entry
visible [] t = none
visible (e ∷ es) t =
    let later = visible es t in
    if leb e.seq t then (elim later [ none ↦ some e | some x ↦ some x ]) else none

abbrev index_below : ℕ → Option ℕ
index_below zero = none
index_below (suc i) = some i

boundary-le : (es : List Entry) (t : ℕ) → boundary es t ≤ length es
unfolding boundary
boundary-le [] t = omega arith
boundary-le (e ∷ es) t = ground (arith, boundary-le es t)

below_boundary : (es : List Entry) (t i : ℕ) → i < boundary es t → seq_at es i ≤ t
unfolding boundary
below_boundary [] t i h = absurd (omega arith)
below_boundary (e ∷ es) t zero h = ground arith
below_boundary (e ∷ es) t (suc i) h = ground (arith, below_boundary es t i)

seq_at_from :
    (e : Entry) (es : List Entry) (i : ℕ)
    → All (λ (x : Entry). e.seq ≤ x.seq) es
    → i < length es
    → e.seq ≤ seq_at es i
seq_at_from e [] i h lt = absurd (omega arith)
seq_at_from e (x ∷ es) zero h lt = h.0
seq_at_from e (x ∷ es) (suc i) h lt = seq_at_from e es i h.1 (omega arith)

above_boundary :
    (es : List Entry) (t i : ℕ) → IsSorted es → boundary es t ≤ i → i < length es → t < seq_at es i
unfolding boundary
above_boundary [] t i s h lt = absurd (omega arith)
above_boundary (e ∷ es) t zero s h lt = ground arith
above_boundary (e ∷ es) t (suc i) s h lt =
    ground (arith, above_boundary es t i, seq_at_from e es i s.0)

search_loop-boundary :
    (fuel : ℕ) (es : List Entry) (t low top : ℕ) (result : Option ℕ)
    → IsSorted es
    → low ≤ boundary es t
    → boundary es t ≤ top
    → top ≤ length es
    → top - low ≤ fuel
    → result ≡ index_below low
    → search_loop fuel es t low top result ≡ index_below (boundary es t)
unfolding search_loop
search_loop-boundary zero es t low top result s lo hi len f r =
    let same : low ≡ boundary es t = omega arith in r ∙ ap index_below same
search_loop-boundary (suc fuel) es t low top result s lo hi len f r =
    let mid = low + (top - 1 - low) / 2 in
    elim (Bool-cases (ltb low top)) [
      | inr done ↦
          let same : low ≡ boundary es t = ground arith in
          rw (done, search_loop) (r ∙ ap index_below same)
      | inl more ↦
          let inside : (mid < top) × (low ≤ mid) = ground arith in
          elim (Bool-cases (leb (seq_at es mid) t)) [
            | inl seen ↦
                rw (more, seen)
                  (search_loop-boundary fuel es t (mid + 1) top (some mid) s
                    (ground (arith, above_boundary es t mid s)) hi len (omega arith) (rw add-one))
            | inr unseen ↦
                rw (more, unseen)
                  (search_loop-boundary fuel es t low mid result s lo
                    (ground (arith, below_boundary es t mid)) (omega arith) (omega arith) r)
          ]
    ]

find_version-boundary :
    (es : List Entry) (t : ℕ) → IsSorted es → find_version es t ≡ index_below (boundary es t)
unfolding find_version
find_version-boundary es t s =
    search_loop-boundary (length es) es t 0 (length es) none s (omega arith) (boundary-le es t)
      (omega arith) (omega arith) refl

linear_loop-boundary :
    (n : ℕ) (es : List Entry) (t : ℕ)
    → IsSorted es
    → boundary es t ≤ n
    → n ≤ length es
    → linear_loop n es t ≡ index_below (boundary es t)
unfolding linear_loop
linear_loop-boundary zero es t s lo hi =
    let none_seen : 0 ≡ boundary es t = omega arith in ap index_below none_seen
linear_loop-boundary (suc i) es t s lo hi = elim (Bool-cases (leb (seq_at es i) t)) [
  | inl seen ↦
      let same : boundary es t ≡ suc i = ground (arith, above_boundary es t i s) in rw (seen, same)
  | inr unseen ↦
      rw unseen
        (linear_loop-boundary i es t s (ground (arith, below_boundary es t i)) (omega arith))
]

-- On versions in order the binary search of point reads and the linear search of range scans find
-- the same version.
pub find_version-eq-linear :
    (es : List Entry) (t : ℕ) → IsSorted es → find_version es t ≡ find_version_linear es t
unfolding find_version_linear
find_version-eq-linear es t s =
    find_version-boundary es t s
    ∙ sym (linear_loop-boundary (length es) es t s (boundary-le es t) (omega arith))

visible-eq-none : (es : List Entry) (t : ℕ) → visible es t ≡ none → boundary es t ≡ 0
unfolding boundary visible
visible-eq-none [] t h = refl
visible-eq-none (e ∷ es) t h = ground arith

entry_at-boundary :
    (es : List Entry) (t : ℕ) → entry_at es (index_below (boundary es t)) ≡ visible es t
unfolding boundary visible
entry_at-boundary [] t = refl
entry_at-boundary (e ∷ es) t = ground (arith, entry_at-boundary es t, visible-eq-none es t)

-- What it finds is the newest version that the snapshot may see.
pub entry_at-find_version :
    (es : List Entry) (t : ℕ) → IsSorted es → entry_at es (find_version es t) ≡ visible es t
entry_at-find_version es t s =
    ap (entry_at es) (find_version-boundary es t s) ∙ entry_at-boundary es t

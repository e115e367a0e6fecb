-- ===== src/Iter/Cursors.antt =====
-- engine/memory/memory.go: `memIter`, of which engine/oshodi/oshodi.go has a copy; and
-- engine/badger/badger.go: `badgerIter`. Both stand on pairs that are collected beforehand.
use dpx.Base.{
  ℕ, zero, suc, ◌<◌, ◌≤◌, ◌≡◌, refl, Bytes, Bool, true, false, ◌&&◌, ltb, leb, length, drop,
  get_elem?, List, [], ◌∷◌, none, some, arith, if◌then◌else◌,
}
use dpx.Iter.{Iterator, Delivers}

-- Go's `int`, without its bounds: `negsuc n` is - n - 1.
pub data ℤ : Type 0 where
  pos negsuc : ℕ → ℤ

-- `i++` and `i--`
abbrev pub incr : ℤ → ℤ
incr (pos n) = pos (suc n)
incr (negsuc zero) = pos 0
incr (negsuc (suc n)) = negsuc n

abbrev pub decr : ℤ → ℤ
decr (pos zero) = negsuc 0
decr (pos (suc n)) = pos n
decr (negsuc n) = negsuc (suc n)

-- `i < n`, `i >= 0` and `i <= 0`
abbrev pub below : ℤ → ℕ → Bool
below (pos i) n = ltb i n
below (negsuc i) n = true

abbrev pub nonneg : ℤ → Bool
nonneg (pos i) = true
nonneg (negsuc i) = false

abbrev pub nonpos : ℤ → Bool
nonpos (pos i) = leb i 0
nonpos (negsuc i) = true

-- `memIter`, `oshodiIter` and `badgerIter` have the same fields.
pub record Cursor : Type 0 where
  pub pairs : List (Bytes × Bytes)
  pub at : ℤ

abbrev pub new_cursor : List (Bytes × Bytes) → Cursor
new_cursor l = record { pairs = l; at = negsuc 0 }

abbrev pub moved_to : ℤ → Cursor → Bool × Cursor
moved_to i c = (below i (length c.pairs), record c { at = i })

abbrev pub cursor_first : Cursor → Bool × Cursor
cursor_first c = moved_to (pos 0) c

abbrev pub cursor_next : Cursor → Bool × Cursor
cursor_next c = moved_to (incr c.at) c

abbrev pub mem_prev : Cursor → Bool × Cursor
mem_prev c =
    if nonpos c.at then (false, record c { at = negsuc 0 }) else (true, record c { at = decr c.at })

abbrev pub badger_prev : Cursor → Bool × Cursor
badger_prev c = (nonneg (decr c.at), record c { at = decr c.at })

abbrev pub cursor_valid : Cursor → Bool
cursor_valid c = nonneg c.at && below c.at (length c.pairs)

-- `pairs[i]`, where an index out of range is not reached behind `Valid`.
abbrev pub pair_at : ℤ → List (Bytes × Bytes) → Bytes × Bytes
pair_at (negsuc i) l = ([], [])
pair_at (pos i) l = elim (get_elem? l i) [ some p ↦ p | none ↦ ([], []) ]

abbrev pub cursor_key : Cursor → Bytes
cursor_key c = if cursor_valid c then (pair_at c.at c.pairs).0 else []

abbrev pub cursor_value : Cursor → Bytes
cursor_value c = if cursor_valid c then (pair_at c.at c.pairs).1 else []

-- The methods, which differ in `Prev` alone.
abbrev pub cursor_iter : (Cursor → Bool × Cursor) → Iterator
cursor_iter prev = record {
  State = Cursor;
  first = cursor_first;
  next = cursor_next;
  prev = prev;
  valid = cursor_valid;
  key = cursor_key;
  value = cursor_value;
  error = λ c. none;
}

abbrev pub mem_iter : Iterator
mem_iter = cursor_iter mem_prev

abbrev pub oshodi_iter : Iterator
oshodi_iter = cursor_iter mem_prev

abbrev pub badger_iter : Iterator
badger_iter = cursor_iter badger_prev

-- `errIter`, what a scan that cannot be opened is given.
abbrev pub err_iter : ℕ → Iterator
err_iter e = record {
  State = Unit {0};
  first = λ s. (false, s);
  next = λ s. (false, s);
  prev = λ s. (false, s);
  valid = λ s. false;
  key = λ s. [];
  value = λ s. [];
  error = λ s. some e;
}

drop-nil : {A : Type 0} (i : ℕ) (l : List A) → drop i l ≡ [] → length l ≤ i
drop-nil zero [] h = omega arith
drop-nil zero (x ∷ l) h = absurd (ground (arith, h))
drop-nil (suc i) [] h = omega arith
drop-nil (suc i) (x ∷ l) h = omega (arith, drop-nil i l h)

drop-cons :
    {A : Type 0} (i : ℕ) (x : A) (l xs : List A)
    → drop i l ≡ x ∷ xs
    → (i < length l) × (get_elem? l i ≡ some x) × (drop (suc i) l ≡ xs)
drop-cons zero x [] xs h = absurd (ground (arith, h))
drop-cons zero x (y ∷ l) xs h = (omega arith, ground (arith, h), ground (arith, h))
drop-cons (suc i) x [] xs h = absurd (ground (arith, h))
drop-cons (suc i) x (y ∷ l) xs h =
    let (lt, e, d) = drop-cons i x l xs h in (omega (arith, lt), e, d)

-- From the index `i` on, the pairs behind it are delivered.
Delivers-from :
    (prev : Cursor → Bool × Cursor) (rest all : List (Bytes × Bytes)) (i : ℕ)
    → drop i all ≡ rest
    → Delivers (cursor_iter prev) rest (moved_to (pos i) (record { pairs = all; at = pos i }))
Delivers-from prev [] all i h = let past = drop-nil i all h in (ground arith, refl)
Delivers-from prev ((k, v) ∷ rest) all i h =
    let (lt, e, d) = drop-cons i (k, v) all rest h in
    let there : ltb i (length all) ≡ true = ground arith in
    (
      rw there refl,
      refl,
      rw (there, e) refl,
      rw (there, e) refl,
      Delivers-from prev rest all (suc i) d,
    )

-- From its first position on, an iterator over collected pairs delivers them.
pub cursor_first-Delivers :
    (prev : Cursor → Bool × Cursor) (c : Cursor)
    → Delivers (cursor_iter prev) c.pairs (cursor_first c)
cursor_first-Delivers prev c = Delivers-from prev c.pairs c.pairs 0 refl

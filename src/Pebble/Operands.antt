-- ===== src/Pebble/Operands.antt =====
-- However a store combines the operands of merges, its reads show one value.
use dpx.Base.{
  ℕ, ◌%◌, ◌≡◌, refl, ap, sym, ◌∙◌, Bytes, List, [], ◌∷◌, ◌++◌, Option, none, some, ◌=ᵇ◌, arith,
  append_assoc, append-nil, Bool-cases, inl, inr,
}
use mathlib.Core.Path.{subst}
use dpx.Codec.{two64, encode_int64, decode_int64}
use dpx.Engine.{BatchOp, set, delete, merge, op_key, effect, effects, or_empty}
use dpx.Pebble.{
  merger_merge, merge_older, merge_newer, merger_finish, History, mutate, mutate_all, with_base,
  Stage, value, sum, Combines, operand, begun, newer, older, finished, Shows, unmerged, merged_to,
}
use dpx.Pebble.Merger.{
  total, merge_sum, merge_int64_sum, total-append, total-with_base, decode-encode_wraps,
  merge_newer-mod, merger_finish-eq, merger_merge-decode_int64, newer_all,
}

-- The number that a stage stands for is the operands' sum.
abbrev Counts : List Bytes → Stage → Type 0
Counts vs (value v) = decode_int64 v % two64 ≡ total vs % two64
Counts vs (sum n) = n % two64 ≡ total vs % two64

finish-decode : (n : ℕ) → decode_int64 (merger_finish n) ≡ n % two64
unfolding merger_finish encode_int64
finish-decode n = decode-encode_wraps n

Combines-Counts : {vs : List Bytes} {s : Stage} → Combines vs s → Counts vs s
unfolding total merge_older
Combines-Counts (operand v) = omega arith
Combines-Counts (begun {vs} {v} c) = omega (arith, Combines-Counts c, merger_merge-decode_int64 v)
Combines-Counts (newer {vs} {ws} {n} {w} a b) =
    omega (arith, Combines-Counts a, Combines-Counts b, merge_newer-mod n w, total-append vs ws)
Combines-Counts (older {vs} {ws} {n} {w} a b) =
    omega (arith, Combines-Counts a, Combines-Counts b, merge_newer-mod n w, total-append ws vs)
Combines-Counts (finished {vs} {n} c) = omega (arith, Combines-Counts c, finish-decode n)

-- The one value that a history shows.
abbrev pub shown : History → Option Bytes
shown (base, []) = base
shown (base, m ∷ ms) = some (encode_int64 (total (with_base base (m ∷ ms))))

-- Whatever the order in which the store combines the operands.
pub Shows-shown : {h : History} {r : Option Bytes} → Shows h r → r ≡ shown h
unfolding merger_finish encode_int64
Shows-shown (unmerged base) = refl
Shows-shown (merged_to {base} {m} {ms} {n} c) =
    ap some (merger_finish-eq n (total (with_base base (m ∷ ms))) (Combines-Counts c))

-- One more merge.
shown-merge :
    (base : Option Bytes) (ms : List Bytes) (v : Bytes)
    → shown (base, ms ++ (v ∷ [])) ≡ effect (merge [] v) (shown (base, ms))
unfolding total
shown-merge base [] v =
    ap (λ x. some (encode_int64 x)) (omega (arith, total-with_base base (v ∷ [])))
    ∙ ap some (sym (merge_int64_sum (or_empty base) v))
shown-merge base (m ∷ ms) v =
    ap (λ x. some (encode_int64 x))
      (omega (
        arith,
        total-with_base base (m ∷ (ms ++ (v ∷ []))),
        total-with_base base (m ∷ ms),
        total-append ms (v ∷ []),
      ))
    ∙ ap some (sym (merge_sum (total (with_base base (m ∷ ms))) v))

shown-mutate : (op : BatchOp) (h : History) → shown (mutate op h) ≡ effect op (shown h)
unfolding mutate
shown-mutate (set k v) h = refl
shown-mutate (delete k) h = refl
shown-mutate (merge k v) (base, ms) = shown-merge base ms v

-- A batch moves what a history shows by its effects.
pub shown-mutate_all :
    (k : Bytes) (ops : List BatchOp) (h : History)
    → shown (mutate_all k ops h) ≡ effects k ops (shown h)
unfolding mutate_all effects
shown-mutate_all k [] h = refl
shown-mutate_all k (op ∷ ops) h = elim (Bool-cases (op_key op =ᵇ k)) [
  | inl here ↦
      rw here (shown-mutate_all k ops (mutate op h) ∙ ap (effects k ops) (shown-mutate op h))
  | inr away ↦ rw away (shown-mutate_all k ops h)
]

Combines-newer_all :
    (vs ws : List Bytes) (n : ℕ) → Combines vs (sum n) → Combines (vs ++ ws) (sum (newer_all ws n))
unfolding newer_all
Combines-newer_all vs [] n c = subst (λ l. Combines l (sum n)) (sym (append-nil vs)) c
Combines-newer_all vs (w ∷ ws) n c =
    subst (λ l. Combines l (sum (newer_all ws (merge_newer n w)))) (append_assoc vs (w ∷ []) ws)
      (Combines-newer_all (vs ++ (w ∷ [])) ws (merge_newer n w) (newer c (operand w)))

combined :
    (base : Option Bytes) (m : Bytes) (ms : List Bytes)
    → (n : ℕ) × Combines (with_base base (m ∷ ms)) (sum n)
combined none m ms = (_, Combines-newer_all (m ∷ []) ms (merger_merge m) (begun (operand m)))
combined (some b) m ms =
    (_, Combines-newer_all (b ∷ []) (m ∷ ms) (merger_merge b) (begun (operand b)))

-- There is an order: every history shows its value.
pub shown-Shows : (h : History) → Shows h (shown h)
shown-Shows (base, []) = unmerged base
shown-Shows (base, m ∷ ms) =
    let (n, c) = combined base m ms in
    subst (Shows (base, m ∷ ms)) (Shows-shown (merged_to c)) (merged_to c)

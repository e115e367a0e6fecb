-- ===== src/Tx/Checks.antt =====
-- `validate`, against the rule that it stands for; and the limit of a range.
use dpx.Base.{
  ℕ, zero, suc, ◌+◌, Bytes, false, leb, ◌==◌, ==_iff, ◌=ᵇ◌, =ᵇ_iff, ◌≡◌, ◌≢◌, ◌↔◌, refl, ap, All,
  List, [], ◌∷◌, if◌then◌else◌, ok, arith, take, length, Bool-cases, inl, inr, ◌<◌, ◌≤◌,
}
use dpx.Proposal.{WriteEntry, op_delete, op_credit}
use dpx.Tx.{Tx, is_credited, deletes_credited, validate, collect, get_range, Snapshot}

-- No write of the list is a credit of the key.
abbrev pub Uncredited : Bytes → List WriteEntry → Type 0
Uncredited k ws = All (λ (w : WriteEntry). w.op ≡ op_credit → w.key ≢ k) ws

-- No write deletes a key that another write credits.
abbrev pub IsCompatible : List WriteEntry → List WriteEntry → Type 0
IsCompatible all ws = All (λ (w : WriteEntry). w.op ≡ op_delete → Uncredited w.key all) ws

is_credited-Uncredited :
    (k : Bytes) (ws : List WriteEntry) → (is_credited k ws ≡ false) ↔ Uncredited k ws
unfolding is_credited
is_credited-Uncredited k [] = (λ _. tt, λ _. refl)
is_credited-Uncredited k (w ∷ ws) =
    let rest = is_credited-Uncredited k ws in
    let same = =ᵇ_iff w.key k in
    let op = ==_iff w.op op_credit in
    (
      λ h. (λ o e. ground (arith, h, o, e, same, op), rest.0 (ground arith)),
      λ (a, as'). elim (Bool-cases (w.op == op_credit)) [
        | inr n ↦ rw n (rest.1 as')
        | inl y ↦ elim (Bool-cases (w.key =ᵇ k)) [
          | inr n ↦ rw (y, n) (rest.1 as')
          | inl z ↦ absurd (a (op.0 y) (same.0 z))
        ]
      ],
    )

deletes_credited-IsCompatible :
    (all ws : List WriteEntry) → (deletes_credited all ws ≡ false) ↔ IsCompatible all ws
unfolding deletes_credited
deletes_credited-IsCompatible all [] = (λ _. tt, λ _. refl)
deletes_credited-IsCompatible all (w ∷ ws) =
    let rest = deletes_credited-IsCompatible all ws in
    let here = is_credited-Uncredited w.key all in
    let op = ==_iff w.op op_delete in
    (
      λ h. (λ o. here.0 (ground (arith, op.1 o)), rest.0 (ground arith)),
      λ (a, as'). elim (Bool-cases (w.op == op_delete)) [
        | inr n ↦ rw n (rest.1 as')
        | inl y ↦ rw (y, here.1 (a (op.0 y))) (rest.1 as')
      ],
    )

deletes_credited_nil : (ws : List WriteEntry) → length ws ≡ 0 → deletes_credited ws ws ≡ false
unfolding deletes_credited
deletes_credited_nil [] h = refl
deletes_credited_nil (w ∷ ws) h = absurd (omega arith)

validate-deletes_credited :
    (tx : Tx) → (validate tx ≡ ok tt) ↔ (deletes_credited tx.writes tx.writes ≡ false)
unfolding validate
validate-deletes_credited tx =
    (λ h. ground (arith, h, deletes_credited_nil tx.writes), λ h. ground (arith, h))

-- `validate` accepts a transaction exactly if no key is both deleted and credited in it, in
-- whatever order.
pub validate_iff : (tx : Tx) → (validate tx ≡ ok tt) ↔ IsCompatible tx.writes tx.writes
validate_iff tx =
    let d = deletes_credited-IsCompatible tx.writes tx.writes in
    let v = validate-deletes_credited tx in (λ h. d.0 (v.0 h), λ h. v.1 (d.1 h))

collect_full :
    (limit n : ℕ) (ps : List (Bytes × Bytes)) → 0 < limit → limit ≤ n → collect limit n ps ≡ []
unfolding collect
collect_full limit n [] p h = refl
collect_full limit n (x ∷ ps) p h = ground arith

collect-take :
    (m limit n : ℕ) (ps : List (Bytes × Bytes))
    → 0 < limit
    → n + m ≡ limit
    → collect limit n ps ≡ take m ps
unfolding collect
collect-take zero limit n ps p h = collect_full limit n ps p (omega arith)
collect-take (suc m) limit n [] p h = refl
collect-take (suc m) limit n (x ∷ ps) p h =
    let more : leb limit n ≡ false = ground arith in
    rw (more, collect-take m limit (n + 1) ps p (omega arith)) (ground arith)

collect_all : (n : ℕ) (ps : List (Bytes × Bytes)) → collect 0 n ps ≡ ps
unfolding collect
collect_all n [] = refl
collect_all n (x ∷ ps) = ap (λ l. x ∷ l) (collect_all (n + 1) ps)

-- A range read delivers what the snapshot's iterator does: all of it with the limit zero, else its
-- first pairs, no more than the limit.
get_range-take :
    (snap : Snapshot) (start end : Bytes) (limit : ℕ)
    → get_range snap start end limit
      ≡ (if limit == 0 then snap.new_iter start end else take limit (snap.new_iter start end))
unfolding get_range
get_range-take snap start end zero = collect_all 0 (snap.new_iter start end)
get_range-take snap start end (suc l) =
    ground
      (arith, collect-take (suc l) (suc l) 0 (snap.new_iter start end) (omega arith) (omega arith))

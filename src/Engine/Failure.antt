-- ===== src/Engine/Failure.antt =====
-- What a batch that fails leaves: a first part of it may have been applied.
use dpx.Base.{
  Bytes, false, ◌≡◌, ◌⊎◌, refl, sym, ap, ◌∙◌, List, [], ◌∷◌, ◌++◌, Option, none, some, Bool-cases,
  inl, inr, ◌=ᵇ◌, All, arith,
}
use dpx.Engine.{BatchOp, set, delete, merge, op_key, effect, effects, StorageEngine}
use dpx.Engine.Effect.{effects_other}

-- No mutation of the key.
abbrev Untouched : Bytes → List BatchOp → Type 0
Untouched k ops = All (λ op. (op_key op =ᵇ k) ≡ false) ops

-- What a batch does to a key: nothing, the same whatever it held, or it always leaves a value.
abbrev Touch : Bytes → List BatchOp → Type 0
Touch k ops =
    Untouched k ops
    ⊎ (((a b : Option Bytes) → effects k ops a ≡ effects k ops b)
        ⊎ ((a : Option Bytes) → (v : Bytes) × (effects k ops a ≡ some v)))

-- A mutation of the key.
effect-Touch :
    (k : Bytes) (op : BatchOp)
    → ((a b : Option Bytes) → effect op a ≡ effect op b)
      ⊎ ((a : Option Bytes) → (v : Bytes) × (effect op a ≡ some v))
effect-Touch k (set j v) = inl (λ a b. refl)
effect-Touch k (delete j) = inl (λ a b. refl)
effect-Touch k (merge j v) = inr (λ a. (_, refl))

effects-Touch : (k : Bytes) (ops : List BatchOp) → Touch k ops
unfolding effects
effects-Touch k [] = inl tt
effects-Touch k (op ∷ ops) = elim (Bool-cases (op_key op =ᵇ k)) [
  | inr away ↦ rw away (elim (effects-Touch k ops) [
    | inl untouched ↦ inl (refl, untouched)
    | inr touched ↦ inr touched
  ])
  | inl here ↦ rw here (elim (effects-Touch k ops) [
    | inr (inl constant) ↦ inr (inl (λ a b. constant (effect op a) (effect op b)))
    | inr (inr held) ↦ inr (inr (λ a. held (effect op a)))
    | inl untouched ↦ elim (effect-Touch k op) [
      | inl same ↦ inr (inl (λ a b. ap (effects k ops) (same a b)))
      | inr held ↦
          inr
            (inr (λ a. let (v, e) = held a in (v, effects_other k ops (effect op a) untouched ∙ e)))
    ]
  ])
]

-- A batch that leaves every value of a key as it was does not mutate the key.
identity-Untouched :
    (k : Bytes) (ops : List BatchOp)
    → ((old : Option Bytes) → effects k ops old ≡ old)
    → Untouched k ops
identity-Untouched k ops h = elim (effects-Touch k ops) [
  | inl untouched ↦ untouched
  | inr (inl constant) ↦
      let clash : none ≡ some [] = sym (h none) ∙ constant none (some []) ∙ h (some []) in
      absurd (ground (arith, clash))
  | inr (inr held) ↦
      let (v, e) = held none in
      let clash : none ≡ some v = sym (h none) ∙ e in absurd (ground (arith, clash))
]

Untouched-left : (k : Bytes) (xs ys : List BatchOp) → Untouched k (xs ++ ys) → Untouched k xs
Untouched-left k [] ys h = tt
Untouched-left k (x ∷ xs) ys (h, hs) = (h, Untouched-left k xs ys hs)

-- A batch that fails leaves the keys as they were that it would have left so.
pub get-failed_batch_same :
    (eng : StorageEngine) (ops : List BatchOp) (s : eng.State) (k : Bytes)
    → eng.apply_batch ops s ≡ none
    → ((old : Option Bytes) → effects k ops old ≡ old)
    → eng.get (eng.failed_batch ops s) k ≡ eng.get s k
get-failed_batch_same eng ops s k failed h =
    let (done, rest, split, values) = eng.get-failed_batch ops s failed in
    let all : Untouched k (done ++ rest) = rw (← split) (identity-Untouched k ops h) in
    values k ∙ effects_other k done (eng.get s k) (Untouched-left k done rest all)

-- The failure of an engine whose batches are atomic.
pub nothing_done :
    {S : Type 0} (get : S → Bytes → Option Bytes) (ops : List BatchOp) (s : S)
    → (done : List BatchOp) × (rest : List BatchOp) × (ops ≡ done ++ rest)
      × ((k : Bytes) → get s k ≡ effects k done (get s k))
unfolding effects
nothing_done get ops s = ([], ops, refl, λ k. refl)

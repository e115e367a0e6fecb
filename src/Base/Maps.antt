-- ===== src/Base/Maps.antt =====
-- A Go map with byte-string keys: an association list with one entry for each key.
use mathlib.Core.Path.{◌≡◌, refl, ap, ◌∙◌, subst}
use mathlib.Core.Bool.{false}
use mathlib.Core.Logic.{inl, inr}
use mathlib.Core.List.{List, [], ◌∷◌, ◌++◌}
use mathlib.Core.Option.{Option, none, some}
use native.Mathlib.Omega.{arith}
use dpx.Base.Tests.{if◌then◌else◌, Bool-cases}
use dpx.Base.Lists.{All, All-map, All-apply}
use dpx.Base.Keys.{Bytes, ◌=ᵇ◌, =ᵇ_iff}

abbrev pub Map {ℓ} : Type ℓ → Type ℓ
Map V = List (Bytes × V)

module _ {ℓ} {V : Type ℓ} where
  -- `v, ok := m[k]`
  unfoldable pub lookup : Bytes → Map V → Option V
  lookup k [] = none
  lookup k ((j, v) ∷ m) = if j =ᵇ k then some v else lookup k m

  -- `m[k] = v`
  unfoldable pub insert : Bytes → V → Map V → Map V
  insert k v [] = (k, v) ∷ []
  insert k v ((j, w) ∷ m) = if j =ᵇ k then (k, v) ∷ m else (j, w) ∷ insert k v m

  pub lookup-insert :
      (k j : Bytes) (v : V) (m : Map V)
      → lookup j (insert k v m) ≡ (if k =ᵇ j then some v else lookup j m)
  unfolding lookup insert
  lookup-insert k j v [] = refl
  lookup-insert k j v ((i, w) ∷ m) =
      ground (arith, =ᵇ_iff k j, =ᵇ_iff i k, =ᵇ_iff i j, lookup-insert k j v m)

-- Behind a test that two keys are the same, either stands for the other.
pub at_key :
    {V : Type 0} (a k : Bytes) (f : Bytes → V) (z : V)
    → (if a =ᵇ k then f a else z) ≡ (if a =ᵇ k then f k else z)
at_key a k f z = elim (Bool-cases (a =ᵇ k)) [
  | inl e ↦ rw e (ap f ((=ᵇ_iff a k).0 e))
  | inr n ↦ rw n refl
]

-- No key occurs twice.
abbrev pub Distinct : {V : Type 0} → Map V → Type 0
Distinct [] = Unit
Distinct ((k, v) ∷ rest) = (lookup k rest ≡ none) × Distinct rest

-- A new key is put at the end.
pub insert-append :
    {V : Type 0} (k : Bytes) (v : V) (m : Map V)
    → lookup k m ≡ none
    → insert k v m ≡ m ++ ((k, v) ∷ [])
unfolding lookup insert
insert-append k v [] h = refl
insert-append k v ((j, w) ∷ m) h = ground (arith, =ᵇ_iff j k, insert-append k v m)

lookup_apart :
    {V : Type 0} (j k : Bytes) (v : V) (m n : Map V)
    → lookup j (m ++ ((k, v) ∷ n)) ≡ none
    → (k =ᵇ j) ≡ false
unfolding lookup
lookup_apart j k v [] n h = ground arith
lookup_apart j k v ((i, w) ∷ m) n h = ground (arith, lookup_apart j k v m n)

-- A key behind others that are distinct from it is new.
pub lookup_before :
    {V : Type 0} (k : Bytes) (v : V) (m n : Map V)
    → Distinct (m ++ ((k, v) ∷ n))
    → lookup k m ≡ none
unfolding lookup
lookup_before k v [] n d = refl
lookup_before k v ((j, w) ∷ m) n (new, d) =
    ground (arith, lookup_before k v m n d, =ᵇ_iff j k, =ᵇ_iff k j, lookup_apart j k v m n new)

-- Where no key occurs twice, each pair is the one that is looked up.
pub Distinct-lookup :
    {V : Type 0} (m : Map V) → Distinct m → All (λ (p : Bytes × V). lookup p.0 m ≡ some p.1) m
unfolding lookup
Distinct-lookup [] d = tt
Distinct-lookup ((k, v) ∷ m) (new, d) = (
  rw ((=ᵇ_iff k k).1 refl) refl,
  All-map (λ p h. ground (arith, =ᵇ_iff k p.0)) m (Distinct-lookup m d),
)

missing_apart :
    {V : Type 0} (k : Bytes) (m : Map V)
    → lookup k m ≡ none
    → All (λ (e : Bytes × V). (e.0 =ᵇ k) ≡ false) m
unfolding lookup
missing_apart k [] h = tt
missing_apart k ((j, w) ∷ m) h = (ground (arith, h), missing_apart k m (ground (arith, h)))

pub All-insert :
    {V : Type 0} (P : Bytes × V → Type 0) (k : Bytes) (v : V) (m : Map V)
    → P (k, v)
    → Distinct m
    → All (λ (e : Bytes × V). (e.0 =ᵇ k) ≡ false → P e) m
    → All P (insert k v m)
unfolding insert
All-insert P k v [] p d h = (p, tt)
All-insert P k v ((j, w) ∷ m) p (new, d) (h, hs) = elim (Bool-cases (j =ᵇ k)) [
  | inl e ↦ rw e (
    p,
    All-apply (λ (e : Bytes × _). (e.0 =ᵇ k) ≡ false) P m
        (missing_apart k m (subst (λ i. lookup i m ≡ none) ((=ᵇ_iff j k).0 e) new)) hs,
  )
  | inr e ↦ rw e (h e, All-insert P k v m p d hs)
]

pub Distinct-insert :
    {V : Type 0} (k : Bytes) (v : V) (m : Map V) → Distinct m → Distinct (insert k v m)
unfolding insert lookup
Distinct-insert k v [] d = (refl, tt)
Distinct-insert k v ((j, w) ∷ m) (new, d) = elim (Bool-cases (j =ᵇ k)) [
  | inl e ↦ rw e (subst (λ i. lookup i m ≡ none) ((=ᵇ_iff j k).0 e) new, d)
  | inr e ↦ rw e (
    lookup-insert k j v m ∙ ground (arith, =ᵇ_iff j k, =ᵇ_iff k j, new, e),
    Distinct-insert k v m d,
  )
]

pub lookup-All :
    {V : Type 0} (P : Bytes × V → Type 0) (k : Bytes) (v : V) (m : Map V)
    → lookup k m ≡ some v
    → All P m
    → P (k, v)
unfolding lookup
lookup-All P k v [] h a = absurd (ground (arith, h))
lookup-All P k v ((j, w) ∷ m) h (p, a) = elim (Bool-cases (j =ᵇ k)) [
  | inl e ↦
      let value : w ≡ v = ground (arith, h, e) in
      subst (λ i. P (i, v)) ((=ᵇ_iff j k).0 e) (subst (λ x. P (j, x)) value p)
  | inr e ↦ lookup-All P k v m (ground (arith, h, e)) a
]

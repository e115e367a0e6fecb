-- ===== src/Memory/Joined.antt =====
-- The pairs of all shards, where every shard has only pairs of keys that hash to it.
use dpx.Base.{
  ℕ, zero, suc, ◌+◌, leb, ltb, Bytes, true, false, ◌&&◌, ◌==◌, ◌≡◌, refl, ap, sym, ◌∙◌, ◌++◌, [],
  ◌∷◌, Option, none, some, if◌then◌else◌, =ᵇ_iff, arith, Bool-cases, Option-cases, inl, inr, lookup,
  Distinct,
}
use dpx.Iter.Sort.{sort_pairs, lookup-sort_pairs, sort_pairs-IsSorted}
use dpx.Memory.{Pairs, IsSorted, num_shards, shard_for}
use dpx.Memory.Batches.{shard_for-lt}

-- The loop over the shards `i` and up, `n` of them, that collects what each has.
unfoldable pub join_shards : (ℕ → Pairs) → ℕ → ℕ → Pairs
join_shards each zero i = []
join_shards each (suc n) i = each i ++ join_shards each n (i + 1)

lookup-append :
    (l r : Pairs) (k : Bytes) (o : Option Bytes)
    → lookup k l ≡ o
    → lookup k (l ++ r) ≡ elim o [ none ↦ lookup k r | some v ↦ some v ]
unfolding lookup
lookup-append [] r k none h = refl
lookup-append [] r k (some v) h = absurd (ground (arith, h))
lookup-append ((j, w) ∷ l) r k none h = ground (arith, lookup-append l r k none)
lookup-append ((j, w) ∷ l) r k (some v) h = ground (arith, lookup-append l r k (some v))

-- No key occurs in both lists.
Apart : Pairs → Pairs → Type 0
Apart l r = (k v : Bytes) → lookup k l ≡ some v → lookup k r ≡ none

Distinct-append : (l r : Pairs) → Distinct l → Distinct r → Apart l r → Distinct (l ++ r)
unfolding Apart lookup
Distinct-append [] r dl dr apart = dr
Distinct-append ((k, w) ∷ l) r (new, dl) dr apart = (
  lookup-append l r k none new ∙ apart k w (ground (arith, =ᵇ_iff k k)),
  Distinct-append l r dl dr λ j v h. apart j v (ground (arith, h, new, =ᵇ_iff k j)),
)

module _ (each : ℕ → Pairs) (wanted : Bytes → Option Bytes)
    (own_shard : (i : ℕ) (k : Bytes) → (i == shard_for k) ≡ true → lookup k (each i) ≡ wanted k)
    (other_shards : (i : ℕ) (k : Bytes) → (i == shard_for k) ≡ false → lookup k (each i) ≡ none)
    (distinct : (i : ℕ) → Distinct (each i)) where
  lookup-join_shards :
      (n i : ℕ) (k : Bytes)
      → lookup k (join_shards each n i)
        ≡ (if leb i (shard_for k) && ltb (shard_for k) (i + n) then wanted k else none)
  unfolding join_shards lookup
  lookup-join_shards zero i k = ground arith
  lookup-join_shards (suc n) i k =
      let rest = join_shards each n (i + 1) in
      let later = lookup-join_shards n (i + 1) k in
      elim (Bool-cases (i == shard_for k)) [
        | inl own ↦
            let inside : (leb i (shard_for k) && ltb (shard_for k) (i + suc n)) ≡ true =
              ground arith in
            let done : (leb (i + 1) (shard_for k) && ltb (shard_for k) (i + 1 + n)) ≡ false =
              ground arith in
            elim (Option-cases (wanted k)) [
              | inl none' ↦
                  lookup-append (each i) rest k none (own_shard i k own ∙ none')
                  ∙ later
                  ∙ ap (λ c. if c then wanted k else none) done
                  ∙ sym none'
                  ∙ sym (ap (λ c. if c then wanted k else none) inside)
              | inr (v, some') ↦
                  lookup-append (each i) rest k (some v) (own_shard i k own ∙ some')
                  ∙ sym some'
                  ∙ sym (ap (λ c. if c then wanted k else none) inside)
            ]
        | inr other ↦
            lookup-append (each i) rest k none (other_shards i k other)
            ∙ later
            ∙ ap (λ c. if c then wanted k else none) (ground arith)
      ]

  Apart-later : (n i : ℕ) → Apart (each i) (join_shards each n (i + 1))
  unfolding Apart
  Apart-later n i k v h = elim (Bool-cases (i == shard_for k)) [
    | inl own ↦
        let done : (leb (i + 1) (shard_for k) && ltb (shard_for k) (i + 1 + n)) ≡ false =
          ground arith in
        lookup-join_shards n (i + 1) k ∙ ap (λ c. if c then wanted k else none) done
    | inr other ↦ absurd (ground (arith, h, other_shards i k other))
  ]

  join_shards-Distinct : (n i : ℕ) → Distinct (join_shards each n i)
  unfolding join_shards
  join_shards-Distinct zero i = tt
  join_shards-Distinct (suc n) i =
      Distinct-append (each i) (join_shards each n (i + 1)) (distinct i)
        (join_shards-Distinct n (i + 1)) (Apart-later n i)

  pub lookup-sort_pairs-join_shards :
      (k : Bytes)
      → (lookup k (sort_pairs (join_shards each num_shards 0)) ≡ wanted k)
        × IsSorted (sort_pairs (join_shards each num_shards 0))
  lookup-sort_pairs-join_shards k =
      let all = join_shards each num_shards 0 in
      let bound = shard_for-lt k in
      let inside : (leb 0 (shard_for k) && ltb (shard_for k) (0 + num_shards)) ≡ true =
        ground arith in
      (
        lookup-sort_pairs all k (join_shards-Distinct num_shards 0)
            ∙ lookup-join_shards num_shards 0 k
            ∙ ap (λ c. if c then wanted k else none) inside,
        sort_pairs-IsSorted all (join_shards-Distinct num_shards 0),
      )

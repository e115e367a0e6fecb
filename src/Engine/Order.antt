-- ===== src/Engine/Order.antt =====
-- Go's order of strings: bytewise, a prefix first.
use dpx.Base.{
  Bytes, Bool, true, false, ◌≡◌, refl, ◌&&◌, ◌||◌, not, ltb, ◌==◌, [], ◌∷◌, ◌=ᵇ◌, arith, ◌++◌, drop,
  length,
}

infix 50 ◌≺◌
unfoldable pub ◌≺◌ : Bytes → Bytes → Bool
[] ≺ [] = false
[] ≺ (y ∷ ys) = true
(x ∷ xs) ≺ [] = false
(x ∷ xs) ≺ (y ∷ ys) = ltb x y || ((x == y) && (xs ≺ ys))

-- `start <= k && (end == "" || k < end)`
unfoldable pub in_range : Bytes → Bytes → Bytes → Bool
unfolding ◌≺◌ ◌=ᵇ◌
in_range start end k = not (k ≺ start) && ((end =ᵇ []) || (k ≺ end))

pub ≺_irrefl : (a : Bytes) → a ≺ a ≡ false
unfolding ◌≺◌
≺_irrefl [] = refl
≺_irrefl (x ∷ xs) = ground (arith, ≺_irrefl xs)

pub ≺_trans : (a b c : Bytes) → a ≺ b ≡ true → b ≺ c ≡ true → a ≺ c ≡ true
unfolding ◌≺◌
≺_trans [] [] c p q = q
≺_trans [] (y ∷ ys) [] p q = q
≺_trans [] (y ∷ ys) (z ∷ zs) p q = refl
≺_trans (x ∷ xs) [] c p q = ground arith
≺_trans (x ∷ xs) (y ∷ ys) [] p q = q
≺_trans (x ∷ xs) (y ∷ ys) (z ∷ zs) p q = ground (arith, ≺_trans xs ys zs)

-- Of two strings that are not in order, either the other order holds or they are the same.
pub ≺_total : (a b : Bytes) → a ≺ b ≡ false → (a =ᵇ b) ≡ false → b ≺ a ≡ true
unfolding ◌≺◌ ◌=ᵇ◌
≺_total [] [] p q = ground arith
≺_total [] (y ∷ ys) p q = ground arith
≺_total (x ∷ xs) [] p q = refl
≺_total (x ∷ xs) (y ∷ ys) p q = ground (arith, ≺_total xs ys)

-- Strings under one prefix are ordered by what follows it.
pub ≺-append : (p a b : Bytes) → (p ++ a) ≺ (p ++ b) ≡ a ≺ b
unfolding ◌≺◌
≺-append [] a b = refl
≺-append (x ∷ p) a b = ground (arith, ≺-append p a b)

-- What lies between a prefix and an extension of it starts with the prefix.
pub starts_with_of_between :
    (p e k : Bytes) → k ≺ p ≡ false → k ≺ (p ++ e) ≡ true → k ≡ p ++ drop (length p) k
unfolding ◌≺◌
starts_with_of_between [] e k low high = refl
starts_with_of_between (x ∷ p) e [] low high = absurd (ground arith)
starts_with_of_between (x ∷ p) e (y ∷ k) low high = ground (arith, starts_with_of_between p e k)

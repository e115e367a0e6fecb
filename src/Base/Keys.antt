-- ===== src/Base/Keys.antt =====
-- Byte strings: Go's `[]byte` and `string`. A byte is a number below 256.
use Prim.Native.Nat.{ℕ}
use mathlib.Core.Path.{◌≡◌}
use mathlib.Core.Logic.{◌↔◌}
use mathlib.Core.Bool.{Bool, true, false, ◌&&◌}
use mathlib.Core.List.{List, [], ◌∷◌}
use native.Mathlib.Omega.{arith}
use dpx.Base.Tests.{◌==◌}

abbrev pub Bytes : Type 0
Bytes = List ℕ

-- `bytes.Equal`, and `==` on strings.
infix 50 ◌=ᵇ◌
unfoldable pub ◌=ᵇ◌ : Bytes → Bytes → Bool
[] =ᵇ [] = true
[] =ᵇ (y ∷ ys) = false
(x ∷ xs) =ᵇ [] = false
(x ∷ xs) =ᵇ (y ∷ ys) = (x == y) && (xs =ᵇ ys)

pub =ᵇ_iff : (a b : Bytes) → ((a =ᵇ b) ≡ true) ↔ (a ≡ b)
unfolding ◌=ᵇ◌
=ᵇ_iff [] [] = ground arith
=ᵇ_iff [] (y ∷ ys) = ground arith
=ᵇ_iff (x ∷ xs) [] = ground arith
=ᵇ_iff (x ∷ xs) (y ∷ ys) = ground (arith, =ᵇ_iff xs ys)

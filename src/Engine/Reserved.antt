-- ===== src/Engine/Reserved.antt =====
-- The metadata keys are reserved, and no key of a user is one of them.
use dpx.Base.{Bytes, true, false, ◌≡◌, refl, ◌=ᵇ◌, =ᵇ_iff, arith}
use dpx.Engine.{is_reserved, version_key, applied_key}

pub version_key_reserved : (k : Bytes) → is_reserved (version_key k) ≡ true
unfolding is_reserved version_key
version_key_reserved k = ground arith

pub applied_key_reserved : is_reserved applied_key ≡ true
unfolding is_reserved
applied_key_reserved = refl

pub reserved_apart : (r k : Bytes) → is_reserved r ≡ true → is_reserved k ≡ false → (r =ᵇ k) ≡ false
reserved_apart r k p q = ground (arith, =ᵇ_iff r k)

-- Distinct keys have distinct version keys.
pub version_key-eq : (a b : Bytes) → (version_key a =ᵇ version_key b) ≡ (a =ᵇ b)
unfolding version_key ◌=ᵇ◌
version_key-eq a b = refl

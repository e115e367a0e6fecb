-- ===== src/Engine/Effect.antt =====
-- How the effect of a batch on one key composes.
use dpx.Base.{
  Bytes, false, ◌≡◌, refl, List, [], ◌∷◌, ◌++◌, Option, if◌then◌else◌, ◌=ᵇ◌, =ᵇ_iff, All,
}
use dpx.Codec.{add64, decode_int64}
use dpx.Codec.Words.{decode_int64-encode_int64, add64_comm, add64_assoc, add64-lt}
use dpx.Engine.{BatchOp, merge, op_key, effect, effects, merge_int64, or_empty}

pub effects-append :
    (k : Bytes) (xs ys : List BatchOp) (old : Option Bytes)
    → effects k (xs ++ ys) old ≡ effects k ys (effects k xs old)
unfolding effects
effects-append k [] ys old = refl
effects-append k (x ∷ xs) ys old =
    effects-append k xs ys (if op_key x =ᵇ k then effect x old else old)

-- Mutations of other keys leave a key alone.
pub effects_other :
    (k : Bytes) (ops : List BatchOp) (old : Option Bytes)
    → All (λ op. (op_key op =ᵇ k) ≡ false) ops
    → effects k ops old ≡ old
unfolding effects
effects_other k [] old h = refl
effects_other k (op ∷ ops) old (h, hs) = rw h (effects_other k ops old hs)

merge_twice :
    (old a b : Bytes) → merge_int64 (merge_int64 old a) b ≡ merge_int64 (merge_int64 old b) a
unfolding merge_int64
merge_twice old a b =
    let x = decode_int64 old in
    let y = decode_int64 a in
    let z = decode_int64 b in
    rw (
      decode_int64-encode_int64 (add64 x y) (add64-lt x y),
      decode_int64-encode_int64 (add64 x z) (add64-lt x z),
      add64_assoc x y z,
      add64_assoc x z y,
      add64_comm y z,
    )

-- Two additions to one key give the same value in either order, whatever the key held: credits
-- (and debits) commute.
pub effects-merge_comm :
    (k a b : Bytes) (old : Option Bytes)
    → effects k (merge k a ∷ merge k b ∷ []) old ≡ effects k (merge k b ∷ merge k a ∷ []) old
unfolding effects
effects-merge_comm k a b old = rw ((=ᵇ_iff k k).1 refl, merge_twice (or_empty old) a b)

-- ===== src/Engine.antt =====
-- engine/engine.go: the batch of mutations and the `StorageEngine` interface, with what its comments
-- promise as laws; and helpers.go: the reserved prefix and the metadata keys of the engine.
pub mod Order
pub mod Effect
pub mod Failure
pub mod Reserved
use dpx.Base.{
  ℕ, Bytes, Bool, true, false, ◌≡◌, ◌&&◌, leb, length, take, ◌++◌, List, [], ◌∷◌, Option, none,
  some, lookup, Distinct, if◌then◌else◌, ◌=ᵇ◌,
}
use dpx.Codec.{encode_int64, decode_int64, add64}
use dpx.Engine.Order.{in_range}

-- `Batch.Set`, `Batch.Delete` and `Batch.Merge`; the engines keep them as 's', 'd' and 'm'.
pub data BatchOp : Type 0 where
  set : Bytes → Bytes → BatchOp
  delete : Bytes → BatchOp
  merge : Bytes → Bytes → BatchOp

abbrev pub op_key : BatchOp → Bytes
op_key (set k v) = k
op_key (delete k) = k
op_key (merge k v) = k

-- `old, _ := tree.Get(...)`: a missing value is empty.
abbrev pub or_empty : Option Bytes → Bytes
or_empty none = []
or_empty (some v) = v

-- `mergeInt64`: the sum of two encoded `int64` values, the missing one 0.
unfoldable pub merge_int64 : Bytes → Bytes → Bytes
merge_int64 base delta = encode_int64 (add64 (decode_int64 base) (decode_int64 delta))

-- What one mutation of a key makes of its value.
abbrev pub effect : BatchOp → Option Bytes → Option Bytes
effect (set k v) old = some v
effect (delete k) old = none
effect (merge k v) old = some (merge_int64 (or_empty old) v)

-- What a batch makes of the value of the key `k`: its mutations of `k`, in order.
unfoldable pub effects : Bytes → List BatchOp → Option Bytes → Option Bytes
effects k [] old = old
effects k (op ∷ ops) old = effects k ops (if op_key op =ᵇ k then effect op old else old)

-- A backend. `apply_batch` is `none` where `ApplyBatch` returns an error, and then `failed_batch` is
-- the state that it leaves. The interface calls batches atomic; the engine over Oshodi is not, so the
-- law of a failure is that a first part of the batch has been applied, which may be none of it.
-- `sync_ok` is whether `Sync` succeeds; durability is not modelled.
pub record StorageEngine : Type 1 where
  pub State : Type 0
  pub get : State → Bytes → Option Bytes
  pub apply_batch : List BatchOp → State → Option State
  pub failed_batch : List BatchOp → State → State
  pub sync_ok : State → Bool
  pub raw_iter : Bytes → Bytes → State → List (Bytes × Bytes)
  pub get-apply_batch :
      (ops : List BatchOp) (s t : State) (k : Bytes)
      → apply_batch ops s ≡ some t
      → get t k ≡ effects k ops (get s k)
  pub get-failed_batch :
      (ops : List BatchOp) (s : State)
      → apply_batch ops s ≡ none
      → (done : List BatchOp) × (rest : List BatchOp) × (ops ≡ done ++ rest)
        × ((k : Bytes) → get (failed_batch ops s) k ≡ effects k done (get s k))
  pub lookup-raw_iter :
      (start end : Bytes) (s : State) (k : Bytes)
      → lookup k (raw_iter start end s) ≡ (if in_range start end k then get s k else none)
  pub raw_iter-Distinct : (start end : Bytes) (s : State) → Distinct (raw_iter start end s)

-- helpers.go: `dpxPrefixBytes`, and the prefixes "__dpx:ver:" and "__dpx:applied".
abbrev pub dpx_prefix : Bytes
dpx_prefix = b'_' ∷ b'_' ∷ b'd' ∷ b'p' ∷ b'x' ∷ b':' ∷ []

unfoldable pub is_reserved : Bytes → Bool
unfolding ◌=ᵇ◌
is_reserved key =
    leb (length dpx_prefix) (length key) && (take (length dpx_prefix) key =ᵇ dpx_prefix)

abbrev pub version_prefix : Bytes
version_prefix = b'_' ∷ b'_' ∷ b'd' ∷ b'p' ∷ b'x' ∷ b':' ∷ b'v' ∷ b'e' ∷ b'r' ∷ b':' ∷ []

unfoldable pub version_key : Bytes → Bytes
version_key key = version_prefix ++ key

abbrev pub applied_key : Bytes
applied_key =
    b'_' ∷ b'_' ∷ b'd' ∷ b'p' ∷ b'x' ∷ b':' ∷ b'a' ∷ b'p' ∷ b'p' ∷ b'l' ∷ b'i' ∷ b'e' ∷ b'd' ∷ []

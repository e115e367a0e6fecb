-- ===== src/Pebble/Merger.antt =====
-- `Int64Merger`, against the effect of a merge in engine/engine.go.
use Prim.Native.Nat.{◌*◌}
use dpx.Base.{
  ℕ, zero, suc, ◌+◌, ◌%◌, ◌/◌, ◌≡◌, refl, ap, sym, ◌∙◌, Bytes, List, [], ◌∷◌, arith, Option, none,
  some, if◌then◌else◌, ◌++◌, =ᵇ_iff,
}
use dpx.Codec.{add64, two64, put_uint, encode_int64, decode_int64}
use dpx.Codec.Words.{decode_int64-encode_int64}
use dpx.Engine.{BatchOp, merge, merge_int64, effect, effects, or_empty}
use dpx.Pebble.{merger_merge, merge_newer, merge_older, merger_finish, with_base}

shift : ℕ → ℕ → ℕ
shift zero q = q
shift (suc w) q = 256 * shift w q

put_uint_above : (w x q : ℕ) → put_uint w (x + shift w q) ≡ put_uint w x
unfolding put_uint shift
put_uint_above zero x q = refl
put_uint_above (suc w) x q =
    let low : (x + 256 * shift w q) % 256 ≡ x % 256 = omega arith in
    let high : (x + 256 * shift w q) / 256 ≡ x / 256 + shift w q = omega arith in
    rw (low, high, put_uint_above w (x / 256) q) refl

-- What is written is the number modulo 2 ^ 64.
encode_int64_wraps : (v : ℕ) → encode_int64 (v % two64) ≡ encode_int64 v
unfolding encode_int64 shift
encode_int64_wraps v =
    let whole : v ≡ v % two64 + shift 8 (v / two64) = omega arith in
    sym (ap (put_uint 8) whole ∙ put_uint_above 8 (v % two64) (v / two64))

merge_newer-add64 : (sum : ℕ) (v : Bytes) → merge_newer sum v % two64 ≡ add64 sum (decode_int64 v)
unfolding merge_newer add64 decode_int64
merge_newer-add64 sum v = ground arith

pub merger_merge-decode_int64 : (v : Bytes) → merger_merge v ≡ decode_int64 v
unfolding merger_merge decode_int64
merger_merge-decode_int64 v = refl

pub merger_finish-eq : (a b : ℕ) → a % two64 ≡ b % two64 → merger_finish a ≡ merger_finish b
unfolding merger_finish encode_int64
merger_finish-eq a b h = sym (encode_int64_wraps a) ∙ ap encode_int64 h ∙ encode_int64_wraps b

merger_finish-add64 :
    (a x y : ℕ) → a % two64 ≡ (x + y) % two64 → merger_finish a ≡ encode_int64 (add64 x y)
unfolding add64 merger_finish encode_int64
merger_finish-add64 a x y h = merger_finish-eq a ((x + y) % two64) (omega (arith, h))

pub merge_newer-mod :
    (sum : ℕ) (v : Bytes) → merge_newer sum v % two64 ≡ (sum + decode_int64 v) % two64
unfolding add64
merge_newer-mod sum v = merge_newer-add64 sum v

-- The sum of operands, before it wraps.
unfoldable pub total : List Bytes → ℕ
total [] = 0
total (v ∷ vs) = decode_int64 v + total vs

-- The merger's value of operands, from the oldest to the newest: `MergeNewer` takes them as they
-- come, `MergeOlder` from the last to the first.
unfoldable pub newer_all : List Bytes → ℕ → ℕ
newer_all [] sum = sum
newer_all (v ∷ vs) sum = newer_all vs (merge_newer sum v)

unfoldable pub older_all : List Bytes → ℕ → ℕ
older_all [] sum = sum
older_all (v ∷ vs) sum = merge_older (older_all vs sum) v

newer_all-total : (vs : List Bytes) (sum : ℕ) → newer_all vs sum % two64 ≡ (sum + total vs) % two64
unfolding newer_all total
newer_all-total [] sum = omega arith
newer_all-total (v ∷ vs) sum =
    omega (arith, newer_all-total vs (merge_newer sum v), merge_newer-mod sum v)

older_all-total : (vs : List Bytes) (sum : ℕ) → older_all vs sum % two64 ≡ (sum + total vs) % two64
unfolding older_all total merge_older
older_all-total [] sum = omega arith
older_all-total (v ∷ vs) sum =
    omega (arith, older_all-total vs sum, merge_newer-mod (older_all vs sum) v)

pub total-append : (xs ys : List Bytes) → total (xs ++ ys) ≡ total xs + total ys
unfolding total
total-append [] ys = omega arith
total-append (x ∷ xs) ys = omega (arith, total-append xs ys)

abbrev pub merges : Bytes → List Bytes → List BatchOp
merges k [] = []
merges k (v ∷ vs) = merge k v ∷ merges k vs

pub decode-encode_wraps : (a : ℕ) → decode_int64 (encode_int64 a) ≡ a % two64
decode-encode_wraps a =
    ap decode_int64 (sym (encode_int64_wraps a))
    ∙ decode_int64-encode_int64 (a % two64) (omega arith)

-- A merge behind a stored sum.
pub merge_sum :
    (a : ℕ) (v : Bytes) → merge_int64 (encode_int64 a) v ≡ encode_int64 (a + decode_int64 v)
unfolding merge_int64 merger_finish add64 encode_int64
merge_sum a v =
    ap (λ x. encode_int64 (add64 x (decode_int64 v))) (decode-encode_wraps a)
    ∙ merger_finish-eq (add64 (a % two64) (decode_int64 v)) (a + decode_int64 v) (omega arith)

effects-merge :
    (k v : Bytes) (ops : List BatchOp) (old : Option Bytes)
    → effects k (merge k v ∷ ops) old ≡ effects k ops (some (merge_int64 (or_empty old) v))
unfolding effects
effects-merge k v ops old =
    ap (λ b. effects k ops (if b then effect (merge k v) old else old)) ((=ᵇ_iff k k).1 refl)

effects-merges :
    (k : Bytes) (vs : List Bytes) (a : ℕ)
    → effects k (merges k vs) (some (encode_int64 a)) ≡ some (encode_int64 (a + total vs))
unfolding effects total
effects-merges k [] a = ap (λ x. some (encode_int64 x)) (omega arith)
effects-merges k (v ∷ vs) a =
    effects-merge k v (merges k vs) (some (encode_int64 a))
    ∙ ap (λ b. effects k (merges k vs) (some b)) (merge_sum a v)
    ∙ effects-merges k vs (a + decode_int64 v)
    ∙ ap (λ x. some (encode_int64 x)) (omega arith)

pub merge_int64_sum :
    (b d : Bytes) → merge_int64 b d ≡ encode_int64 (decode_int64 b + decode_int64 d)
unfolding merge_int64 add64
merge_int64_sum b d = encode_int64_wraps (decode_int64 b + decode_int64 d)

-- Operands behind a value, or behind none, come to one sum with it.
effects_base :
    (k d : Bytes) (ds : List Bytes) (old : Option Bytes)
    → effects k (merges k (d ∷ ds)) old
      ≡ some (encode_int64 (decode_int64 (or_empty old) + total (d ∷ ds)))
unfolding total
effects_base k d ds old =
    effects-merge k d (merges k ds) old
    ∙ ap (λ b. effects k (merges k ds) (some b)) (merge_int64_sum (or_empty old) d)
    ∙ effects-merges k ds (decode_int64 (or_empty old) + decode_int64 d)
    ∙ ap (λ x. some (encode_int64 x)) (omega arith)

-- The merger's value of the operands `olds`, `v` and `news`, taken from `v` on.
abbrev pub merged : List Bytes → Bytes → List Bytes → Bytes
merged olds v news = merger_finish (newer_all news (older_all olds (merger_merge v)))

merged-total :
    (olds : List Bytes) (v : Bytes) (news : List Bytes)
    → merged olds v news ≡ encode_int64 (total (olds ++ (v ∷ news)))
unfolding merger_finish encode_int64 total
merged-total olds v news =
    merger_finish-eq (newer_all news (older_all olds (merger_merge v))) (total (olds ++ (v ∷ news)))
      (omega (
        arith,
        newer_all-total news (older_all olds (merger_merge v)),
        older_all-total olds (merger_merge v),
        total-append olds (v ∷ news),
        merger_merge-decode_int64 v,
      ))

pub total-with_base :
    (old : Option Bytes) (vs : List Bytes)
    → total (with_base old vs) ≡ decode_int64 (or_empty old) + total vs
unfolding total decode_int64
total-with_base none vs = omega arith
total-with_base (some b) vs = refl

effects-nonempty :
    (k : Bytes) (old : Option Bytes) (olds : List Bytes) (v : Bytes) (news : List Bytes)
    → effects k (merges k (olds ++ (v ∷ news))) old
      ≡ some (encode_int64 (decode_int64 (or_empty old) + total (olds ++ (v ∷ news))))
effects-nonempty k old [] v news = effects_base k v news old
effects-nonempty k old (d ∷ olds) v news = effects_base k d (olds ++ (v ∷ news)) old

-- From whichever of the merged operands the store starts the merger, with the older ones and the
-- value below them, if there is one, through `MergeOlder` and the newer ones through `MergeNewer`, the
-- result is the value that the merges make one after the other.
pub merged-effects :
    (k : Bytes) (old : Option Bytes) (olds : List Bytes) (v : Bytes) (news : List Bytes)
    → some (merged (with_base old olds) v news) ≡ effects k (merges k (olds ++ (v ∷ news))) old
merged-effects k old olds v news =
    ap some (
      merged-total (with_base old olds) v news
      ∙ ap encode_int64 (
          total-append (with_base old olds) (v ∷ news)
          ∙ omega (arith, total-with_base old olds, total-append olds (v ∷ news))))
    ∙ sym (effects-nonempty k old olds v news)

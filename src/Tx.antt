-- ===== src/Tx.antt =====
-- tx.go: the transaction that `RunInTx` hands to its function, over any snapshot of an engine. The
-- read set is a Go map, so an association list; `nil` and the empty value are not told apart.
pub mod Checks
pub mod Calls
pub mod Gets
pub mod Reads
pub mod Downgrade
mod Tests
use dpx.Base.{
  ℕ, suc, ◌+◌, ◌≡◌, refl, Bytes, Bool, true, false, not, ◌&&◌, ◌||◌, ltb, leb, ◌==◌, ◌=ᵇ◌, length,
  ◌++◌, List, [], ◌∷◌, if◌then◌else◌, Map, insert, Option, none, some, Result, ok, err, take,
}
use dpx.Codec.{EpochRecord, no_epoch, add64, is_positive, is_negative, encode_int64, decode_int64}
use dpx.Engine.{is_reserved}
use dpx.Proposal.{ReadEntry, WriteEntry, op_set, op_delete, op_credit, op_debit}

-- What a read of the engine comes to: `not_found` is `engine.ErrKeyNotFound`, `broken` another error.
pub data Answer {ℓ} (A : Type ℓ) : Type ℓ where
  got : A → Answer A
  not_found broken : Answer A

-- The value of an answer, if there is one.
abbrev pub or_missing {ℓ} : {A : Type ℓ} → Answer A → Option A
or_missing (got a) = some a
or_missing not_found = none
or_missing broken = none

pub or_missing-if :
    (c : Bool) (x y : Answer Bytes)
    → or_missing (if c then x else y) ≡ (if c then or_missing x else or_missing y)
or_missing-if true x y = refl
or_missing-if false x y = refl

-- `engine.Snapshot`; `new_iter` lists the pairs that its iterator delivers, which does not fail.
pub record Snapshot : Type 0 where
  pub get : Bytes → Answer Bytes
  pub get_version : Bytes → Answer EpochRecord
  pub new_iter : Bytes → Bytes → List (Bytes × Bytes)
  pub sequence : ℕ

pub data TxError : Type 0 where
  reserved_key key_not_found engine_error invalid_proposal : TxError

-- `dpxTx`
pub record Tx : Type 0 where
  pub read_set : Map ReadEntry
  pub writes : List WriteEntry

abbrev pub new_tx : Tx
new_tx = record { read_set = []; writes = [] }

abbrev pub plain_read : Bytes → ReadEntry
plain_read key = record { key = key; epoch = 0; is_debit = false }

-- `Get` from the engine's answer on.
unfoldable pub record_read : Bytes → Answer Bytes → Tx → Result TxError Bytes × Tx
record_read key not_found tx = (err key_not_found, tx)
record_read key broken tx = (err engine_error, tx)
record_read key (got val) tx =
    (ok val, record tx { read_set = insert key (plain_read key) tx.read_set })

unfoldable pub get : Snapshot → Bytes → Tx → Result TxError Bytes × Tx
get snap key tx =
    if is_reserved key then (err reserved_key, tx) else record_read key (snap.get key) tx

abbrev pub buffer : ℕ → Bytes → Bytes → Tx → Tx
buffer op key value tx = record tx {
  writes = tx.writes ++ (record { op = op; key = key; value = value } ∷ []);
}

unfoldable pub set : Bytes → Bytes → Tx → Result TxError (Unit {0}) × Tx
set key value tx =
    if is_reserved key then (err reserved_key, tx) else (ok tt, buffer op_set key value tx)

unfoldable pub delete : Bytes → Tx → Result TxError (Unit {0}) × Tx
delete key tx =
    if is_reserved key then (err reserved_key, tx) else (ok tt, buffer op_delete key [] tx)

-- `val` after an error that is not `ErrKeyNotFound` is not used.
abbrev pub or_nothing : Answer Bytes → Bytes
or_nothing (got val) = val
or_nothing not_found = []
or_nothing broken = []

abbrev pub or_unversioned : Answer EpochRecord → EpochRecord
or_unversioned (got ver) = ver
or_unversioned not_found = no_epoch
or_unversioned broken = no_epoch

abbrev pub is_broken {ℓ} : {A : Type ℓ} → Answer A → Bool
is_broken (got a) = false
is_broken not_found = false
is_broken broken = true

-- `AtomicAdd` once both reads have succeeded, for a `delta` that is not positive.
unfoldable pub debit : Snapshot → Bytes → ℕ → Tx → Result TxError ℕ × Tx
debit snap key delta tx =
    let ver = or_unversioned (snap.get_version key) in
    let re : ReadEntry = record { key = key; epoch = ver.epoch; is_debit = true } in
    let tx' = record tx { read_set = insert key re tx.read_set } in
    (
      ok (add64 (decode_int64 (or_nothing (snap.get key))) delta),
      if is_negative delta then buffer op_debit key (encode_int64 delta) tx' else tx',
    )

-- `delta` is the bit pattern of an `int64`.
unfoldable pub atomic_add : Snapshot → Bytes → ℕ → Tx → Result TxError ℕ × Tx
atomic_add snap key delta tx =
    if is_reserved key
    then (err reserved_key, tx)
    else if is_broken (snap.get key)
    then (err engine_error, tx)
    else if is_positive delta
    then (
      ok (decode_int64 (or_nothing (snap.get key))),
      buffer op_credit key (encode_int64 delta) tx,
    )
    else if is_broken (snap.get_version key)
    then (err engine_error, tx)
    else debit snap key delta tx

-- The loop of `GetRange` and of `collectIter` over what is left of the iterator, with `n` pairs
-- collected. A limit of zero is no limit.
unfoldable pub collect : ℕ → ℕ → List (Bytes × Bytes) → List (Bytes × Bytes)
collect limit n [] = []
collect limit n (p ∷ ps) = if ltb 0 limit && leb limit n then [] else p ∷ collect limit (n + 1) ps

unfoldable pub get_range : Snapshot → Bytes → Bytes → ℕ → List (Bytes × Bytes)
get_range snap start end limit = collect limit 0 (snap.new_iter start end)

abbrev pub is_empty : Tx → Bool
is_empty tx = length tx.writes == 0

abbrev pub with_version : Answer EpochRecord → ReadEntry → ReadEntry
with_version (got ver) re = record re { epoch = ver.epoch }
with_version not_found re = re
with_version broken re = re

-- One round of the loop of `readSetSlice`.
unfoldable pub hydrate : Snapshot → ReadEntry → ReadEntry
hydrate snap re =
    if (re.epoch == 0) && not re.is_debit then with_version (snap.get_version re.key) re else re

unfoldable pub hydrate_all : Snapshot → Map ReadEntry → List ReadEntry
hydrate_all snap [] = []
hydrate_all snap ((k, re) ∷ m) = hydrate snap re ∷ hydrate_all snap m

-- `readSetSlice`. Go walks the map in any order; the one here is that of the first insertions.
unfoldable pub read_set_slice : Snapshot → Tx → List ReadEntry
read_set_slice snap tx = hydrate_all snap tx.read_set

-- `credits[k]` holds the key: there is a credit of it.
unfoldable pub is_credited : Bytes → List WriteEntry → Bool
is_credited k [] = false
is_credited k (w ∷ ws) = ((w.op == op_credit) && (w.key =ᵇ k)) || is_credited k ws

-- The second loop of `validate`, with all writes beside those to go.
unfoldable pub deletes_credited : List WriteEntry → List WriteEntry → Bool
deletes_credited all [] = false
deletes_credited all (w ∷ ws) =
    ((w.op == op_delete) && is_credited w.key all) || deletes_credited all ws

unfoldable pub validate : Tx → Result TxError (Unit {0})
validate tx =
    if is_empty tx
    then ok tt
    else if deletes_credited tx.writes tx.writes
    then err invalid_proposal
    else ok tt

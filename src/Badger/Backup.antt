-- ===== src/Badger/Backup.antt =====
-- `CreateCheckpoint` of the engine over Badger, and the dump that it writes.
use dpx.Base.{
  Bytes, false, ltb, ◌==◌, length, length-append, [], ◌≡◌, ◌<◌, refl, All, Map, Distinct, lookup,
  ok, arith,
}
use dpx.Codec.{two64}
use dpx.Codec.Words.{length-put_uint}
use dpx.Codec.Cursor.{uint_at-put_uint}
use dpx.Dump.{put_pairs}
use dpx.Dump.Decoding.{PairFits, decode_pairs-put, length-put_pairs}
use dpx.Memory.Scans.{IsSorted-Distinct}
use dpx.Badger.{
  BadgerStore, badger_dump_size, encode_badger_dump, decode_badger_dump, checkpoint, get_badger,
}

-- The size that `encodeDump` computes before its loop is the length of what it writes.
pub length-encode_badger_dump : (m : Map Bytes) → length (encode_badger_dump m) ≡ badger_dump_size m
unfolding encode_badger_dump badger_dump_size
length-encode_badger_dump m =
    simp (length-append, length-put_uint) (omega (arith, length-put_pairs m))

decode_badger_dump-encode_dump :
    (m : Map Bytes)
    → Distinct m
    → All PairFits m
    → length m < two64
    → decode_badger_dump (encode_badger_dump m) ≡ ok m
unfolding decode_badger_dump
decode_badger_dump-encode_dump m distinct fits count =
    let long = length-encode_badger_dump m in
    let some' : (length (encode_badger_dump m) == 0) ≡ false =
      unfold badger_dump_size in ground (arith, long) in
    let long' : ltb (length (encode_badger_dump m)) 8 ≡ false =
      unfold badger_dump_size in ground (arith, long) in
    rw (some', long')
      (unfold encode_badger_dump in
        rw
          (uint_at-put_uint 8 (length m) (put_pairs m) count, decode_pairs-put 0 [] m fits distinct)
          refl)

-- The dump of a database whose keys, values and number of keys fit their fields decodes to a map
-- with every key's value.
pub decode_badger_dump-checkpoint :
    (b : BadgerStore) (db : b.Db)
    → All PairFits (b.all (b.new_transaction db))
    → length (b.all (b.new_transaction db)) < two64
    → (m : Map Bytes) × (decode_badger_dump (checkpoint b db) ≡ ok m)
      × ((k : Bytes) → lookup k m ≡ get_badger b db k)
unfolding checkpoint get_badger
decode_badger_dump-checkpoint b db fits count =
    let t = b.new_transaction db in
    (
      b.all t,
      decode_badger_dump-encode_dump (b.all t) (IsSorted-Distinct (b.all t) (b.all-IsSorted t)) fits
          count,
      b.lookup-all t,
    )

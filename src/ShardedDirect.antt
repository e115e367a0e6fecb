-- ===== src/ShardedDirect.antt =====
-- conductor/sharded_direct.go: the proposer of an embedded node over a sharded engine. Each of its
-- shards has an index, the epochs and an applied counter of its own; the engine is shared. The lock
-- of a shard is not modelled: `applyInline` is one step.
pub mod Inline
pub mod Cross
pub mod Kept
pub mod Versions
mod Tests
use dpx.Base.{
  ℕ, Bytes, Bool, true, false, ◌&&◌, leb, ◌==◌, length, ◌++◌, List, [], ◌∷◌, Option, none, some,
  if◌then◌else◌, insert, Result, ok, err, panic, ◌*◌, ◌^◌, ◌%◌,
}
use dpx.Codec.{EpochRecord, encode_epoch_record, encode_uint64, add64}
use dpx.Engine.{BatchOp, set, StorageEngine, version_key, applied_key, version_prefix}
use dpx.Proposal.{WriteEntry, Proposal, DecodeError, unmarshal, op_credit}
use dpx.Mvcc.{Mvcc}
use dpx.Mvcc
use Prim.Native.Nat.{bit_and, bit_xor}
use dpx.Fsm.{
  FsmError, Epochs, ApplyResult, applied_ok, conflicted, failed, engine_failed, detect_conflict,
  write_op, epoch_record, Fsm, open_fsm,
}
use dpx.Direct.{max_stack_shadow, known_op}

-- The loop of `shardFor`.
unfoldable pub hash_bytes : Bytes → ℕ → ℕ
hash_bytes [] h = h
hash_bytes (b ∷ bs) h = hash_bytes bs (bit_xor h b * 16777619 % 2 ^ 32)

unfoldable pub route_key : Bytes → ℕ
route_key key = bit_and (hash_bytes key 2166136261) 127

-- `shardFor` of a proposal: its first write decides, or its first read.
unfoldable pub route : Proposal → ℕ
route p = elim p.writes [
  | w ∷ ws ↦ route_key w.key
  | [] ↦ elim p.read_set [ re ∷ rs ↦ route_key re.key | [] ↦ 0 ]
]

-- `shardProposer`, with what it uses of its state machine but the engine.
pub record ShardProposer : Type 0 where
  pub index : ℕ
  pub key_epoch : Epochs
  pub applied : ℕ

-- `shardedDirectProposer`, with the engine in the state `store`; `notified` as in `dpx.Fsm`.
pub record ShardedDirect (S : Type 0) : Type 0 where
  pub shards : ℕ → ShardProposer
  pub closed : Bool
  pub store : S
  pub notified : List (List WriteEntry)

-- The conflict check: it is left out for a larger read set.
unfoldable pub inline_conflict : Epochs → Proposal → Bool
inline_conflict key_epoch p =
    leb (length p.read_set) max_stack_shadow && detect_conflict key_epoch [] p.read_set

unfoldable pub record_epochs : ℕ → List WriteEntry → Epochs → Epochs
record_epochs idx [] m = m
record_epochs idx (w ∷ ws) m = record_epochs idx ws (insert w.key (epoch_record idx w) m)

-- The writes of the branch for other engines.
unfoldable pub inline_ops : ℕ → List WriteEntry → List BatchOp
inline_ops idx [] = []
inline_ops idx (w ∷ ws) =
    known_op (write_op w)
    ++ (set (version_key w.key) (encode_epoch_record (epoch_record idx w)) ∷ inline_ops idx ws)

-- The flag that the last write leaves in `epochBuf`.
unfoldable pub last_credit : Bool → List WriteEntry → Bool
last_credit flag [] = flag
last_credit flag (w ∷ ws) = last_credit (w.op == op_credit) ws

-- The writes of the branch for the multi-version engine. The version records share the array
-- `epochBuf`, so that each holds in the end what the last one has put there.
unfoldable pub shared_ops : EpochRecord → List WriteEntry → List BatchOp
shared_ops er [] = []
shared_ops er (w ∷ ws) =
    known_op (write_op w) ++ (set (version_key w.key) (encode_epoch_record er) ∷ shared_ops er ws)

unfoldable pub mvcc_ops : ℕ → List WriteEntry → List BatchOp
mvcc_ops idx ws =
    shared_ops (record { epoch = idx; is_credit = last_credit false ws }) ws
    ++ (set applied_key (encode_uint64 idx) ∷ [])

-- What a branch does to the engine, from the shard, the index and the writes: the new value of the
-- applied counter and the new state, or `none` at the engine's error, which leaves `failed_state`.
pub record Commit (S : Type 0) : Type 0 where
  pub run : ℕ → ℕ → List WriteEntry → S → Option (ℕ × S)
  pub failed_state : ℕ → List WriteEntry → S → S

-- It does not fail.
unfoldable pub commit_mvcc : Commit Mvcc
commit_mvcc = record {
  run = λ shard_idx idx ws e. some (Mvcc.apply_shard_direct shard_idx (mvcc_ops idx ws) e);
  failed_state = λ idx ws e. e;
}

abbrev closed_ops : ℕ → List WriteEntry → List BatchOp
closed_ops idx ws = inline_ops idx ws ++ (set applied_key (encode_uint64 idx) ∷ [])

-- An error of `Sync` is dropped.
unfoldable pub commit_batch : (eng : StorageEngine) → Commit eng.State
commit_batch eng = record {
  run = λ shard_idx idx ws s. elim (eng.apply_batch (closed_ops idx ws) s) [
    | none ↦ none
    | some s' ↦ some (idx, s')
  ];
  failed_state = λ idx ws s. eng.failed_batch (closed_ops idx ws) s;
}

abbrev pub put_shard : {S : Type 0} → ℕ → ShardProposer → ShardedDirect S → ShardedDirect S
put_shard i sp d = record d { shards = λ j. if j == i then sp else d.shards j }

pub data ClosedError : Type 0 where
  sharded_closed : ClosedError
  bad_proposal : DecodeError → ClosedError

module _ {S : Type 0} (commit : Commit S) where
  -- `applyInline` on the shard `i`.
  unfoldable pub apply_inline : ℕ → Proposal → ShardedDirect S → ApplyResult × ShardedDirect S
  apply_inline i p d =
      let sp = d.shards i in
      let idx = add64 sp.index 1 in
      let counted : ShardProposer = record sp { index = idx } in
      let staged : ShardProposer = record counted {
        key_epoch = record_epochs idx p.writes sp.key_epoch;
      } in
      if inline_conflict sp.key_epoch p
      then (conflicted, put_shard i counted d)
      else elim (commit.run i idx p.writes d.store) [
        | none ↦
            let s = commit.failed_state idx p.writes d.store in
            (failed engine_failed, record (put_shard i staged d) { store = s })
        | some (seq, s) ↦ (
          applied_ok,
          record (put_shard i (record staged { applied = seq }) d) {
            store = s;
            notified = d.notified ++ (p.writes ∷ []);
          },
        )
      ]

  unfoldable pub propose_direct :
      Proposal → ShardedDirect S → Result ClosedError ApplyResult × ShardedDirect S
  propose_direct p d =
      let (r, d') = apply_inline (route p) p d in
      if d.closed then (err sharded_closed, d) else (ok r, d')

  -- Proposals, one behind the other, on an open proposer.
  unfoldable pub apply_all : List Proposal → ShardedDirect S → ShardedDirect S
  apply_all [] d = d
  apply_all (p ∷ ps) d = apply_all ps (apply_inline (route p) p d).1

  unfoldable pub propose :
      Bytes → ShardedDirect S → Result ClosedError ApplyResult × ShardedDirect S
  propose content d =
      let decoded =
        elim (unmarshal content) as (λ _. Result ClosedError ApplyResult × ShardedDirect S) [
          | ok p ↦ propose_direct p d
          | err e ↦ (err (bad_proposal e), d)
          | panic ↦ (panic, d)
        ] in
      if d.closed then (err sharded_closed, d) else decoded

abbrev pub shutdown : {S : Type 0} → ShardedDirect S → ShardedDirect S
shutdown d = record d { closed = true }

-- `newShardedDirectProposer`: each shard opens its own state machine on the one engine.
abbrev pub opened_shards :
    (eng : StorageEngine) → Result FsmError (Fsm eng) → Result FsmError (ShardedDirect eng.State)
opened_shards eng (ok f) = ok (record {
  shards = λ i. record { index = 0; key_epoch = f.key_epoch; applied = f.applied };
  closed = false;
  store = f.store;
  notified = [];
})
opened_shards eng (err e) = err e
opened_shards eng panic = panic

unfoldable pub open_sharded :
    (eng : StorageEngine) → ℕ → eng.State → Result FsmError (ShardedDirect eng.State)
open_sharded eng seq s = opened_shards eng (open_fsm eng seq s)

-- ===== src/ShardedDirect/Tests.antt =====
-- The sharded proposer, over the plain engine and over the multi-version one.
use dpx.Base.{◌≡◌, ◌==◌, refl, false, List, [], ◌∷◌, some, arith, lookup, ◌=ᵇ◌, All, inr, ℕ}
use dpx.Engine.{set, version_key}
use dpx.Proposal.{Proposal}
use dpx.Memory.{shard_for}
use dpx.Mvcc.{Mvcc, new_mvcc, entries_of, snapshot_get_version}
use dpx.Fsm.{sync_full, apply_decoded, applied_ok, conflicted}
use dpx.Fsm.Tests.{eng, begin, key_a, key_b, program, a_is_fresh}
use dpx.Direct.Reset.{set_key, plain_read_at}
use dpx.ShardedDirect.{
  ShardProposer, ShardedDirect, hash_bytes, route_key, route, inline_conflict, record_epochs,
  inline_ops, last_credit, shared_ops, mvcc_ops, commit_mvcc, commit_batch, apply_inline, apply_all,
}
use dpx.ShardedDirect.Inline.{shard_view, inline_refines_fsm}
use dpx.ShardedDirect.Cross.{cross_shard_missed}
use dpx.ShardedDirect.Kept.{shard_keeps_passed_reads}
use dpx.ShardedDirect.Versions.{read_conflicts_forever}

sharded_program : Unit {0}
unfolding program hash_bytes route_key route inline_conflict record_epochs inline_ops last_credit
    shared_ops mvcc_ops commit_mvcc commit_batch apply_inline apply_all shard_for
sharded_program = tt

abbrev idle : ℕ → ShardProposer
idle i = record { index = 4; key_epoch = []; applied = 4 }

abbrev embedded : ShardedDirect eng.State
embedded = record { shards = idle; closed = false; store = begin.store; notified = [] }

inline_refines_fsm_example :
    let s = apply_inline (commit_batch eng) 3 (set_key key_b (7 ∷ [])) embedded in
    let r = apply_decoded eng sync_full 5 (set_key key_b (7 ∷ [])) [] (shard_view eng 3 embedded) in
    (s.0 ≡ r.0) × (shard_view eng 3 s.1 ≡ r.2) × ((s.1.shards 3).index ≡ 5)
unfolding sharded_program
inline_refines_fsm_example =
    inline_refines_fsm eng sync_full refl 3 (set_key key_b (7 ∷ [])) embedded refl
      ((set key_b (7 ∷ []), refl), tt)

-- It has read `a` before, and writes `b`.
abbrev reader : Proposal
reader = record (set_key key_b (8 ∷ [])) { read_set = plain_read_at key_a 4 ∷ [] }

apart : (route reader == route (set_key key_a (9 ∷ []))) ≡ false
unfolding sharded_program
apart = refl

sets_a :
    (apply_inline
      (commit_batch eng)
      (route (set_key key_a (9 ∷ [])))
      (set_key key_a (9 ∷ []))
      embedded).0
    ≡ applied_ok
unfolding sharded_program
sets_a = refl

cross_shard_missed_example :
    let r =
      apply_inline
        (commit_batch eng)
        (route (set_key key_a (9 ∷ [])))
        (set_key key_a (9 ∷ []))
        embedded in
    ((apply_inline (commit_batch eng) (route reader) reader r.1).0.conflict
      ≡ (apply_inline (commit_batch eng) (route reader) reader embedded).0.conflict)
    × (eng.get r.1.store key_a ≡ some (9 ∷ []))
cross_shard_missed_example =
    cross_shard_missed eng reader key_a (9 ∷ []) embedded a_is_fresh apart sets_a

abbrev others : List Proposal
others = set_key key_b (7 ∷ []) ∷ []

avoids : (key_b =ᵇ key_a) ≡ false
unfolding program
avoids = refl

reads_pass :
    inline_conflict ((apply_all (commit_batch eng) others embedded).shards 5).key_epoch reader
    ≡ false
unfolding sharded_program
reads_pass = refl

shard_keeps_passed_reads_example :
    All
      (λ re.
        eng.get (apply_all (commit_batch eng) others embedded).store re.key
        ≡ eng.get begin.store re.key)
      reader.read_set
shard_keeps_passed_reads_example =
    shard_keeps_passed_reads eng 5 others embedded reader refl (λ j. omega arith)
      ((a_is_fresh, refl, omega arith, (inr (avoids, tt), tt)), tt) reads_pass

abbrev fresh : ShardedDirect Mvcc
fresh = record {
  shards = λ i. record { index = 0; key_epoch = []; applied = 0 };
  closed = false;
  store = new_mvcc;
  notified = [];
}

abbrev reads_a : List Proposal → ℕ → Proposal
reads_a ps seq = record (set_key key_a (1 ∷ [])) {
  read_set =
      plain_read_at key_a
        (snapshot_get_version (apply_all commit_mvcc (set_key key_a (9 ∷ []) ∷ ps) fresh).store seq
          key_a).epoch
      ∷ [];
}

version_apart : (shard_for (version_key key_a) == shard_for key_a) ≡ false
unfolding sharded_program
version_apart = refl

others_apart : (shard_for (version_key key_a) == route (set_key key_b (7 ∷ []))) ≡ false
unfolding sharded_program
others_apart = refl

routed_a : route (reads_a others 9) ≡ shard_for key_a
unfolding route route_key hash_bytes shard_for
routed_a = refl

read_conflicts_forever_example :
    (apply_inline commit_mvcc
      (route (reads_a others 9))
      (reads_a others 9)
      (apply_all commit_mvcc (set_key key_a (9 ∷ []) ∷ others) fresh)).0
    ≡ conflicted
unfolding entries_of lookup
read_conflicts_forever_example =
    read_conflicts_forever key_a (9 ∷ []) fresh others 9 (reads_a others 9) [] [] version_apart refl
      (λ j. omega arith) (others_apart, tt) routed_a refl refl

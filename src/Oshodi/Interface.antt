-- ===== src/Oshodi/Interface.antt =====
-- The engine over Oshodi behind `StorageEngine`: a batch that fails leaves a first part of it applied.
use dpx.Base.{
  Bytes, Bool, ◌≡◌, ap, sym, ◌∙◌, List, [], ◌++◌, Option, none, some, if◌then◌else◌, Bool-cases,
  inl, inr, append-nil, arith,
}
use dpx.Engine.{BatchOp, StorageEngine, effects}
use dpx.Memory.Scans.{IsSorted-Distinct}
use dpx.Oshodi.{Bucket, Oshodi, get_oshodi, oshodi_apply, oshodi_raw_iter}
use dpx.Oshodi.Prefix.{oshodi_apply-prefix}
use dpx.Oshodi.Scans.{lookup-oshodi_raw_iter}

module _ (b : Bucket) (sync : Bool) where
  abbrev if_done : Bool × Oshodi b → Option (Oshodi b)
  if_done (done, e) = if done then some e else none

  oshodi_apply-done :
      (ops : List BatchOp) (s t : Oshodi b) (k : Bytes)
      → if_done (oshodi_apply b sync ops s) ≡ some t
      → get_oshodi b t k ≡ effects k ops (get_oshodi b s k)
  oshodi_apply-done ops s t k h =
      let (done, rest, split, values, whole, cut) = oshodi_apply-prefix b sync ops s in
      elim (Bool-cases (oshodi_apply b sync ops s).0) [
        | inr failed ↦ absurd (ground (arith, failed, h))
        | inl fine ↦
            let same : (oshodi_apply b sync ops s).1 ≡ t = ground (arith, fine, h) in
            let all : ops ≡ done = split ∙ ap (λ r. done ++ r) (whole fine) ∙ append-nil done in
            ap (λ x. get_oshodi b x k) (sym same)
            ∙ values k
            ∙ ap (λ l. effects k l (get_oshodi b s k)) (sym all)
      ]

  pub oshodi_engine : StorageEngine
  oshodi_engine = record {
    State = Oshodi b;
    get = get_oshodi b;
    apply_batch = λ ops e. if_done (oshodi_apply b sync ops e);
    failed_batch = λ ops e. (oshodi_apply b sync ops e).1;
    sync_ok = λ e. b.flush e.bucket;
    raw_iter = oshodi_raw_iter b;
    get-apply_batch = oshodi_apply-done;
    get-failed_batch = λ ops e failed.
        let (done, rest, split, values, whole, cut) = oshodi_apply-prefix b sync ops e in
        (done, rest, split, values);
    lookup-raw_iter = λ start end e k. (lookup-oshodi_raw_iter b start end e k).0;
    raw_iter-Distinct = λ start end e.
        IsSorted-Distinct (oshodi_raw_iter b start end e)
          (lookup-oshodi_raw_iter b start end e []).1;
  }

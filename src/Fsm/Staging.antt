-- ===== src/Fsm/Staging.antt =====
-- What the loop of `applyProposal` over the writes does to the record and the value of one key.
use dpx.Base.{
  ℕ, Bytes, false, ◌≡◌, ◌⊎◌, refl, ap, ◌∙◌, List, [], ◌∷◌, Option, some, arith, insert,
  lookup-insert, Bool-cases, Option-cases, inl, inr, ◌=ᵇ◌, if◌then◌else◌,
}
use dpx.Codec.{EpochRecord, encode_epoch_record}
use dpx.Engine.{BatchOp, set, op_key, effects, is_reserved, version_key}
use dpx.Engine.Effect.{effects-append, effects_other}
use dpx.Engine.Reserved.{version_key_reserved, reserved_apart}
use dpx.Proposal.{WriteEntry}
use dpx.Fsm.{Epochs, epoch_of, Staged, stage, stage_one, write_op, epoch_record, Epochs}

pub write_op-op_key : (w : WriteEntry) (op : BatchOp) → write_op w ≡ some op → op_key op ≡ w.key
unfolding write_op
write_op-op_key w op h = ground arith

pub epoch_of-insert :
    (k j : Bytes) (er : EpochRecord) (m : Epochs)
    → epoch_of (insert k er m) j ≡ (if k =ᵇ j then er else epoch_of m j)
unfolding epoch_of
epoch_of-insert k j er m = rw (lookup-insert k j er m) (ground arith)

-- Staging either records the new index for the key `k`, or leaves its record and the effect of the
-- batch on `k` as they were.
abbrev pub Untouched : Bytes → Staged → Staged → Type 0
Untouched k st st' =
    (epoch_of st'.key_epoch k ≡ epoch_of st.key_epoch k)
    × ((old : Option Bytes) → effects k st'.batch old ≡ effects k st.batch old)

abbrev pub Touches : ℕ → Bytes → Staged → Staged → Type 0
Touches index k st st' = ((epoch_of st'.key_epoch k).epoch ≡ index) ⊎ Untouched k st st'

Touches-trans :
    (index : ℕ) (k : Bytes) (a b c : Staged)
    → Touches index k a b
    → Touches index k b c
    → Touches index k a c
Touches-trans index k a b c ab (inl hit) = inl hit
Touches-trans index k a b c (inl hit) (inr (same, keep)) =
    inl (ap (λ (er : EpochRecord). er.epoch) same ∙ hit)
Touches-trans index k a b c (inr (same, keep)) (inr (same', keep')) =
    inr (same' ∙ same, λ old. keep' old ∙ keep old)

module _ (index : ℕ) (k : Bytes) (user : is_reserved k ≡ false) where
  stage_one-Touches :
      (w : WriteEntry) (op : BatchOp) (st : Staged)
      → op_key op ≡ w.key
      → Touches index k st (stage_one index w op st)
  unfolding stage_one
  stage_one-Touches w op st same = elim (Bool-cases (w.key =ᵇ k)) [
    | inl here ↦ inl (
        rw (epoch_of-insert w.key k (epoch_record index w) st.key_epoch, here)
          (unfold epoch_record in refl))
    | inr away ↦ inr (
      rw (epoch_of-insert w.key k (epoch_record index w) st.key_epoch, away),
      λ old.
          effects-append k st.batch
            (op ∷ set (version_key w.key) (encode_epoch_record (epoch_record index w)) ∷ []) old
          ∙ effects_other k
              (op ∷ set (version_key w.key) (encode_epoch_record (epoch_record index w)) ∷ [])
              (effects k st.batch old)
              (
                rw same away,
                (reserved_apart (version_key w.key) k (version_key_reserved w.key) user, tt),
              ),
    )
  ]

  pub stage-Touches : (ws : List WriteEntry) (st : Staged) → Touches index k st (stage index ws st)
  unfolding stage
  stage-Touches [] st = inr (refl, λ old. refl)
  stage-Touches (w ∷ ws) st = elim (Option-cases (write_op w)) [
    | inl unknown ↦ rw (unknown, stage) (inr (refl, λ old. refl))
    | inr (op, known) ↦
        rw (known, stage)
          (Touches-trans index k st (stage_one index w op st)
            (stage index ws (stage_one index w op st))
            (stage_one-Touches w op st (write_op-op_key w op known))
            (stage-Touches ws (stage_one index w op st)))
  ]

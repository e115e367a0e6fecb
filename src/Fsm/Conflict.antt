-- ===== src/Fsm/Conflict.antt =====
-- `detectConflict`.
use dpx.Base.{
  true, false, ◌≡◌, ◌≤◌, ◌⊎◌, ◌↔◌, refl, All, List, [], ◌∷◌, some, arith, lookup, Option-cases, inl,
  inr,
}
use dpx.Codec.{EpochRecord}
use dpx.Proposal.{ReadEntry}
use dpx.Fsm.{Epochs, epoch_of, entry_conflicts, detect_conflict}

-- What an entry must meet to pass: the last write to its key is not after the read, or it was a
-- credit and the read a debit's; and no proposal of the same batch wrote the key, but likewise.
abbrev pub Passes : Epochs → Epochs → ReadEntry → Type 0
Passes key_epoch shadow re =
    (((epoch_of key_epoch re.key).epoch ≤ re.epoch)
      ⊎ (((epoch_of key_epoch re.key).is_credit ≡ true) × (re.is_debit ≡ true)))
    × ((s : EpochRecord)
        → lookup re.key shadow ≡ some s
        → (s.is_credit ≡ true) × (re.is_debit ≡ true))

entry-Passes :
    (key_epoch shadow : Epochs) (re : ReadEntry)
    → entry_conflicts key_epoch shadow re ≡ false
    → Passes key_epoch shadow re
unfolding entry_conflicts
entry-Passes key_epoch shadow re h = (ground arith, λ s e. ground arith)

Passes-entry :
    (key_epoch shadow : Epochs) (re : ReadEntry)
    → Passes key_epoch shadow re
    → entry_conflicts key_epoch shadow re ≡ false
unfolding entry_conflicts
Passes-entry key_epoch shadow re (p, q) = elim (Option-cases (lookup re.key shadow)) [
  | inl e ↦ ground arith
  | inr (s, e) ↦ ground (arith, q s e)
]

detect-Passes :
    (key_epoch shadow : Epochs) (rs : List ReadEntry)
    → detect_conflict key_epoch shadow rs ≡ false
    → All (Passes key_epoch shadow) rs
unfolding detect_conflict
detect-Passes key_epoch shadow [] h = tt
detect-Passes key_epoch shadow (re ∷ rs) h = (
  entry-Passes key_epoch shadow re (ground arith),
  detect-Passes key_epoch shadow rs (ground arith),
)

Passes-detect :
    (key_epoch shadow : Epochs) (rs : List ReadEntry)
    → All (Passes key_epoch shadow) rs
    → detect_conflict key_epoch shadow rs ≡ false
unfolding detect_conflict
Passes-detect key_epoch shadow [] h = refl
Passes-detect key_epoch shadow (re ∷ rs) (h, hs) =
    rw (Passes-entry key_epoch shadow re h) (Passes-detect key_epoch shadow rs hs)

-- The check passes a read set exactly if each entry passes: the last write to its key is not after
-- the read, or was a credit and the read a debit's; and no earlier proposal of the batch wrote the
-- key, unless with a credit last and the read a debit's.
pub detect_conflict_iff :
    (key_epoch shadow : Epochs) (rs : List ReadEntry)
    → (detect_conflict key_epoch shadow rs ≡ false) ↔ All (Passes key_epoch shadow) rs
detect_conflict_iff key_epoch shadow rs =
    (detect-Passes key_epoch shadow rs, Passes-detect key_epoch shadow rs)

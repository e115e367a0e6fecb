-- ===== src/Direct/Handed.antt =====
-- What the loop of the direct proposer hands to `applyBatchDirect`.
use dpx.Base.{
  ℕ, suc, length, ◌++◌, List, [], ◌∷◌, ◌≡◌, refl, ap, sym, ◌∙◌, append_assoc, append-nil, arith,
}
use dpx.Engine.{StorageEngine}
use dpx.Fsm.{ApplyResult, Fsm}
use dpx.Proposal.{Proposal}
use dpx.Direct.{
  Direct, Group, entries, group_entries, fail_applied, commit_group, finish_group,
  apply_batch_direct, stack_entry, map_entry, new_group,
}
use dpx.Direct.Queue.{Entry, proposals, deliver}

entries-length :
    (one : Proposal → Group → ApplyResult × Group) (ps : List Proposal) (g : Group)
    → length (entries one ps g).0 ≡ length ps
unfolding entries
entries-length one [] g = refl
entries-length one (p ∷ ps) g = ap suc (entries-length one ps (one p g).1)

group_entries-length : (ps : List Proposal) (g : Group) → length (group_entries ps g).0 ≡ length ps
unfolding group_entries
group_entries-length ps g =
    ground (arith, entries-length stack_entry ps g, entries-length map_entry ps g)

fail_applied-length : (rs : List ApplyResult) → length (fail_applied rs) ≡ length rs
unfolding fail_applied
fail_applied-length [] = refl
fail_applied-length (r ∷ rs) = ap suc (fail_applied-length rs)

proposals-length : (es : List Entry) → length (proposals es) ≡ length es
unfolding proposals
proposals-length [] = refl
proposals-length ((t, p) ∷ es) = ap suc (proposals-length es)

-- The tickets of entries, or of results.
unfoldable pub tickets : {A : Type 0} → List (ℕ × A) → List ℕ
tickets [] = []
tickets ((t, a) ∷ l) = t ∷ tickets l

deliver-tickets :
    (es : List Entry) (rs : List ApplyResult)
    → length rs ≡ length es
    → tickets (deliver es rs) ≡ tickets es
unfolding deliver tickets
deliver-tickets [] rs h = refl
deliver-tickets ((t, p) ∷ es) [] h = absurd (omega arith)
deliver-tickets ((t, p) ∷ es) (r ∷ rs) h = ap (λ l. t ∷ l) (deliver-tickets es rs (omega arith))

tickets-append : {A : Type 0} (xs ys : List (ℕ × A)) → tickets (xs ++ ys) ≡ tickets xs ++ tickets ys
unfolding tickets
tickets-append [] ys = refl
tickets-append ((t, a) ∷ xs) ys = ap (λ l. t ∷ l) (tickets-append xs ys)

unfoldable pub concat : {A : Type 0} → List (List A) → List A
concat [] = []
concat (g ∷ gs) = g ++ concat gs

pub concat-snoc :
    {A : Type 0} (gs : List (List A)) (g : List A) → concat (gs ++ (g ∷ [])) ≡ concat gs ++ g
unfolding concat
concat-snoc [] g = append-nil g
concat-snoc (h ∷ gs) g = ap (λ l. h ++ l) (concat-snoc gs g) ∙ sym (append_assoc h (concat gs) g)

module _ (eng : StorageEngine) where
  commit_group-length :
      (rs : List ApplyResult) (g : Group) (f : Fsm eng)
      → length (commit_group eng rs g f).0 ≡ length rs
  unfolding commit_group
  commit_group-length rs g f = ground (arith, fail_applied-length rs)

  apply_batch_direct-length :
      (ps : List Proposal) (d : Direct eng) → length (apply_batch_direct eng ps d).0 ≡ length ps
  unfolding apply_batch_direct finish_group
  apply_batch_direct-length ps d =
      commit_group-length (group_entries ps (new_group eng d)).0
        (group_entries ps (new_group eng d)).1 _
      ∙ group_entries-length ps (new_group eng d)

  -- The groups, applied one after the other.
  unfoldable pub apply_groups : List (List Entry) → Direct eng → List (ℕ × ApplyResult) × Direct eng
  apply_groups [] d = ([], d)
  apply_groups (g ∷ gs) d =
      let (results, d') = apply_batch_direct eng (proposals g) d in
      let (rest, d'') = apply_groups gs d' in (deliver g results ++ rest, d'')

  pub apply_groups-tickets :
      (gs : List (List Entry)) (d : Direct eng)
      → tickets (apply_groups gs d).0 ≡ tickets (concat gs)
  unfolding apply_groups concat tickets
  apply_groups-tickets [] d = refl
  apply_groups-tickets (g ∷ gs) d =
      let r = apply_batch_direct eng (proposals g) d in
      tickets-append (deliver g r.0) (apply_groups gs r.1).0
      ∙ ap (λ l. l ++ tickets (apply_groups gs r.1).0)
          (deliver-tickets g r.0 (apply_batch_direct-length (proposals g) d ∙ proposals-length g))
      ∙ ap (λ l. tickets g ++ l) (apply_groups-tickets gs r.1)
      ∙ sym (tickets-append g (concat gs))

  pub apply_groups-snoc :
      (gs : List (List Entry)) (g : List Entry) (d : Direct eng)
      → apply_groups (gs ++ (g ∷ [])) d ≡ (
        (apply_groups gs d).0
            ++ deliver g (apply_batch_direct eng (proposals g) (apply_groups gs d).1).0,
        (apply_batch_direct eng (proposals g) (apply_groups gs d).1).1,
      )
  unfolding apply_groups
  apply_groups-snoc [] g d =
      ap (λ l. (l, (apply_batch_direct eng (proposals g) d).1))
        (append-nil (deliver g (apply_batch_direct eng (proposals g) d).0))
  apply_groups-snoc (h ∷ gs) g d =
      let r = apply_batch_direct eng (proposals h) d in
      let before = apply_groups gs r.1 in
      let last = apply_batch_direct eng (proposals g) before.1 in
      ap (λ (x : List (ℕ × ApplyResult) × Direct eng). (deliver h r.0 ++ x.0, x.1))
        (apply_groups-snoc gs g r.1)
      ∙ ap (λ l. (l, last.1)) (sym (append_assoc (deliver h r.0) before.0 (deliver g last.0)))

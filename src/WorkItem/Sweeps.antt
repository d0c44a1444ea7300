-- ===== src/WorkItem/Sweeps.antt =====
-- The sweeps of apps/backend/cfactory/store.py: what they remove and what they keep.
use cfactory.Prelude.{
  ℕ, ◌+◌, ◌≡◌, refl, ap, ◌∙◌, inl, inr, Bool, true, false, ◌&&◌, not, List, [], ◌∷◌, Text,
  Bool-cases, keep_if, length, arith, if◌then◌else◌, is_some,
}
use cfactory.Status.{is_dead_stage}
use cfactory.WorkItem.{Service, WorkItemRow, set_column, or_blank, blank}
use cfactory.WorkItem.Table.{Tenant, visible}
use cfactory.WorkItem.Reconcile.{
  is_ghost, reconcile_row, reconcile_snapshot, frontier, is_expired, prune_dead,
}
use cfactory.WorkItem.Kept.{slice, column-touched}
use cfactory.WorkItem.Annotations.{slice-written}
use cfactory.WorkItem.Isolation.{visible-reconcile_row}

module _ (tenant : Tenant) (service : Service) (live : List Text) where
  ghost_free :
      (now : ℕ) (r : WorkItemRow)
      → is_ghost live (slice service (reconcile_row now service live r)) ≡ false
  unfolding reconcile_row is_ghost
  ghost_free now r = elim (Bool-cases (is_ghost live (slice service r))) [
    | inl ghost ↦ rw ghost (
        ap (λ o. is_ghost live (or_blank o))
          (column-touched service (set_column service blank r) _ _ now)
        ∙ ap (is_ghost live) (slice-written service blank r))
    | inr other ↦ rw other other
  ]

  -- The sweep of stages that a poll no longer lists is done after one round: a second round at any later
  -- time, with the same list, changes no row and counts none.
  pub reconcile_again :
      (now later : ℕ) (rows : List WorkItemRow)
      → reconcile_snapshot tenant later service live
          (reconcile_snapshot tenant now service live rows).0
        ≡ ((reconcile_snapshot tenant now service live rows).0, 0)
  unfolding reconcile_snapshot
  reconcile_again now later [] = refl
  reconcile_again now later (r ∷ rows) =
      let rest = reconcile_again now later rows in
      elim (Bool-cases (visible tenant r)) [
        | inl own ↦ rw own (
            rw (visible-reconcile_row tenant now service live r ∙ own)
              (rw (ghost_free now r) (rw rest refl)))
        | inr other ↦ rw other (rw other (rw rest refl))
      ]

-- Whether the furthest stage of a row is dead
abbrev ends_dead : WorkItemRow → Bool
ends_dead r = is_dead_stage (or_blank (frontier r)).status

abbrev pub stays : Tenant → WorkItemRow → Bool
stays tenant r = not (visible tenant r && ends_dead r)

dead_by_parts : (v s d l : Bool) → (v && (s && (d && l))) ≡ true → not (v && d) ≡ false
dead_by_parts v s d l h = ground arith

expired-stays :
    (tenant : Tenant) (now limit : ℕ) (r : WorkItemRow)
    → (visible tenant r && is_expired now limit r) ≡ true
    → stays tenant r ≡ false
unfolding is_expired
expired-stays tenant now limit r h =
    dead_by_parts (visible tenant r) (is_some (frontier r)) (ends_dead r) _ h

-- Pruning forgets dead rows only: the rows whose furthest stage is not dead are all there afterwards,
-- in their order, as are the rows that the store does not see; and what is left and what is counted
-- make up the table.
pub prune_dead_keeps :
    (tenant : Tenant) (now limit : ℕ) (rows : List WorkItemRow)
    → (keep_if (λ r. stays tenant r) (prune_dead tenant now limit rows).0
        ≡ keep_if (λ r. stays tenant r) rows)
      × (length (prune_dead tenant now limit rows).0 + (prune_dead tenant now limit rows).1
          ≡ length rows)
unfolding prune_dead
prune_dead_keeps tenant now limit [] = (refl, refl)
prune_dead_keeps tenant now limit (r ∷ rows) =
    let rest = prune_dead_keeps tenant now limit rows in
    elim (Bool-cases (visible tenant r && is_expired now limit r)) [
      | inl expired ↦
          rw expired (rw (expired-stays tenant now limit r expired) (rest.0, omega (arith, rest.1)))
      | inr kept ↦
          rw kept (ap (λ x. if stays tenant r then r ∷ x else x) rest.0, omega (arith, rest.1))
    ]

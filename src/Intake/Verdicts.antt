-- ===== src/Intake/Verdicts.antt =====
-- The status that a work item gives its card, by `apply_status` of
-- apps/backend/cfactory/card_intake.py.
use cfactory.Prelude.{
  ◌≡◌, refl, ap, ◌∙◌, subst, inl, inr, Bool, true, false, ◌||◌, not, Option, none, some, List, [],
  ◌∷◌, Text, option_eq, Bool-cases, Option-cases, is_empty, truthy, if_intro, if◌then◌else◌,
}
use cfactory.Prelude.Exec.{Exec, pure, continue, ◌>>=◌}
use cfactory.Prelude.Results.{Result, ok, raise}
use cfactory.Status.{is_failure_or_stuck, is_done}
use cfactory.WorkItem.{Service, WorkItemRow}
use cfactory.Cards.{CardRow, CardStatus, in_progress, blocked, no_changes}
use cfactory.Cards.Board.{get, get_by_correlation_key, apply_changes}
use cfactory.Cards.Indexed.{IsIndexed}
use cfactory.Cards.Found.{found_is_held}
use cfactory.Intake.{Stage, World, Site}
use cfactory.Intake.Stages.{stage_is, is_pending, pending_stages}
use cfactory.Intake.Dispatching.{with_rows, update_row}
use cfactory.Intake.Writeback.{
  status_at, is_plan_service, stage_order, status_for, status_from, card_status_for,
  same_card_status, WriteBack, no_card, same_status, written, advance, write_status, write_back,
  apply_status,
}
use cfactory.Intake.Held.{Holds, update_row_held}
use cfactory.Intake.Once.{Advances, settle_held, advance_kept}

-- A service is done with its stage, and that stage is a verdict.
abbrev pub IsVerdict : WorkItemRow → Service → Type 0
IsVerdict item s =
    (is_plan_service s ≡ false)
    × (is_failure_or_stuck (status_at item s) ≡ false)
    × (is_done (status_at item s) ≡ true)

status_for_done :
    (s : Service) (status : Option Text) (remaining : Bool)
    → status_for s status remaining ≡ CardStatus.done
    → (remaining ≡ false)
      × (is_plan_service s ≡ false)
      × (is_failure_or_stuck status ≡ false)
      × (is_done status ≡ true)
status_for_done s status remaining h =
    by_tests (is_failure_or_stuck status) (is_done status) remaining (is_plan_service s) h
  where
    by_tests :
        (fails finished r p : Bool)
        → (if fails
            then blocked
            else (if finished
                then (if r || p then in_progress else CardStatus.done)
                else in_progress))
          ≡ CardStatus.done
        → (r ≡ false) × (p ≡ false) × (fails ≡ false) × (finished ≡ true)
    by_tests true finished r p e = absurd cc
    by_tests false false r p e = absurd cc
    by_tests false true true p e = absurd cc
    by_tests false true false true e = absurd cc
    by_tests false true false false e = (refl, refl, refl, refl)

status_from_done :
    (item : WorkItemRow) (remaining : Bool) (services : List Service)
    → status_from item remaining services ≡ some CardStatus.done
    → (remaining ≡ false) × (s : Service) × IsVerdict item s
unfolding status_from
status_from_done item remaining [] h = absurd cc
status_from_done item remaining (s ∷ services) h = elim (Bool-cases (truthy (status_at item s))) [
  | inr blank ↦ status_from_done item remaining services (rw blank at h)
  | inl set ↦ at_first (rw set at h)
]
  where
    at_first :
        some (status_for s (status_at item s) remaining) ≡ some CardStatus.done
        → (remaining ≡ false) × (x : Service) × IsVerdict item x
    at_first e =
        let here : status_for s (status_at item s) remaining ≡ CardStatus.done = cc in
        let (last, stage, sound, finished) = status_for_done s (status_at item s) remaining here in
        (last, s, (stage, sound, finished))

nothing_pending : (stages : List Stage) → not (is_empty stages) ≡ false → stages ≡ []
nothing_pending [] h = refl
nothing_pending (s ∷ stages) h = absurd cc

module _ (site : Site) where
  -- The card was written as done: the table has it, owing no stage.
  abbrev pub DoneWell : WorkItemRow → Result WriteBack × World → Type 0
  DoneWell item (r, w') =
      (new : CardRow)
      → r ≡ ok (written (some new))
      → new.status ≡ CardStatus.done
      → Holds site w' new × (pending_stages new ≡ []) × (s : Service) × IsVerdict item s

  write_status_done :
      (w : World) (card advanced : CardRow) (item : WorkItemRow)
      → Holds site w advanced
      → advanced.card_key ≡ card.card_key
      → DoneWell item (
          write_status site card advanced
            (card_status_for item (not (is_empty (pending_stages advanced))))
            w)
  unfolding card_status_for pending_stages is_pending stage_is apply_changes
  write_status_done w card advanced item held same_key =
      by_status (card_status_for item remaining) refl
    where
      remaining : Bool
      remaining = not (is_empty (pending_stages advanced))

      by_status :
          (status : Option CardStatus)
          → card_status_for item remaining ≡ status
          → DoneWell item (write_status site card advanced status w)
      by_status none e = λ new r finished. absurd cc
      by_status (some status) e =
          if_intro (λ (run : Exec World WriteBack). DoneWell item (run w))
            (same_card_status status advanced.status) (λ same new r finished. absurd (unwritten r))
            (λ differs. updated)
        where
          unwritten :
              {new : CardRow}
              → (◌≡◌ {A = Result WriteBack}
                  (ok (same_status card advanced))
                  (ok (written (some new))))
              → ⊥
          unwritten e = cc

          updated : DoneWell item (
              (do
                new ← update_row site card.card_key (record no_changes { status = some status })
                pure (written new))
                w)
          updated =
              let (rows, updates, holds) =
                update_row_held site w advanced (record no_changes { status = some status }) refl
                  refl held in
              rw (← same_key) (rw updates (λ new r finished. verdict new rows r finished holds))
            where
              verdict :
                  (new : CardRow) (rows : List CardRow)
                  → (◌≡◌ {A = Result WriteBack}
                      (ok (
                        written (
                          some (
                            apply_changes site.now
                              (record no_changes { status = some status })
                              advanced))))
                      (ok (written (some new))))
                  → new.status ≡ CardStatus.done
                  → Holds site
                      (with_rows w rows)
                      (apply_changes site.now (record no_changes { status = some status }) advanced)
                  → Holds site (with_rows w rows) new
                    × (pending_stages new ≡ [])
                    × (s : Service) × IsVerdict item s
              verdict new rows r finished holds =
                  let same : apply_changes site.now (record no_changes { status = some status })
                        advanced
                      ≡ new =
                    cc in
                  let here : status ≡ CardStatus.done = ap (λ x. x.status) same ∙ finished in
                  let (last, stage, judged) =
                    status_from_done item remaining stage_order (rw here at e) in
                  rw (← same) (holds, nothing_pending (pending_stages advanced) last, stage, judged)

  write_back_done :
      (w : World) (card : CardRow) (item : WorkItemRow)
      → Holds site w card
      → DoneWell item (write_back site item (some card) w)
  write_back_done w card item held =
      let (settled, rows, settles, holds, same_key, same_correlation) =
        settle_held site w card item held in
      rw settles (
        by_advance settled same_key (advance site settled (with_rows w rows))
          (advance_kept site (with_rows w rows) settled holds))
    where
      by_advance :
          (settled : CardRow) (same_key : settled.card_key ≡ card.card_key)
          (outcome : Result CardRow × World)
          → Advances site settled outcome
          → DoneWell item (
              continue outcome.0
                (λ advanced.
                  write_status site card advanced
                    (card_status_for item (not (is_empty (pending_stages advanced)))))
                outcome.1)
      by_advance settled same_key (raise e, v) kept = λ new r finished. absurd cc
      by_advance settled same_key (ok advanced, v) kept =
          write_status_done v card advanced item (kept.1 advanced refl).0
            ((kept.1 advanced refl).1 ∙ same_key)

module _ (site : Site) (t : Text) (scope : site.tenant ≡ some t) where
  -- `done` is a verdict: where the write-back of a work item sets a card to done, the table then has that
  -- card under its key, it owes no stage, and a service other than the planner reads as done and not
  -- as failed. The store is that of one tenant.
  pub apply_status_done :
      (w w' : World) (item : WorkItemRow) (new : CardRow)
      → IsIndexed w.rows
      → apply_status site item w ≡ (ok (written (some new)), w')
      → new.status ≡ CardStatus.done
      → Holds site w' new × (pending_stages new ≡ []) × (s : Service) × IsVerdict item s
  unfolding apply_status get_by_correlation_key
  apply_status_done w w' item new k h finished =
      elim (Option-cases (get_by_correlation_key (some t) item.correlation_key w.rows)) [
        | inl unjoined ↦ absurd (unwritten (rw (scoped ∙ unjoined) at h))
        | inr (card, joined) ↦ judged card (rw (scoped ∙ joined) at h) (
            ap (λ x. get x card.card_key w.rows) scope
            ∙ (found_is_held t (λ r. option_eq r.correlation_key (some item.correlation_key)) card
                w.rows k joined))
      ]
    where
      scoped :
          get_by_correlation_key site.tenant item.correlation_key w.rows
          ≡ get_by_correlation_key (some t) item.correlation_key w.rows
      scoped = ap (λ x. get_by_correlation_key x item.correlation_key w.rows) scope

      unwritten :
          (◌≡◌ {A = Result WriteBack × World} (ok no_card, w) (ok (written (some new)), w')) → ⊥
      unwritten e = cc

      judged :
          (card : CardRow)
          → write_back site item (some card) w ≡ (ok (written (some new)), w')
          → Holds site w card
          → Holds site w' new × (pending_stages new ≡ []) × (s : Service) × IsVerdict item s
      judged card wrote held =
          let well : DoneWell site item (ok (written (some new)), w') =
            subst (DoneWell site item) wrote (write_back_done site w card item held) in
          well new refl finished

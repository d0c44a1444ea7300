-- ===== src/Intake/Held.antt =====
-- Cards as the table has them: what the writes of apps/backend/cfactory/card_intake.py do to a card that was
-- read from the table as it is.
use cfactory.Prelude.{
  ℕ, ◌≡◌, refl, ◌∙◌, inl, inr, Bool, true, false, none, some, List, [], ◌∷◌, Text, Bool-cases,
}
use cfactory.Prelude.Results.{ok}
use cfactory.WorkItem.Table.{Tenant}
use cfactory.Actions.{ActionResult}
use cfactory.Cards.{CardRow, in_progress, blocked, Changes, no_changes}
use cfactory.Cards.Board.{
  in_scope, selected, is_card, first_row, replace_first, get, apply_changes, ref_conflict,
  update_found, update,
}
use cfactory.Cards.Indexed.{first_row_passes}
use cfactory.Intake.{Stage, dispatched_to, failed_to_send, World, Site}
use cfactory.Intake.Stages.{RunUpdates, merge_runs, stage_service}
use cfactory.Intake.Prepare.{upstream_key}
use cfactory.Intake.Dispatching.{
  with_rows, update_row, update_card, write_runs, sent_run, failed_run, failure_text, key_after,
  record_sent,
}

-- What passes the test is found where it was put.
first_row-replace :
    (test : CardRow → Bool) (new old : CardRow) (rows : List CardRow)
    → first_row test rows ≡ some old
    → test new ≡ true
    → first_row test (replace_first test new rows) ≡ some new
unfolding first_row replace_first
first_row-replace test new old [] h passes = cc
first_row-replace test new old (r ∷ rows) h passes = elim (Bool-cases (test r)) [
  | inl here ↦ rw here (rw passes refl)
  | inr there ↦ rw there (rw there (first_row-replace test new old rows (rw there at h) passes))
]

is_card_changed :
    (tenant : Tenant) (key : Text) (now : ℕ) (c : Changes) (old : CardRow)
    → is_card tenant key (apply_changes now c old) ≡ is_card tenant key old
unfolding is_card selected in_scope apply_changes
is_card_changed none key now c old = refl
is_card_changed (some t) key now c old = refl

module _ (site : Site) where
  -- The card is the row that its key names.
  abbrev pub Holds : World → CardRow → Type 0
  Holds w card = get site.tenant card.card_key w.rows ≡ some card

  -- A write that leaves the issue reference alone changes the card, and returns it as it then is.
  pub update_row_held :
      (w : World) (card : CardRow) (c : Changes)
      → c.issue_ref ≡ none
      → c.null_refused ≡ false
      → Holds w card
      → (rows : List CardRow) × (update_row site card.card_key c w
          ≡ (ok (some (apply_changes site.now c card)), with_rows w rows))
        × Holds (with_rows w rows) (apply_changes site.now c card)
  unfolding update_row update update_found get ref_conflict apply_changes
  update_row_held w card c keeps valid held = (
    replace_first (is_card site.tenant card.card_key) (apply_changes site.now c card) w.rows,
    rw (held, get) (rw keeps (rw valid refl)),
    first_row-replace (is_card site.tenant card.card_key) (apply_changes site.now c card) card
        w.rows held
        (is_card_changed site.tenant card.card_key site.now c card
          ∙ first_row_passes (is_card site.tenant card.card_key) w.rows card held),
  )

  pub update_card_held :
      (w : World) (card : CardRow) (c : Changes)
      → c.issue_ref ≡ none
      → c.null_refused ≡ false
      → Holds w card
      → (rows : List CardRow) × (update_card site card c w
          ≡ (ok (apply_changes site.now c card), with_rows w rows))
        × Holds (with_rows w rows) (apply_changes site.now c card)
  unfolding update_card
  update_card_held w card c keeps valid held =
      let (rows, updates, holds) = update_row_held w card c keeps valid held in
      (rows, rw updates refl, holds)

  -- The card with the record of a stage that was sent, or failed, and that of stages with new records
  abbrev pub sent_card : CardRow → Stage → ActionResult → CardRow
  sent_card card stage result =
      apply_changes site.now
        (record no_changes {
          correlation_key =
              some (some (key_after card (upstream_key result.body (stage_service stage))));
          status = some in_progress;
          stage_runs = some (
              merge_runs
                ((stage, sent_run stage site.now (upstream_key result.body (stage_service stage)))
                  ∷ [])
                card.stage_runs);
        })
        card

  abbrev pub failed_card : CardRow → Stage → ActionResult → CardRow
  failed_card card stage result =
      apply_changes site.now
        (record no_changes {
          status = some blocked;
          stage_runs =
              some
                (merge_runs ((stage, failed_run stage (failure_text result)) ∷ []) card.stage_runs);
        })
        card

  abbrev pub card_with_runs : CardRow → RunUpdates → CardRow
  card_with_runs card updates =
      apply_changes site.now
        (record no_changes { stage_runs = some (merge_runs updates card.stage_runs) }) card

  pub record_sent_held :
      (w : World) (card : CardRow) (stage : Stage) (result : ActionResult)
      → result.succeeded ≡ true
      → Holds w card
      → (rows : List CardRow) × (record_sent site card stage result w ≡ (
        ok (
            dispatched_to stage
              (key_after card (upstream_key result.body (stage_service stage)))
              result),
        with_rows w rows,
      ))
        × Holds (with_rows w rows) (sent_card card stage result)
  unfolding record_sent write_runs
  record_sent_held w card stage result good held =
      let (rows, updates, holds) = update_card_held w card _ refl refl held in
      (rows, rw (good, record_sent) (rw updates refl), holds)

  pub record_failed_held :
      (w : World) (card : CardRow) (stage : Stage) (result : ActionResult)
      → result.succeeded ≡ false
      → Holds w card
      → (rows : List CardRow) × (record_sent site card stage result w
          ≡ (ok (failed_to_send stage result), with_rows w rows))
        × Holds (with_rows w rows) (failed_card card stage result)
  unfolding record_sent write_runs
  record_failed_held w card stage result bad held =
      let (rows, updates, holds) = update_card_held w card _ refl refl held in
      (rows, rw (bad, record_sent) (rw updates refl), holds)

  pub write_runs_held :
      (w : World) (card : CardRow) (updates : RunUpdates)
      → Holds w card
      → (rows : List CardRow) × (write_runs site card updates no_changes w
          ≡ (ok (card_with_runs card updates), with_rows w rows))
        × Holds (with_rows w rows) (card_with_runs card updates)
  unfolding write_runs
  write_runs_held w card updates held = update_card_held w card _ refl refl held

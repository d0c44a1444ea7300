-- ===== src/Intake/Calls.antt =====
-- The calls of apps/backend/cfactory/card_intake.py on one card over time.
use cfactory.Prelude.{
  ℕ, ◌≡◌, refl, sym, ap, ◌∙◌, not, Option, none, some, ◌∷◌, Text, is_empty, if_intro,
}
use cfactory.Prelude.Exec.{Exec, continue}
use cfactory.Prelude.Results.{Result, ok, raise}
use cfactory.WorkItem.{WorkItemRow}
use cfactory.WorkItem.Table.{Tenant}
use cfactory.Cards.{CardRow, CardStatus, no_changes}
use cfactory.Cards.Board.{get, apply_changes}
use cfactory.Intake.{Stage, World, Site}
use cfactory.Intake.Stages.{pending_stages}
use cfactory.Intake.Dispatching.{with_rows, dispatch_card, dispatch_stage, start_sequence}
use cfactory.Intake.Writeback.{
  card_status_for, same_card_status, WriteBack, advance, write_status, write_back,
}
use cfactory.Intake.Held.{Holds, update_row_held}
use cfactory.Intake.Once.{
  Keeps, Keeps-trans, Advances, dispatch_stage-Keeps, dispatch_card-Keeps, start_sequence-Keeps,
  settle_held, advance_kept,
}

module _ (site : Site) where
  write_status-Keeps :
      (w : World) (card advanced : CardRow) (status : Option CardStatus)
      → Holds site w advanced
      → advanced.card_key ≡ card.card_key
      → Keeps site advanced (write_status site card advanced status w).1
  unfolding apply_changes
  write_status-Keeps w card advanced none held same_key = (advanced, held, refl, λ c s h. h)
  write_status-Keeps w card advanced (some status) held same_key =
      if_intro (λ (run : Exec World WriteBack). Keeps site advanced (run w).1)
        (same_card_status status advanced.status) (λ same. (advanced, held, refl, λ c s h. h))
        (λ differs.
          let (rows, updates, holds) =
            update_row_held site w advanced (record no_changes { status = some status }) refl refl
              held in
          rw (← same_key) (rw updates (_, holds, refl, λ c s h. h)))

  pub write_back-Keeps :
      (w : World) (card : CardRow) (item : WorkItemRow)
      → Holds site w card
      → Keeps site card (write_back site item (some card) w).1
  write_back-Keeps w card item held =
      let (settled, rows, settles, holds, same_key, same_correlation) =
        settle_held site w card item held in
      rw settles (
        by_advance settled same_key (λ c s h. same_correlation ∙ h)
          (advance site settled (with_rows w rows))
          (advance_kept site (with_rows w rows) settled holds))
    where
      by_advance :
          (settled : CardRow)
          → settled.card_key ≡ card.card_key
          → ((c : ℕ) (s : Text)
              → card.correlation_key ≡ some (c ∷ s)
              → settled.correlation_key ≡ some (c ∷ s))
          → (outcome : Result CardRow × World) → Advances site settled outcome
          → Keeps site card
              (continue outcome.0
                (λ advanced.
                  write_status site card advanced
                    (card_status_for item (not (is_empty (pending_stages advanced)))))
                outcome.1).1
      by_advance settled same_key k (raise e, v) kept =
          Keeps-trans site v card settled same_key k kept.0
      by_advance settled same_key k (ok advanced, v) (kept, returned) =
          joined kept (returned advanced refl)
        where
          w'' : World
          w'' =
              (write_status site card advanced
                (card_status_for item (not (is_empty (pending_stages advanced)))) v).1

          joined :
              Keeps site settled v
              → Holds site v advanced × (advanced.card_key ≡ settled.card_key)
              → Keeps site card w''
          joined (card', held', e, k') (holds, same_key') =
              let found : get site.tenant settled.card_key v.rows ≡ some card' = rw (← e) held' in
              let here : get site.tenant settled.card_key v.rows ≡ some advanced =
                rw (← same_key') holds in
              let same : card' ≡ advanced = cc in
              Keeps-trans site w'' card settled same_key k (
                Keeps-trans site w'' settled advanced same_key' (λ c s h. rw (← same) (k' c s h))
                  (write_status-Keeps v card advanced
                    (card_status_for item (not (is_empty (pending_stages advanced)))) holds
                    (same_key' ∙ same_key)))

-- The calls on a card, as it is then read
pub data Call (site : Site) (w : World) (card : CardRow) : World → Type 0 where
  promoted : Call site w card (dispatch_card site card w).1
  pressed : (stage : Stage) → Call site w card (dispatch_stage site card stage w).1
  run : Call site w card (start_sequence site card w).1
  reported : (item : WorkItemRow) → Call site w card (write_back site item (some card) w).1

Call-Keeps :
    (site : Site) (w : World) (card : CardRow) (w' : World)
    → Holds site w card
    → Call site w card w'
    → Keeps site card w'
Call-Keeps site w card w' held promoted = dispatch_card-Keeps site w card held
Call-Keeps site w card w' held (pressed stage) = dispatch_stage-Keeps site w card stage held
Call-Keeps site w card w' held run = start_sequence-Keeps site w card held
Call-Keeps site w card w' held (reported item) = write_back-Keeps site w card item held

module _ (tenant : Tenant) (key : Text) where
  -- Any number of calls, each on the card that the key names by then, and each with its own clock, settings,
  -- client and git target
  pub data Calls (w : World) : World → Type 0 where
    start : Calls w w
    call :
        {v u : World} (site : Site) (card : CardRow)
        → Calls w v
        → site.tenant ≡ tenant
        → card.card_key ≡ key
        → get tenant key v.rows ≡ some card
        → Call site v card u
        → Calls w u

  -- The correlation key is written once: a card that has one still has it after any calls that dispatch the
  -- card, run its sequence or write a work item back, whether they return or raise.
  pub correlation_key_once :
      (w w' : World) (card : CardRow) (c : ℕ) (s : Text)
      → get tenant key w.rows ≡ some card
      → card.correlation_key ≡ some (c ∷ s)
      → Calls w w'
      → (card' : CardRow) × (get tenant key w'.rows ≡ some card')
        × (card'.correlation_key ≡ some (c ∷ s))
  correlation_key_once w w' card c s held joined start = (card, held, joined)
  correlation_key_once w w' card c s held joined
        (call {v = v} site found calls scope named read next) =
      let (card', held', joined') = correlation_key_once w v card c s held joined calls in
      let same : card' ≡ found = same_card (sym held' ∙ read) in
      let (card'', held'', named'', k) =
        Call-Keeps site v found w'
          (ap (λ x. get x found.card_key v.rows) scope
            ∙ (ap (λ x. get tenant x v.rows) named ∙ read))
          next in
      (
        card'',
        sym (ap (λ x. get tenant x w'.rows) (named'' ∙ named))
            ∙ (sym (ap (λ x. get x card''.card_key w'.rows) scope) ∙ held''),
        k c s (rw same at joined'),
      )
    where
      same_card : {a b : CardRow} → some a ≡ some b → a ≡ b
      same_card e = cc

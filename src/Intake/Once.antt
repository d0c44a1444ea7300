-- ===== src/Intake/Once.antt =====
-- The correlation key of a card, which apps/backend/cfactory/card_intake.py sets once.
use cfactory.Prelude.{
  ℕ, ◌≡◌, refl, ◌∙◌, inl, inr, ◌||◌, not, Option, none, some, List, [], ◌∷◌, ◌++◌, Text, Bool-cases,
  Option-cases, is_some, keep_if, map, any,
}
use cfactory.Prelude.Exec.{continue, ◌>>=◌, continue-pure}
use cfactory.Prelude.Results.{Result, ok, raise, Result-cases}
use cfactory.WorkItem.{WorkItemRow}
use cfactory.Cards.{CardRow, dispatched, done, failed, blocked, no_changes}
use cfactory.Cards.Board.{get, apply_changes}
use cfactory.Intake.{Stage, Dispatch, in_sequence, World, Site}
use cfactory.Intake.Stages.{sequence, stage_is, default_stage, RunUpdates}
use cfactory.Intake.Prepare.{prepare_stage}
use cfactory.Intake.Dispatching.{
  with_rows, key_after, send_or_block, repo_of, dispatch_card, dispatch_stage, queued_run,
  first_live, run_from, start_sequence,
}
use cfactory.Intake.Writeback.{
  settle_updates, write_if_any, settle, first_queued, report, read_again, advance_to, advance,
}
use cfactory.Intake.Held.{Holds, card_with_runs, update_card_held, write_runs_held}
use cfactory.Intake.Presses.{Effect, idle, stopped, went, broke, send_effect, dispatch_stage_cases}

module _ (site : Site) where
  -- The table still has the card, with the correlation key that it had, if it had one.
  abbrev pub Keeps : CardRow → World → Type 0
  Keeps card w' =
      (card' : CardRow) × Holds site w' card'
      × (card'.card_key ≡ card.card_key)
      × ((c : ℕ) (s : Text)
          → card.correlation_key ≡ some (c ∷ s)
          → card'.correlation_key ≡ some (c ∷ s))

  pub Keeps-trans :
      (u : World) (card card' : CardRow)
      → card'.card_key ≡ card.card_key
      → ((c : ℕ) (s : Text)
          → card.correlation_key ≡ some (c ∷ s)
          → card'.correlation_key ≡ some (c ∷ s))
      → Keeps card' u
      → Keeps card u
  Keeps-trans u card card' e k (card'', held, e', k') =
      (card'', held, e' ∙ e, λ c s h. k' c s (k c s h))

  Effect-Keeps :
      {w w' : World} {card : CardRow} {stage : Stage} {r : Result Dispatch}
      → Holds site w card
      → Effect site w card stage r w'
      → Keeps card w'
  unfolding apply_changes key_after
  Effect-Keeps {card = card} held (idle r quiet) = (card, held, refl, λ c s h. h)
  Effect-Keeps {card = card} held (stopped e sent) = (card, held, refl, λ c s h. h)
  Effect-Keeps held (went d result sent rows good holds) = (_, holds, refl, λ c s h. rw h refl)
  Effect-Keeps held (broke d result sent rows bad holds) = (_, holds, refl, λ c s h. h)

  pub dispatch_stage-Keeps :
      (w : World) (card : CardRow) (stage : Stage)
      → Holds site w card
      → Keeps card (dispatch_stage site card stage w).1
  dispatch_stage-Keeps w card stage held =
      Effect-Keeps held (dispatch_stage_cases site w card stage held).0

  pub dispatch_card-Keeps :
      (w : World) (card : CardRow) → Holds site w card → Keeps card (dispatch_card site card w).1
  unfolding dispatch_card apply_changes
  dispatch_card-Keeps w card held =
      elim (Bool-cases (
        stage_is card dispatched (default_stage card) || stage_is card done (default_stage card))) [
          | inl sent ↦ rw (sent, dispatch_card) same
          | inr due ↦ elim (Result-cases (site.target_of card)) [
            | inr (e, stops) ↦ rw (due, dispatch_card) (rw stops same)
            | inl (target, found) ↦
                elim (Result-cases (
                  prepare_stage card (default_stage card) target.aifactory_project_id
                    (repo_of target) none)) [
                      | inr (e, stops) ↦ rw (due, dispatch_card) (rw found (rw stops same))
                      | inl (some action, prepared) ↦
                          rw (due, dispatch_card)
                            (rw found (
                              rw prepared (
                                Effect-Keeps held
                                  (send_effect site w card (default_stage card) action held))))
                      | inl (none, prepared) ↦
                          rw (due, dispatch_card) (rw found (rw prepared (not_sent)))
                    ]
          ]
        ]
    where
      same : Keeps card w
      same = (card, held, refl, λ c s h. h)

      not_sent : Keeps card (send_or_block site card (default_stage card) none w).1
      not_sent =
          let (rows, updates, holds) =
            update_card_held site w card (record no_changes { status = some blocked }) refl refl
              held in
          rw updates (_, holds, refl, λ c s h. h)

  -- A call that returned a card returned the one that the table has under the same key.
  abbrev pub Returns : CardRow → Result CardRow × World → Type 0
  Returns card (r, w) =
      (found : CardRow) → r ≡ ok found → Holds site w found × (found.card_key ≡ card.card_key)

  run_from-Keeps :
      (w : World) (card : CardRow) (todo : List Stage)
      → Holds site w card
      → Keeps card (run_from site card todo w).1
  unfolding apply_changes
  run_from-Keeps w card [] held = (card, held, refl, λ c s h. h)
  run_from-Keeps w card (s ∷ todo) held =
      let (rows, queues, holds) =
        write_runs_held site w card (map (λ x. (x, queued_run x)) (s ∷ todo)) held in
      rw queues (
        rw
          (continue-pure (in_sequence (s ∷ todo))
            (dispatch_stage site queued_card s (with_rows w rows)))
          (Keeps-trans (dispatch_stage site queued_card s (with_rows w rows)).1 card queued_card
            refl (λ c s h. h) (dispatch_stage-Keeps (with_rows w rows) queued_card s holds)))
    where
      queued_card : CardRow
      queued_card = card_with_runs site card (map (λ x. (x, queued_run x)) (s ∷ todo))

  pub start_sequence-Keeps :
      (w : World) (card : CardRow) → Holds site w card → Keeps card (start_sequence site card w).1
  unfolding start_sequence
  start_sequence-Keeps w card held = elim (Bool-cases (is_some card.tier)) [
    | inr untiered ↦ rw (untiered, start_sequence) (card, held, refl, λ c s h. h)
    | inl tiered ↦ elim (Option-cases (first_live card sequence)) [
      | inr (live, runs) ↦ rw (tiered, start_sequence) (rw runs (card, held, refl, λ c s h. h))
      | inl still ↦
          rw (tiered, start_sequence)
            (rw still
              (run_from-Keeps w card (keep_if (λ s. not (stage_is card done s)) sequence) held))
    ]
  ]

  -- Settling returns the card as the table then has it, and no request is sent.
  pub settle_held :
      (w : World) (card : CardRow) (item : WorkItemRow)
      → Holds site w card
      → (card' : CardRow) × (rows : List CardRow) × (settle site card item w
          ≡ (ok card', with_rows w rows))
        × Holds site (with_rows w rows) card'
        × (card'.card_key ≡ card.card_key)
        × (card'.correlation_key ≡ card.correlation_key)
  unfolding settle apply_changes
  settle_held w card item held = by_updates (settle_updates card item sequence)
    where
      by_updates :
          (updates : RunUpdates)
          → (card' : CardRow) × (rows : List CardRow) × (write_if_any site card updates w
              ≡ (ok card', with_rows w rows))
            × Holds site (with_rows w rows) card'
            × (card'.card_key ≡ card.card_key)
            × (card'.correlation_key ≡ card.correlation_key)
      by_updates [] = (card, w.rows, refl, held, refl, refl)
      by_updates (u ∷ updates) =
          let (rows, writes, holds) = write_runs_held site w card (u ∷ updates) held in
          (card_with_runs site card (u ∷ updates), rows, writes, holds, refl, refl)

  -- Reading a card again that the table has
  read_again_kept :
      (v : World) (card : CardRow) → Keeps card v → Returns card (read_again site card v)
  read_again_kept v card (card', held, e, k) found r =
      let here : get site.tenant card.card_key v.rows ≡ some card' = rw (← e) held in
      let same : card' ≡ found = same_card (rw here at r) in rw (← same) (held, e)
    where
      same_card : {a b : CardRow} → (◌≡◌ {A = Result CardRow} (ok a) (ok b)) → a ≡ b
      same_card p = cc

  abbrev pub Advances : CardRow → Result CardRow × World → Type 0
  Advances card outcome = Keeps card outcome.1 × Returns card outcome

  advance_to_kept :
      (w : World) (card : CardRow) (next : Option Stage)
      → Holds site w card
      → Advances card (advance_to site card next w)
  advance_to_kept w card none held = ((card, held, refl, λ c s h. h), λ found e. same found e)
    where
      same :
          (found : CardRow)
          → (◌≡◌ {A = Result CardRow} (ok card) (ok found))
          → Holds site w found × (found.card_key ≡ card.card_key)
      same found e = let here : card ≡ found = cc in rw (← here) (held, refl)
  advance_to_kept w card (some next) held =
      by_reply (dispatch_stage site card next w) (dispatch_stage-Keeps w card next held)
    where
      by_reply :
          (outcome : Result Dispatch × World)
          → Keeps card outcome.1
          → Advances card (
              continue outcome.0
                (λ result. report card.card_key result >>= λ _. read_again site card)
                outcome.1)
      by_reply (raise e, v) kept = (kept, λ found x. absurd cc)
      by_reply (ok d, v) kept = (
        kept,
        read_again_kept (record v { reported = v.reported ++ (card.card_key, d) ∷ [] }) card kept,
      )

  pub advance_kept :
      (w : World) (card : CardRow) → Holds site w card → Advances card (advance site card w)
  unfolding advance apply_changes
  advance_kept w card held = elim (Bool-cases (any (stage_is card dispatched) sequence)) [
    | inl running ↦ rw (running, advance) (advance_to_kept w card none held)
    | inr idle_now ↦ elim (Bool-cases (any (stage_is card failed) sequence)) [
      | inr sound ↦
          rw (idle_now, advance)
            (rw sound (advance_to_kept w card (first_queued card sequence) held))
      | inl broken ↦
          let (rows, updates, holds) =
            update_card_held site w card (record no_changes { status = some blocked }) refl refl
              held in
          rw (idle_now, advance)
            (rw broken
              (rw updates ((_, holds, refl, λ c s h. h), λ found e. same found rows holds e)))
    ]
  ]
    where
      same :
          (found : CardRow) (rows : List CardRow)
          → Holds site
              (with_rows w rows)
              (apply_changes site.now (record no_changes { status = some blocked }) card)
          → (◌≡◌ {A = Result CardRow}
              (ok (apply_changes site.now (record no_changes { status = some blocked }) card))
              (ok found))
          → Holds site (with_rows w rows) found × (found.card_key ≡ card.card_key)
      same found rows holds e =
          let here : apply_changes site.now (record no_changes { status = some blocked }) card
              ≡ found =
            cc in
          rw (← here) (holds, refl)

-- ===== src/Intake/Presses.antt =====
-- What a dispatch of apps/backend/cfactory/card_intake.py does to a card that the table holds.
use cfactory.Prelude.{
  ◌≡◌, refl, sym, ap, ◌∙◌, inl, inr, Bool, true, false, Option, none, some, List, Text, Bool-cases,
  Option-cases, is_some,
}
use cfactory.Prelude.Exec.{pure, continue}
use cfactory.Prelude.Results.{Result, Exception, ok, raise, Result-cases}
use cfactory.Actions.{Request, PreparedAction, ActionResult, execute_action}
use cfactory.Cards.{CardRow, dispatched, done}
use cfactory.Cards.Board.{apply_changes}
use cfactory.Intake.{
  Stage, plan, code, test, no_tier, stage_already_running, Payload, GitTarget, Dispatch, refused,
  dispatched_to, warned, in_sequence, World, Site,
}
use cfactory.Intake.Stages.{stage_is, stage_status, refuse_reason, stage_warnings, merge_runs}
use cfactory.Intake.Prepare.{prepare_stage, clone_url}
use cfactory.Intake.Dispatching.{with_rows, send, send_allowed, repo_of, dispatch_stage}
use cfactory.Intake.Held.{Holds, sent_card, failed_card, record_sent_held, record_failed_held}

-- Whether the caller is told that the stage was dispatched
unfoldable pub is_sent : Dispatch → Bool
is_sent (dispatched_to stage key result) = true
is_sent (warned d ws) = is_sent d
is_sent (in_sequence stages d) = is_sent d
is_sent _ = false

abbrev pub reply_is_sent : Result Dispatch → Bool
reply_is_sent (raise e) = false
reply_is_sent (ok d) = is_sent d

abbrev pub with_requests : World → List (Request Payload) → World
with_requests w sent = record w { sent = sent }

module _ (site : Site) where
  -- What a dispatch of a stage may do to the world: nothing; or it stops at an exception of the client; or
  -- the service takes the stage, and the card is in progress, with the stage on record; or it does
  -- not, and the card is blocked
  pub data Effect (w : World) (card : CardRow) (stage : Stage)
      : Result Dispatch → World → Type 0 where
    idle : (r : Result Dispatch) → reply_is_sent r ≡ false → Effect w card stage r w
    stopped :
        (e : Exception) (sent : List (Request Payload))
        → Effect w card stage (raise e) (with_requests w sent)
    went :
        (d : Dispatch) (result : ActionResult) (sent : List (Request Payload)) (rows : List CardRow)
        → is_sent d ≡ true
        → Holds site (with_rows (with_requests w sent) rows) (sent_card site card stage result)
        → Effect w card stage (ok d) (with_rows (with_requests w sent) rows)
    broke :
        (d : Dispatch) (result : ActionResult) (sent : List (Request Payload)) (rows : List CardRow)
        → is_sent d ≡ false
        → Holds site (with_rows (with_requests w sent) rows) (failed_card site card stage result)
        → Effect w card stage (ok d) (with_rows (with_requests w sent) rows)

  abbrev pub HasEffect : World → CardRow → Stage → Result Dispatch × World → Type 0
  HasEffect w card stage outcome = Effect w card stage outcome.0 outcome.1

  pub send_effect :
      (w : World) (card : CardRow) (stage : Stage) (action : PreparedAction Payload)
      → Holds site w card
      → HasEffect w card stage (send site card stage action w)
  unfolding send is_sent
  send_effect w card stage action held =
      elim (Result-cases (execute_action site.web site.settings action w.sent).0) [
        | inr (e, fatal) ↦ rw (fatal, send) (stopped e _)
        | inl (result, answered) ↦ elim (Bool-cases result.succeeded) [
          | inl good ↦
              let (rows, records, holds) =
                record_sent_held site
                  (with_requests w (execute_action site.web site.settings action w.sent).1) card
                  stage result good held in
              rw (answered, send) (rw records (went _ result _ rows refl holds))
          | inr bad ↦
              let (rows, records, holds) =
                record_failed_held site
                  (with_requests w (execute_action site.web site.settings action w.sent).1) card
                  stage result bad held in
              rw (answered, send) (rw records (broke _ result _ rows refl holds))
        ]
      ]

  warned_effect :
      (w : World) (card : CardRow) (stage : Stage) (outcome : Result Dispatch × World)
      → HasEffect w card stage outcome
      → HasEffect w card stage
          (continue outcome.0 (λ d. pure (warned d (stage_warnings card stage))) outcome.1)
  unfolding is_sent
  warned_effect w card stage (r, w') e = by_effect r w' e
    where
      by_effect :
          (r : Result Dispatch) (w' : World)
          → Effect w card stage r w'
          → HasEffect w card stage
              (continue r (λ d. pure (warned d (stage_warnings card stage))) w')
      by_effect (raise x) w' (idle r quiet) = idle (raise x) refl
      by_effect (ok d) w' (idle r quiet) = idle (ok (warned d (stage_warnings card stage))) quiet
      by_effect _ w' (stopped x sent) = stopped x sent
      by_effect _ w' (went d result sent rows good holds) =
          went (warned d (stage_warnings card stage)) result sent rows good holds
      by_effect _ w' (broke d result sent rows bad holds) =
          broke (warned d (stage_warnings card stage)) result sent rows bad holds

  send_allowed_effect :
      (w : World) (card : CardRow) (stage : Stage) (target : GitTarget)
      → Holds site w card
      → HasEffect w card stage (send_allowed site card stage target none w)
  unfolding is_sent
  send_allowed_effect w card stage target held =
      elim (Result-cases (clone_url site.web target.provider target.base_url target.project)) [
        | inr (e, stops) ↦ rw stops (idle (raise e) refl)
        | inl (url, reads) ↦
            rw reads
              (elim (Result-cases
                (prepare_stage card stage target.aifactory_project_id (repo_of target) url)) [
                  | inr (e, stops) ↦ rw stops (idle (raise e) refl)
                  | inl (none, prepared) ↦ rw prepared (idle _ refl)
                  | inl (some action, prepared) ↦ rw prepared (
                      warned_effect w card stage (send site card stage action w)
                        (send_effect w card stage action held))
                ])
      ]

  -- What a dispatch of a stage does; where it sends, nothing refused it.
  pub dispatch_stage_cases :
      (w : World) (card : CardRow) (stage : Stage)
      → Holds site w card
      → HasEffect w card stage (dispatch_stage site card stage w)
        × (reply_is_sent (dispatch_stage site card stage w).0 ≡ true
            → (p : Option Text) × (refuse_reason card stage p ≡ none))
  unfolding dispatch_stage is_sent
  dispatch_stage_cases w card stage held = elim (Bool-cases (stage_is card done stage)) [
    | inl over ↦ rw (over, dispatch_stage) (idle _ refl, λ h. absurd cc)
    | inr due ↦ elim (Result-cases (site.target_of card)) [
      | inr (e, stops) ↦ rw (due, dispatch_stage) (rw stops (idle (raise e) refl, λ h. absurd cc))
      | inl (target, found) ↦
          elim (Option-cases (refuse_reason card stage target.aifactory_project_id)) [
            | inr (refusal, refuses) ↦
                rw (due, dispatch_stage) (rw found (rw refuses (idle _ refl, λ h. absurd cc)))
            | inl allowed ↦
                rw (due, dispatch_stage)
                  (rw found (
                    rw allowed (
                      send_allowed_effect w card stage target held,
                      λ h. (target.aifactory_project_id, allowed),
                    )))
          ]
    ]
  ]

  sent_card_is_dispatched :
      (card : CardRow) (stage : Stage) (result : ActionResult)
      → stage_status (sent_card site card stage result) stage ≡ some dispatched
  unfolding merge_runs apply_changes
  sent_card_is_dispatched card plan result = refl
  sent_card_is_dispatched card code result = refl
  sent_card_is_dispatched card test result = refl

  allowed_has_tier :
      (card : CardRow) (stage : Stage) (p : Option Text)
      → refuse_reason card stage p ≡ none
      → is_some card.tier ≡ true
  unfolding refuse_reason
  allowed_has_tier card stage p h = elim (Bool-cases (is_some card.tier)) [
    | inl some_tier ↦ some_tier
    | inr untiered ↦ absurd (refuses (rw untiered at h))
  ]
    where
      refuses : some no_tier ≡ none → ⊥
      refuses e = cc

  -- The reply to a press on a stage that is running
  abbrev pub second_reply : Stage → Result GitTarget → Result Dispatch
  second_reply stage (raise e) = raise e
  second_reply stage (ok target) = ok (refused stage_already_running stage)

  running_refused :
      (w : World) (card : CardRow) (stage : Stage)
      → stage_status card stage ≡ some dispatched
      → is_some card.tier ≡ true
      → dispatch_stage site card stage w ≡ (second_reply stage (site.target_of card), w)
  unfolding dispatch_stage stage_is refuse_reason
  running_refused w card stage running tiered = elim (Result-cases (site.target_of card)) [
    | inr (e, stops) ↦ rw (running, dispatch_stage) (rw stops refl)
    | inl (target, found) ↦ rw (running, dispatch_stage) (rw found (rw tiered refl))
  ]

  -- Two presses are one dispatch: where a press told its caller that the stage was dispatched, the card as
  -- the table then has it is refused as running at the next press, which sends nothing and changes
  -- nothing (or raises, if the card's git target can no longer be read).
  pub press_twice :
      (w w' : World) (card : CardRow) (stage : Stage) (d : Dispatch)
      → Holds site w card
      → dispatch_stage site card stage w ≡ (ok d, w')
      → is_sent d ≡ true
      → (card' : CardRow) × Holds site w' card'
        × (card'.card_key ≡ card.card_key)
        × (dispatch_stage site card' stage w' ≡ (second_reply stage (site.target_of card'), w'))
  unfolding apply_changes
  press_twice w w' card stage d held pressed told =
      let (effect, allowed) = dispatch_stage_cases w card stage held in
      by_effect (ok d) w' (rw pressed at effect) refl (tiered (rw pressed at allowed))
    where
      tiered :
          (reply_is_sent (ok d) ≡ true → (p : Option Text) × (refuse_reason card stage p ≡ none))
          → is_some card.tier ≡ true
      tiered allowed = let (p, free) = allowed told in allowed_has_tier card stage p free

      apart : false ≡ true → ⊥
      apart e = cc

      ends : {x : Exception} → raise x ≡ ok d → ⊥
      ends e = cc

      by_effect :
          (r : Result Dispatch) (v : World)
          → Effect w card stage r v
          → r ≡ ok d
          → is_some card.tier ≡ true
          → (card' : CardRow) × Holds site v card'
            × (card'.card_key ≡ card.card_key)
            × (dispatch_stage site card' stage v ≡ (second_reply stage (site.target_of card'), v))
      by_effect r v (idle r' quiet) e tier =
          absurd (apart (sym quiet ∙ (ap reply_is_sent e ∙ told)))
      by_effect r v (stopped x sent) e tier = absurd (ends e)
      by_effect r v (went d' result sent rows good holds) e tier = (
        sent_card site card stage result,
        holds,
        refl,
        running_refused _ _ stage (sent_card_is_dispatched card stage result) tier,
      )
      by_effect r v (broke d' result sent rows bad holds) e tier =
          absurd (apart (sym bad ∙ (ap reply_is_sent e ∙ told)))

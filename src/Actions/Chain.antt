-- ===== src/Actions/Chain.antt =====
-- What `execute_action` of apps/backend/cfactory/actions.py sends.
use cfactory.Prelude.{
  ◌≡◌, refl, sym, ap, ◌∙◌, inl, inr, Bool, true, false, not, Option, some, List, [], ◌∷◌, ◌++◌, map,
  append_assoc, append-nil, Text, any, if_intro, Option-cases, ◌⊎◌, arith, All,
}
use cfactory.Prelude.Results.{Exception, Result, ok, raise, Result-cases, >>=-eq-ok}
use cfactory.Actions.{
  ActionStep, PreparedAction, Settings, Request, Web, Response, StepResult, ActionResult,
  is_http_error, base_url_for, bearer_of, step_result, not_answered, summary, is_safe_endpoint,
  all_safe, run_steps, steps_of, execute_action,
}

module _ {P : Type 0} (web : Web P) where
  module _ (base : Text) (bearer : Option Text) where
    abbrev pub request : ActionStep P → Request P
    request step = record { base_url = base; bearer = bearer; step = step }

    -- The step was answered with success, when it was sent after those requests.
    abbrev pub Succeeds : List (Request P) → ActionStep P → Type 0
    Succeeds sent step =
        (resp : Response) × (web.answer sent (request step) ≡ ok resp)
        × ((step_result step resp).succeeded ≡ true)

    -- Every step but the last was answered with success, when it was sent after those before it.
    abbrev pub Chained : List (Request P) → List (ActionStep P) → Type 0
    Chained sent [] = Unit
    Chained sent (step ∷ []) = Unit
    Chained sent (step ∷ next ∷ steps) =
        Succeeds sent step × Chained (sent ++ request step ∷ []) (next ∷ steps)

    -- Every step was.
    abbrev pub Answered : List (Request P) → List (ActionStep P) → Type 0
    Answered sent [] = Unit
    Answered sent (step ∷ steps) = Succeeds sent step × Answered (sent ++ request step ∷ []) steps

    abbrev pub Returns : Result ActionResult → Type 0
    Returns r = (res : ActionResult) × (r ≡ ok res) × (res.succeeded ≡ true)

    pub record Sends (steps : List (ActionStep P)) (sent : List (Request P))
        (outcome : Result ActionResult × List (Request P)) : Type 0 where
      pub front : List (ActionStep P)
      pub back : List (ActionStep P)
      pub parts : steps ≡ front ++ back
      pub all_sent : outcome.1 ≡ sent ++ map request front
      pub chained : Chained sent front
      pub finished : Returns outcome.0 → (back ≡ []) × Answered sent steps

    any_failed :
        (results : List StepResult) (r : StepResult)
        → r.succeeded ≡ false
        → any (λ x. not x.succeeded) (results ++ r ∷ []) ≡ true
    any_failed [] r bad = rw bad refl
    any_failed (s ∷ results) r bad = ground (arith, any_failed results r bad)

    summary_failed :
        (results : List StepResult) (r : StepResult)
        → r.succeeded ≡ false
        → (summary (results ++ r ∷ [])).succeeded ≡ false
    summary_failed [] r bad = rw bad refl
    summary_failed (s ∷ results) r bad = rw (any_failed (s ∷ results) r bad) refl

    no_return : (result : ActionResult) → result.succeeded ≡ false → Returns (ok result) → ⊥
    no_return result bad (res, e, good) = clash
      where
        same : result ≡ res
        same = cc

        clash : ⊥
        clash = absurd (apart (sym bad ∙ (ap (λ x. x.succeeded) same ∙ good)))
          where
            apart : false ≡ true → ⊥
            apart e = cc

    raised : {e : Exception} → Returns (raise e) → ⊥
    raised (res, e, good) = cc

    -- A chain that ends with its first step
    Sends-one :
        (step : ActionStep P) (steps : List (ActionStep P)) (sent : List (Request P))
        (r : Result ActionResult)
        → (Returns r → ⊥)
        → Sends (step ∷ steps) sent (r, sent ++ request step ∷ [])
    Sends-one step steps sent r stops = record {
      front = step ∷ [];
      back = steps;
      parts = refl;
      all_sent = refl;
      chained = tt;
      finished = λ h. absurd (stops h);
    }

    chain_on :
        (step : ActionStep P) (steps : List (ActionStep P)) (sent : List (Request P))
        (outcome : Result ActionResult × List (Request P))
        → Succeeds sent step
        → Sends steps (sent ++ request step ∷ []) outcome
        → Sends (step ∷ steps) sent outcome
    chain_on step steps sent outcome good rest = record {
      front = step ∷ rest.front;
      back = rest.back;
      parts = ap (λ l. step ∷ l) rest.parts;
      all_sent = rest.all_sent ∙ append_assoc sent (request step ∷ []) (map request rest.front);
      chained = linked rest.front rest.chained;
      finished = λ h. ((rest.finished h).0, (good, (rest.finished h).1));
    }
      where
        linked :
            (front : List (ActionStep P))
            → Chained (sent ++ request step ∷ []) front
            → Chained sent (step ∷ front)
        linked [] c = tt
        linked (next ∷ front) c = (good, c)

    run_steps-Sends :
        (steps : List (ActionStep P)) (results : List StepResult) (sent : List (Request P))
        → Sends steps sent (run_steps web base bearer steps results sent)
    unfolding run_steps
    run_steps-Sends [] results sent = record {
      front = [];
      back = [];
      parts = refl;
      all_sent = sym (append-nil sent);
      chained = tt;
      finished = λ h. (refl, tt);
    }
    run_steps-Sends (step ∷ steps) results sent =
        elim (Result-cases (web.answer sent (request step))) [
          | inr (e, fails) ↦ rw fails (
              if_intro (Sends (step ∷ steps) sent) (is_http_error e)
                (λ http. Sends-one step steps sent _ (no_return _ refl))
                (λ fatal. Sends-one step steps sent _ raised))
          | inl (resp, answers) ↦ rw answers (
              if_intro (Sends (step ∷ steps) sent) (step_result step resp).succeeded
                (λ good.
                  chain_on step steps sent _ (resp, answers, good)
                    (run_steps-Sends steps (results ++ step_result step resp ∷ [])
                      (sent ++ request step ∷ [])))
                (λ bad.
                  Sends-one step steps sent _
                    (no_return _ (summary_failed results (step_result step resp) bad))))
        ]

  -- A text may name a path: it begins with a slash, and `urlsplit` finds neither scheme nor host.
  abbrev pub AllSafe : List (ActionStep P) → Type 0
  AllSafe = All (λ step. is_safe_endpoint web step.endpoint ≡ ok true)

  all_safe_sound : (steps : List (ActionStep P)) → all_safe web steps ≡ ok true → AllSafe steps
  unfolding all_safe
  all_safe_sound [] h = tt
  all_safe_sound (step ∷ steps) h =
      let (safe, tested, rest) =
        >>=-eq-ok (is_safe_endpoint web step.endpoint) (λ safe. go_on safe) h in
      both safe tested rest (all_safe_sound steps)
    where
      go_on : Bool → Result Bool
      go_on safe = elim safe [ false ↦ ok false | true ↦ all_safe web steps ]

      both :
          (safe : Bool)
          → is_safe_endpoint web step.endpoint ≡ ok safe
          → go_on safe ≡ ok true
          → (all_safe web steps ≡ ok true → AllSafe steps)
          → AllSafe (step ∷ steps)
      both true t r ih = (t, ih r)
      both false t r ih = absurd cc

  -- Nothing is sent, and no success is returned.
  abbrev pub Quiet : List (Request P) → Result ActionResult × List (Request P) → Type 0
  Quiet sent outcome =
      (outcome.1 ≡ sent) × ((res : ActionResult) → outcome.0 ≡ ok res → res.succeeded ≡ false)

  -- The steps go to the service of the action, one after the other.
  abbrev pub Confirmed :
      Settings
      → PreparedAction P
      → List (Request P)
      → Result ActionResult × List (Request P)
      → Type 0
  Confirmed settings action sent outcome =
      (base : Text) × (base_url_for settings action.target_service ≡ some base)
      × AllSafe (steps_of web action)
      × Sends base (bearer_of settings.upstream_token) (steps_of web action) sent outcome

  -- A confirmed action sends nothing, and then does not report success, or it goes to the address of its
  -- service: each endpoint is safe, the requests sent are those of a front part of its steps, each but
  -- the last of them was answered with success before the next was sent, and where success is
  -- reported every step was sent and so answered. This holds too where an exception comes out.
  pub execute_action_sends :
      (settings : Settings) (action : PreparedAction P) (sent : List (Request P))
      → Quiet sent (execute_action web settings action sent)
        ⊎ Confirmed settings action sent (execute_action web settings action sent)
  unfolding execute_action
  execute_action_sends settings action sent =
      elim (Option-cases (base_url_for settings action.target_service)) [
        | inl unknown ↦ rw (unknown, execute_action) (inl (refl, λ res e. failed res e))
        | inr (base, known) ↦
            rw (known, execute_action)
              (elim (Result-cases (all_safe web (steps_of web action))) [
                | inr (e, stops) ↦ rw stops (inl (refl, λ res e. absurd cc))
                | inl (true, safe) ↦ rw safe (
                    inr (
                      base,
                      refl,
                      all_safe_sound (steps_of web action) safe,
                      run_steps-Sends base (bearer_of settings.upstream_token) (steps_of web action)
                          [] sent,
                    ))
                | inl (false, unsafe) ↦ rw unsafe (inl (refl, λ res e. failed res e))
              ])
      ]
    where
      failed :
          {reason : Text} (res : ActionResult)
          → ok (not_answered reason []) ≡ ok res
          → res.succeeded ≡ false
      failed {reason = reason} res e =
          let same : not_answered reason [] ≡ res = cc in rw (← same) refl

-- ===== src/Actions.antt =====
-- Confirmed writes: `execute_action` of apps/backend/cfactory/actions.py. The HTTP client and
-- `urlsplit` are the fields of `Web`; what the client answers may depend on all that was sent before.
-- Of a JSON body that is an object, its keys are kept, and of their values what the program reads.
mod Chain
mod Examples
use cfactory.Prelude.{
  ℕ, ◌+◌, Bool, true, false, ◌&&◌, ◌||◌, not, Option, none, some, List, [], ◌∷◌, ◌++◌, map, ◌==◌,
  leb, if◌then◌else◌, Text, codes, text_eq, is_empty, any, is_some,
}
use cfactory.Prelude.Decimal.{str_int}
use cfactory.Prelude.Dicts.{Dict, dict_get}
use cfactory.Prelude.Results.{Exception, Result, ok, raise, http_error, ◌>>=◌}

-- A value in a body. `other` is any value that is none of the first four: its truth, and its `str`.
pub data Value : Type 0 where
  null : Value
  boolean : Bool → Value
  number : ℕ → Value
  string : Text → Value
  other : Bool → Text → Value

-- A body: an object, or anything else
pub data Body : Type 0 where
  object : Dict Value → Body
  no_object : Text → Body

pub record Response : Type 0 where
  pub status_code : ℕ
  -- `resp.json()`, `none` where it raises `ValueError`, and `resp.text`
  pub json : Option Body
  pub text : Text

-- `ActionStep`
pub record ActionStep (P : Type 0) : Type 0 where
  pub method : Text
  pub endpoint : Text
  pub payload : P

-- `PreparedAction`
pub record PreparedAction (P : Type 0) : Type 0 where
  pub correlation_key : Text
  pub target_service : Text
  pub step : ActionStep P
  pub follow_ups : List (ActionStep P)

-- The fields of `Settings` that are read
pub record Settings : Type 0 where
  pub pfactory_api_url : Text
  pub aifactory_api_url : Text
  pub tfactory_api_url : Text
  pub upstream_token : Option Text

pub record Request (P : Type 0) : Type 0 where
  pub base_url : Text
  pub bearer : Option Text
  pub step : ActionStep P

-- `urlsplit`, as the scheme and the host, and a request of the client
pub record Web (P : Type 0) : Type 0 where
  pub urlsplit : Text → Result (Text × Text)
  pub answer : List (Request P) → Request P → Result Response

-- The result of one step, and of an action
pub record StepResult : Type 0 where
  pub method : Text
  pub endpoint : Text
  pub status_code : ℕ
  pub succeeded : Bool
  pub body : Body
  pub error : Option Text

pub record ActionResult : Type 0 where
  pub status_code : ℕ
  pub succeeded : Bool
  pub error : Option Text
  pub body : Option Body
  pub steps : List StepResult

-- `_base_url_for`, `none` where it raises `KeyError`
unfoldable pub base_url_for : Settings → Text → Option Text
base_url_for settings target =
    if text_eq target (codes "pfactory")
    then some settings.pfactory_api_url
    else (if text_eq target (codes "aifactory")
        then some settings.aifactory_api_url
        else (if text_eq target (codes "tfactory") then some settings.tfactory_api_url else none))

-- The first of the keys under which a text stands that is not empty
unfoldable pub first_text : Dict Value → List Text → Option Text
unfolding dict_get
first_text body [] = none
first_text body (key ∷ keys) = elim (dict_get body key) [
  | some (string (c ∷ s)) ↦ some (c ∷ s)
  | _ ↦ first_text body keys
]

abbrev refusal_text : Option Text → Text
refusal_text none = codes "upstream reported success=false"
refusal_text (some s) = s

-- `_refusal_in_body`
unfoldable pub refusal_in_body : Body → Option Text
unfolding dict_get first_text
refusal_in_body (no_object s) = none
refusal_in_body (object body) = elim (dict_get body (codes "success")) [
  | some (boolean false) ↦
      some (refusal_text (first_text body (codes "error" ∷ codes "detail" ∷ codes "message" ∷ [])))
  | _ ↦ none
]

-- `resp.is_success`
abbrev pub is_success : Response → Bool
is_success resp = leb 200 resp.status_code && leb resp.status_code 299

abbrev pub body_of : Response → Body
body_of resp = elim resp.json [ some body ↦ body | none ↦ no_object resp.text ]

-- `_do`, of the response
unfoldable pub step_result : {P : Type 0} → ActionStep P → Response → StepResult
unfolding refusal_in_body
step_result step resp = record {
  method = step.method;
  endpoint = step.endpoint;
  status_code = resp.status_code;
  succeeded = is_success resp && not (is_some (refusal_in_body (body_of resp)));
  body = body_of resp;
  error = refusal_in_body (body_of resp);
}

-- The token that the header carries, if one is set
abbrev pub bearer_of : Option Text → Option Text
bearer_of none = none
bearer_of (some []) = none
bearer_of (some (c ∷ s)) = some (c ∷ s)

-- The shape of a request that was not made, or failed
abbrev pub not_answered : Text → List StepResult → ActionResult
not_answered reason results = record {
  status_code = 0;
  succeeded = false;
  error = some reason;
  body = none;
  steps = results;
}

abbrev pub is_http_error : Exception → Bool
is_http_error http_error = true
is_http_error _ = false

abbrev pub last_of : StepResult → List StepResult → StepResult
last_of r [] = r
last_of r (s ∷ results) = last_of s results

-- `next((r for r in results if not r["ok"]), None)`
abbrev pub first_failed : List StepResult → Option Text
first_failed [] = none
first_failed (r ∷ results) = if r.succeeded then first_failed results else r.error

abbrev pub summary : List StepResult → ActionResult
summary [] = not_answered [] []
summary (r ∷ results) = record {
  status_code = (last_of r results).status_code;
  succeeded = not (any (λ s. not s.succeeded) (r ∷ results));
  error = first_failed (r ∷ results);
  body = some (last_of r results).body;
  steps = r ∷ results;
}

module _ {P : Type 0} (web : Web P) where
  -- `is_safe_endpoint`
  unfoldable pub is_safe_endpoint : Text → Result Bool
  is_safe_endpoint [] = ok false
  is_safe_endpoint (c ∷ []) =
      (if c == b'/'
        then (do parts ← web.urlsplit (c ∷ []); ok (is_empty parts.0 && is_empty parts.1))
        else ok false)
  is_safe_endpoint (c ∷ d ∷ s) =
      (if c == b'/' && not (d == b'/')
        then (do parts ← web.urlsplit (c ∷ d ∷ s); ok (is_empty parts.0 && is_empty parts.1))
        else ok false)

  unfoldable pub all_safe : List (ActionStep P) → Result Bool
  unfolding is_safe_endpoint
  all_safe [] = ok true
  all_safe (step ∷ steps) = do
    safe ← is_safe_endpoint step.endpoint
    elim safe [ false ↦ ok false | true ↦ all_safe steps ]

  -- What becomes of the loop after one request: an error of the client ends it, a step that did not
  -- succeed ends it too, and otherwise the next steps run with one more result.
  abbrev pub next_or_stop :
      ActionStep P
      → List StepResult
      → List (Request P)
      → (List StepResult → Result ActionResult × List (Request P))
      → Result Response
      → Result ActionResult × List (Request P)
  next_or_stop step results sent next (raise e) =
      if is_http_error e
      then (ok (not_answered (codes "the request failed") results), sent)
      else (raise e, sent)
  next_or_stop step results sent next (ok resp) =
      let rest = next (results ++ step_result step resp ∷ []) in
      if (step_result step resp).succeeded
      then rest
      else (ok (summary (results ++ step_result step resp ∷ [])), sent)

  -- The loop over the steps, with the results so far
  unfoldable pub run_steps :
      Text
      → Option Text
      → List (ActionStep P)
      → List StepResult
      → List (Request P)
      → Result ActionResult × List (Request P)
  run_steps base bearer [] results sent = (ok (summary results), sent)
  run_steps base bearer (step ∷ steps) results sent =
      let request : Request P = record { base_url = base; bearer = bearer; step = step } in
      next_or_stop step results (sent ++ request ∷ [])
        (λ results'. run_steps base bearer steps results' (sent ++ request ∷ []))
        (web.answer sent request)

  abbrev pub safe_run :
      Text
      → Option Text
      → List (ActionStep P)
      → List (Request P)
      → Result Bool
      → Result ActionResult × List (Request P)
  safe_run base bearer steps sent (raise e) = (raise e, sent)
  safe_run base bearer steps sent (ok false) =
      (ok (not_answered (codes "unsafe endpoint (must be root-relative)") []), sent)
  safe_run base bearer steps sent (ok true) = run_steps base bearer steps [] sent

  abbrev pub steps_of : PreparedAction P → List (ActionStep P)
  steps_of action = action.step ∷ action.follow_ups

  -- `execute_action`: its result, and all that was sent until then
  unfoldable pub execute_action :
      Settings → PreparedAction P → List (Request P) → Result ActionResult × List (Request P)
  unfolding base_url_for all_safe run_steps
  execute_action settings action sent = elim (base_url_for settings action.target_service) [
    | none ↦ (ok (not_answered (codes "unknown target_service") []), sent)
    | some base ↦
        safe_run base (bearer_of settings.upstream_token) (steps_of action) sent
          (all_safe (steps_of action))
  ]

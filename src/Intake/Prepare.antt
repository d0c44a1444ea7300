-- ===== src/Intake/Prepare.antt =====
-- The write that sends a card into a stage: `prepare_stage`, `prepare_dispatch` and `_upstream_key` of
-- apps/backend/cfactory/card_intake.py, with `qualify_repo` and `clone_url` of
-- apps/backend/cfactory/git_config.py.
use cfactory.Prelude.{
  Bool, true, false, ◌&&◌, not, Option, none, some, List, [], ◌∷◌, ◌++◌, ◌==◌, if◌then◌else◌, Text,
  codes, text_eq, is_empty,
}
use cfactory.Prelude.Decimal.{str_int}
use cfactory.Prelude.Dicts.{Dict, dict_get}
use cfactory.Prelude.Results.{Result, ok, ◌>>=◌}
use cfactory.Prelude.Strings.{strip, lower}
use cfactory.WorkItem.{Service}
use cfactory.Cards.{CardRow, CardTier, low, medium, hard}
use cfactory.Cards.Keys.{issue_number}
use cfactory.Actions.{
  Value, null, boolean, number, string, other, Body, object, no_object, PreparedAction, Web,
}
use cfactory.Intake.{Stage, plan, code, test, Payload, to_plan, to_code, to_test}
use cfactory.Intake.Stages.{stage_service, service_name}
use cfactory.Intake.Brief.{brief}

abbrev kind_of : Text → Text
kind_of [] = codes "github"
kind_of (c ∷ s) = lower (strip (c ∷ s))

-- `qualify_repo`
unfoldable pub qualify_repo : Text → Option Text → Option Text
unfolding lower strip
qualify_repo provider none = none
qualify_repo provider (some []) = none
qualify_repo provider (some (c ∷ project)) =
    if text_eq (kind_of provider) (codes "github")
    then some (c ∷ project)
    else some (kind_of provider ++ codes ":" ++ c ∷ project)

-- `s.strip("/")`
abbrev lstrip_slash : Text → Text
lstrip_slash [] = []
lstrip_slash (c ∷ s) = let rest = lstrip_slash s in if c == b'/' then rest else c ∷ s

abbrev rstrip_slash : Text → Text
rstrip_slash [] = []
rstrip_slash (c ∷ s) =
    let rest = rstrip_slash s in if is_empty rest && (c == b'/') then [] else c ∷ rest

abbrev clone_host : Text → Text → Option Text
clone_host kind netloc =
    if text_eq kind (codes "github")
    then (if not (is_empty netloc) && not (text_eq netloc (codes "api.github.com"))
        then some netloc
        else some (codes "github.com"))
    else (if is_empty netloc then none else some netloc)

abbrev clone_address : Option Text → Text → Option Text
clone_address none project = none
clone_address (some host) project =
    some
      (codes "https://" ++ host ++ codes "/" ++ rstrip_slash (lstrip_slash project) ++ codes ".git")

-- `clone_url`
unfoldable pub clone_url : Web Payload → Text → Text → Option Text → Result (Option Text)
unfolding lower strip
clone_url web provider base_url none = ok none
clone_url web provider base_url (some []) = ok none
clone_url web provider base_url (some (c ∷ project)) = do
  parts ← web.urlsplit (strip base_url)
  ok (clone_address (clone_host (kind_of provider) parts.1) (c ∷ project))

abbrev pub plan_endpoint : Text
plan_endpoint = codes "/api/plan/sessions/ingest-text"

abbrev pub code_endpoint : Text
code_endpoint = codes "/api/tasks/from-issue"

abbrev pub test_endpoint : Text
test_endpoint = codes "/api/specs/ingest"

-- `f"factory:{card.tier}"`
abbrev pub tier_label : Option CardTier → Text
tier_label none = codes "factory:None"
tier_label (some low) = codes "factory:low"
tier_label (some medium) = codes "factory:medium"
tier_label (some hard) = codes "factory:hard"

-- A key with `None` or an empty text is left out.
abbrev pub given : Option Text → Option Text
given none = none
given (some []) = none
given (some (c ∷ s)) = some (c ∷ s)

abbrev pub action_for : CardRow → Stage → Text → Payload → PreparedAction Payload
action_for card stage endpoint payload = record {
  correlation_key = card.card_key;
  target_service = service_name (stage_service stage);
  step = record { method = codes "POST"; endpoint = endpoint; payload = payload };
  follow_ups = [];
}

-- `prepare_stage`
unfoldable pub prepare_stage :
    CardRow
    → Stage
    → Option Text
    → Option Text
    → Option Text
    → Result (Option (PreparedAction Payload))
unfolding brief issue_number
prepare_stage card plan project_id repo git_url =
    ok (some (action_for card plan plan_endpoint (to_plan card.title (brief card) (given repo))))
prepare_stage card code none repo git_url = ok none
prepare_stage card code (some []) repo git_url = ok none
prepare_stage card code (some (c ∷ project)) repo git_url = do
  n ← issue_number card.issue_ref
  ok (
      some (
        action_for card code code_endpoint
          (to_code (c ∷ project) card.title (brief card) (tier_label card.tier) n (given repo))))
prepare_stage card test none repo git_url = ok none
prepare_stage card test (some []) repo git_url = ok none
prepare_stage card test (some (c ∷ project)) repo git_url = ok (
    some (
      action_for card test test_endpoint
        (to_test (c ∷ project) card.card_key (brief card) (given git_url) (given repo))))

-- `bool(value)` and `str(value)` of what `.get` returns
abbrev pub is_true : Option Value → Bool
is_true none = false
is_true (some null) = false
is_true (some (boolean b)) = b
is_true (some (number n)) = not (n == 0)
is_true (some (string s)) = not (is_empty s)
is_true (some (other b s)) = b

abbrev pub str_of : Value → Text
str_of null = codes "None"
str_of (boolean true) = codes "True"
str_of (boolean false) = codes "False"
str_of (number n) = str_int n
str_of (string s) = s
str_of (other b s) = s

abbrev pub str_or_empty : Option Value → Text
str_or_empty none = []
str_or_empty (some v) = str_of v

unfoldable pub first_true : Dict Value → List Text → Option Text
unfolding dict_get
first_true body [] = none
first_true body (key ∷ keys) =
    let rest = first_true body keys in
    if is_true (dict_get body key) then some (str_or_empty (dict_get body key)) else rest

-- `_upstream_key`
unfoldable pub upstream_key : Option Body → Service → Option Text
unfolding first_true dict_get
upstream_key none service = none
upstream_key (some (no_object s)) service = none
upstream_key (some (object body)) service =
    if text_eq (service_name service) (codes "aifactory")
      && (not (is_true (dict_get body (codes "correlation_key")))
          && is_true (dict_get body (codes "spec_id")))
    then some (codes "af-" ++ str_or_empty (dict_get body (codes "spec_id")))
    else first_true body (
        codes "correlation_key"
        ∷ codes "task_id"
        ∷ codes "session_id"
        ∷ codes "id"
        ∷ codes "spec_id"
        ∷ [])

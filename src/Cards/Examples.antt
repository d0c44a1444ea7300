-- ===== src/Cards/Examples.antt =====
-- The theorems on cards.py at concrete boards.
use cfactory.Prelude.Decimal.{str_int, value_from}
use cfactory.Prelude.Strings.{strip}
use cfactory.Prelude.{◌≡◌, ◌≢◌, refl, true, none, some, [], ◌∷◌, Text, codes}
use cfactory.Prelude.Results.{ok, raise, value_error, duplicate_issue_ref}
use cfactory.Cards.{CardRow, CardCreate, backlog, ready, low}
use cfactory.Cards.Keys.{issue_project, issue_number, key_number, next_key}
use cfactory.Cards.Numbers.{issue_ref_halves}
use cfactory.Cards.Board.{create, get, delete, row_of, in_scope, holds_ref, key_for}
use cfactory.Cards.Fresh.{create_assigned, create_unreadable_key}
use cfactory.Cards.Indexed.{IsIndexed}
use cfactory.Cards.Spec.{delete_card, was_there}
use cfactory.Cards.Refine.{CardStep-refines}
use cfactory.Cards.Calls.{Refined, deleted}
use cfactory.Cards.Lease.{
  Polling, write_claim, OneWinner, PollSteps-OneWinner, still, poll, reads, writes,
}
use cfactory.Cards.Tombstones.{delete_then_create}

abbrev team : Text
team = codes "acme"

abbrev issue : Text
issue = codes "org/app#7"

team_name : team ≢ []
team_name e = cc

scope_name : some team ≢ some []
scope_name e = cc

abbrev body_1 : CardCreate
body_1 = record {
  card_key = none;
  title = codes "Add login";
  description = none;
  acceptance_criteria = [];
  status = backlog;
  priority = 2;
  tier = some low;
  assignee = none;
  milestone = none;
  correlation_key = none;
  issue_ref = some issue;
  repository_id = none;
}

abbrev body_2 : CardCreate
body_2 = record body_1 { issue_ref = none; status = ready }

abbrev row_1 : CardRow
row_1 = row_of team 100 (codes "FCT-4") body_1

abbrev row_2 : CardRow
row_2 = row_of team 100 (codes "FCT-²") body_2

issue_ref_halves_example :
    (issue_project (some (codes "org/app#7")) ≡ some (codes "org/app"))
    × (issue_number (some (codes "org/app#7")) ≡ ok (some 7))
unfolding strip str_int
issue_ref_halves_example = issue_ref_halves (codes "org/app") 7 (λ e. cc) refl

create_assigned_example :
    create (some team) 200 body_2 (row_1 ∷ [])
    ≡ ok (
      row_1 ∷ row_of team 200 (codes "FCT-5") body_2 ∷ [],
      row_of team 200 (codes "FCT-5") body_2,
    )
unfolding next_key in_scope row_of str_int value_from holds_ref
create_assigned_example =
    create_assigned (some team) 200 body_2 (row_1 ∷ []) refl (codes "FCT-5") scope_name refl refl

create_unreadable_key_example : create (some team) 200 body_1 (row_2 ∷ []) ≡ raise value_error
unfolding in_scope row_of key_number
create_unreadable_key_example =
    create_unreadable_key (some team) 200 body_1 (row_2 ∷ []) refl (codes "FCT-²") refl refl

row_1-IsIndexed : IsIndexed (row_1 ∷ [])
unfolding IsIndexed
row_1-IsIndexed = (refl, tt)

CardStep-refines_example :
    Refined team
      (row_1 ∷ [])
      (delete_card 300 (codes "FCT-4"))
      (was_there true)
      (delete (some team) 300 (codes "FCT-4") (row_1 ∷ [])).0
unfolding delete row_of
CardStep-refines_example =
    CardStep-refines team (row_1 ∷ []) (delete (some team) 300 (codes "FCT-4") (row_1 ∷ [])).0
      (delete_card 300 (codes "FCT-4")) (was_there true) team_name row_1-IsIndexed
      (deleted 300 (codes "FCT-4"))

delete_then_create_example :
    create (some team) 400 body_1 (delete (some team) 300 (codes "FCT-4") (row_1 ∷ [])).0
    ≡ raise (duplicate_issue_ref (some issue))
unfolding get row_of key_for delete str_int value_from
delete_then_create_example =
    delete_then_create team 300 400 (codes "FCT-4") row_1 (row_1 ∷ []) body_1 b'o'
      (codes "rg/app#7") (codes "FCT-5") team_name refl refl refl refl

-- Two replicas read a row without a lease, and both write.
abbrev idle : Polling
idle = record { row = some none; readers = []; grants = [] }

abbrev both_read : Polling
both_read = record idle { readers = (7, some none) ∷ (5, some none) ∷ [] }

abbrev first_wrote : Polling
first_wrote = write_claim 60 7 (some none) ((5, some none) ∷ []) both_read

PollSteps-OneWinner_example : OneWinner 60 (write_claim 60 5 (some none) [] first_wrote)
unfolding write_claim
PollSteps-OneWinner_example =
    PollSteps-OneWinner 60 idle (write_claim 60 5 (some none) [] first_wrote) (tt, tt)
      (poll
        (poll (poll (poll still (reads 5)) (reads 7))
          (writes [] ((5, some none) ∷ []) 7 (some none) refl))
        (writes [] [] 5 (some none) refl))

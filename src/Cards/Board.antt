-- ===== src/Cards/Board.antt =====
-- The store of cards: `CardStore` of apps/backend/cfactory/cards.py. The unique indices are checked as
-- the database checks them, and the clock is an argument. The order of a list for the reader is left
-- out; the first of several rows is the oldest, since a row is added at the end.
use cfactory.Prelude.{
  ℕ, Bool, true, false, ◌&&◌, ◌||◌, not, Option, none, some, List, [], ◌∷◌, ◌++◌, map,
  if◌then◌else◌, Text, text_eq, option_eq, truthy, is_some, any, keep_if,
}
use cfactory.Prelude.Results.{Result, ok, raise, duplicate_card_key, duplicate_issue_ref, ◌>>=◌}
use cfactory.WorkItem.Table.{Tenant, write_tenant}
use cfactory.Cards.{CardRow, CardCreate, Changes, no_runs}
use cfactory.Cards.Keys.{next_key}

-- The WHERE clause of `_select`: the tenant, and the rows that are not deleted
unfoldable pub in_scope : Tenant → CardRow → Bool
in_scope none row = true
in_scope (some tenant) row = text_eq row.tenant_id tenant

unfoldable pub selected : Tenant → CardRow → Bool
unfolding in_scope
selected tenant row = in_scope tenant row && not (is_some row.deleted_at)

unfoldable pub first_row : (CardRow → Bool) → List CardRow → Option CardRow
first_row test [] = none
first_row test (r ∷ rows) = let rest = first_row test rows in if test r then some r else rest

-- The test of `_get_row`
unfoldable pub is_card : Tenant → Text → CardRow → Bool
unfolding selected
is_card tenant key row = selected tenant row && text_eq row.card_key key

-- `get`
unfoldable pub get : Tenant → Text → List CardRow → Option CardRow
unfolding first_row is_card
get tenant key rows = first_row (is_card tenant key) rows

-- `get_by_correlation_key`
unfoldable pub get_by_correlation_key : Tenant → Text → List CardRow → Option CardRow
unfolding first_row selected
get_by_correlation_key tenant key rows =
    first_row (λ r. selected tenant r && option_eq r.correlation_key (some key)) rows

-- `get_by_issue_ref`, which sees the deleted rows too
unfoldable pub get_by_issue_ref : Tenant → Text → List CardRow → Option CardRow
unfolding first_row in_scope
get_by_issue_ref tenant ref rows =
    first_row (λ r. in_scope tenant r && option_eq r.issue_ref (some ref)) rows

-- The index on `tenant_id` and `card_key`
unfoldable pub holds_key : Text → Text → CardRow → Bool
holds_key tenant_id key r = text_eq r.tenant_id tenant_id && text_eq r.card_key key

-- The index on `tenant_id` and `issue_ref`, in which a null is like nothing
unfoldable pub holds_ref : Text → Option Text → CardRow → Bool
holds_ref tenant_id none r = false
holds_ref tenant_id (some ref) r = text_eq r.tenant_id tenant_id && option_eq r.issue_ref (some ref)

unfoldable pub insert_row : CardRow → List CardRow → Option (List CardRow)
unfolding holds_key holds_ref
insert_row new rows =
    if any (holds_key new.tenant_id new.card_key) rows
      || any (holds_ref new.tenant_id new.issue_ref) rows
    then none
    else some (rows ++ new ∷ [])

-- `CardRow(**fields, tenant_id=tenant)`
unfoldable pub row_of : Text → ℕ → Text → CardCreate → CardRow
row_of tenant_id now key body = record {
  card_key = key;
  tenant_id = tenant_id;
  title = body.title;
  description = body.description;
  acceptance_criteria = body.acceptance_criteria;
  status = body.status;
  priority = body.priority;
  tier = body.tier;
  assignee = body.assignee;
  milestone = body.milestone;
  correlation_key = body.correlation_key;
  stage_runs = no_runs;
  issue_ref = body.issue_ref;
  repository_id = body.repository_id;
  issue_state = none;
  labels = [];
  github_sync_error = none;
  comments_synced_at = none;
  deleted_at = none;
  created_at = now;
  updated_at = now;
}

-- `fields["card_key"]`, assigned where the caller left it out
unfoldable pub key_for : Tenant → Option Text → List CardRow → Result Text
unfolding in_scope next_key
key_for tenant none rows = next_key (map (λ r. r.card_key) (keep_if (in_scope tenant) rows))
key_for tenant (some []) rows = next_key (map (λ r. r.card_key) (keep_if (in_scope tenant) rows))
key_for tenant (some (c ∷ key)) rows = ok (c ∷ key)

-- Which index refused, asked of the database
unfoldable pub refusal :
    Tenant → Text → Option Text → List CardRow → Result (List CardRow × CardRow)
unfolding get_by_issue_ref
refusal tenant key none rows = raise (duplicate_card_key key)
refusal tenant key (some ref) rows =
    if truthy (some ref) && is_some (get_by_issue_ref tenant ref rows)
    then raise (duplicate_issue_ref (some ref))
    else raise (duplicate_card_key key)

abbrev pub inserted_or :
    Result (List CardRow × CardRow)
    → CardRow
    → Option (List CardRow)
    → Result (List CardRow × CardRow)
inserted_or error new none = error
inserted_or error new (some rows) = ok (rows, new)

-- `create`
unfoldable pub create : Tenant → ℕ → CardCreate → List CardRow → Result (List CardRow × CardRow)
unfolding key_for row_of insert_row refusal
create tenant now body rows = do
  key ← key_for tenant body.card_key rows
  inserted_or (refusal tenant key body.issue_ref rows) (row_of (write_tenant tenant) now key body)
      (insert_row (row_of (write_tenant tenant) now key body) rows)

abbrev pub set_to {ℓ} : {A : Type ℓ} → Option A → A → A
set_to none old = old
set_to (some new) old = new

-- `for field, value in changes.items(): setattr(row, field, value)`, and the clock
unfoldable pub apply_changes : ℕ → Changes → CardRow → CardRow
apply_changes now c row = record row {
  title = set_to c.title row.title;
  description = set_to c.description row.description;
  acceptance_criteria = set_to c.acceptance_criteria row.acceptance_criteria;
  status = set_to c.status row.status;
  priority = set_to c.priority row.priority;
  tier = set_to c.tier row.tier;
  assignee = set_to c.assignee row.assignee;
  milestone = set_to c.milestone row.milestone;
  correlation_key = set_to c.correlation_key row.correlation_key;
  stage_runs = set_to c.stage_runs row.stage_runs;
  issue_ref = set_to c.issue_ref row.issue_ref;
  repository_id = set_to c.repository_id row.repository_id;
  issue_state = set_to c.issue_state row.issue_state;
  labels = set_to c.labels row.labels;
  github_sync_error = set_to c.github_sync_error row.github_sync_error;
  updated_at = now;
}

-- The first row that passes the test, replaced
unfoldable pub replace_first : (CardRow → Bool) → CardRow → List CardRow → List CardRow
replace_first test new [] = []
replace_first test new (r ∷ rows) =
    let rest = replace_first test new rows in if test r then new ∷ rows else r ∷ rest

-- Whether another row holds the reference that an update sets
unfoldable pub ref_conflict : Option (Option Text) → CardRow → List CardRow → Bool
unfolding holds_ref
ref_conflict none old rows = false
ref_conflict (some ref) old rows =
    any (λ r. holds_ref old.tenant_id ref r && not (text_eq r.card_key old.card_key)) rows

unfoldable pub update_found :
    Tenant
    → ℕ
    → Text
    → Changes
    → List CardRow
    → Option CardRow
    → Result (List CardRow × Option CardRow)
unfolding ref_conflict apply_changes replace_first is_card
update_found tenant now key c rows none = ok (rows, none)
update_found tenant now key c rows (some old) =
    if ref_conflict c.issue_ref old rows || c.null_refused
    then raise (duplicate_issue_ref (set_to c.issue_ref none))
    else ok (
      replace_first (is_card tenant key) (apply_changes now c old) rows,
      some (apply_changes now c old),
    )

-- `update`
unfoldable pub update :
    Tenant → ℕ → Text → Changes → List CardRow → Result (List CardRow × Option CardRow)
unfolding get update_found
update tenant now key c rows = update_found tenant now key c rows (get tenant key rows)

unfoldable pub delete_found :
    Tenant → ℕ → Text → List CardRow → Option CardRow → List CardRow × Bool
unfolding replace_first is_card
delete_found tenant now key rows none = (rows, false)
delete_found tenant now key rows (some old) = (
  replace_first (is_card tenant key) (record old { deleted_at = some now; updated_at = now }) rows,
  true,
)

-- `delete`, which leaves a tombstone; the column `updated_at` follows every update
unfoldable pub delete : Tenant → ℕ → Text → List CardRow → List CardRow × Bool
unfolding get delete_found
delete tenant now key rows = delete_found tenant now key rows (get tenant key rows)

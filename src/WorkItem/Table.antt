-- ===== src/WorkItem/Table.antt =====
-- The table of work items and its queries, scoped to a tenant: `scoped`, `_select`, `_get_row`,
-- `get`, `delete` and `_row_has_stage_data` of apps/backend/cfactory/store.py.
use cfactory.Prelude.{
  Bool, true, false, ◌&&◌, ◌||◌, Option, none, some, List, [], ◌∷◌, ◌++◌, if◌then◌else◌, Text,
  text_eq, truthy, any,
}
use cfactory.Prelude.Results.{Result, ok, raise, integrity_error}
use cfactory.WorkItem.{ServiceState, WorkItemRow, default_tenant}

-- `None` is the store that sees every row.
abbrev pub Tenant : Type 0
Tenant = Option Text

-- The WHERE clause of `_select`
unfoldable pub visible : Tenant → WorkItemRow → Bool
visible none row = true
visible (some tenant) row = text_eq row.tenant_id tenant

-- `_select` with the key as well
unfoldable pub selects : Tenant → Text → WorkItemRow → Bool
unfolding visible
selects tenant key row = visible tenant row && text_eq row.correlation_key key

-- `_get_row`
unfoldable pub get_row : Tenant → Text → List WorkItemRow → Option WorkItemRow
unfolding selects
get_row tenant key [] = none
get_row tenant key (r ∷ rows) =
    let rest = get_row tenant key rows in if selects tenant key r then some r else rest

-- The UPDATE of the row that `_get_row` returned
unfoldable pub put_row : Tenant → Text → WorkItemRow → List WorkItemRow → List WorkItemRow
unfolding selects
put_row tenant key new [] = []
put_row tenant key new (r ∷ rows) =
    let rest = put_row tenant key new rows in if selects tenant key r then new ∷ rows else r ∷ rest

-- Whether the unique index on `correlation_key` holds the key, in any tenant
unfoldable pub key_taken : Text → List WorkItemRow → Bool
key_taken key rows = any (λ r. text_eq r.correlation_key key) rows

-- The INSERT
unfoldable pub insert_row : WorkItemRow → List WorkItemRow → Result (List WorkItemRow)
unfolding key_taken
insert_row new rows =
    if key_taken new.correlation_key rows then raise integrity_error else ok (rows ++ new ∷ [])

-- `self._tenant or DEFAULT_TENANT`
abbrev pub write_tenant : Tenant → Text
write_tenant none = default_tenant
write_tenant (some []) = default_tenant
write_tenant (some (c ∷ t)) = c ∷ t

-- `delete`
unfoldable pub delete : Tenant → Text → List WorkItemRow → List WorkItemRow × Bool
unfolding selects
delete tenant key [] = ([], false)
delete tenant key (r ∷ rows) =
    let rest = delete tenant key rows in
    if selects tenant key r then (rows, true) else (r ∷ rest.0, rest.1)

abbrev column_has_data : Option ServiceState → Bool
column_has_data none = false
column_has_data (some state) = truthy state.status || truthy state.task_id

-- `_row_has_stage_data`
unfoldable pub row_has_stage_data : WorkItemRow → Bool
row_has_stage_data row =
    column_has_data row.pfactory || (column_has_data row.aifactory || column_has_data row.tfactory)

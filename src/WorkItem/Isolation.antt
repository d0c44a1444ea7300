-- ===== src/WorkItem/Isolation.antt =====
-- What a store scoped to a tenant can write: the rows of other tenants, under every operation of
-- apps/backend/cfactory/store.py that changes the table.
use cfactory.Prelude.{
  ℕ, ◌≡◌, ◌≢◌, refl, sym, ap, ◌∙◌, inl, inr, Bool, true, not, ◌&&◌, none, some, List, [], ◌∷◌, ◌++◌,
  Text, Bool-cases, keep_if, arith, if◌then◌else◌,
}
use cfactory.Prelude.Dicts.{Dict}
use cfactory.Prelude.Results.{ok}
use cfactory.WorkItem.{Service, CompletionEvent, WorkItemRow, set_column, column, or_blank, blank}
use cfactory.WorkItem.Table.{Tenant, visible, selects, get_row, put_row, delete}
use cfactory.WorkItem.Rows.{get_row-selects, write_tenant-visible}
use cfactory.WorkItem.Ingest.{thread_row, upsert_from_event}
use cfactory.WorkItem.Snapshots.{Snapshot, write_snapshot, leaves_row, poll_row, upsert_snapshot}
use cfactory.WorkItem.Reconcile.{
  is_ghost, reconcile_row, reconcile_snapshot, prune_dead, is_rekeyed, keep_row,
  prune_duplicate_stages,
}
use cfactory.WorkItem.Threading.{key_of_thread_row, key_of_set_column}
use cfactory.WorkItem.Writes.{Write, untouched, changed, inserted, upsert-Write, snapshot-Write}

-- The rows that the tenant's store does not see
unfoldable pub foreign_rows : Tenant → List WorkItemRow → List WorkItemRow
foreign_rows tenant rows = keep_if (λ r. not (visible tenant r)) rows

same_tenant :
    (tenant : Tenant) (a b : WorkItemRow)
    → a.tenant_id ≡ b.tenant_id
    → visible tenant a ≡ visible tenant b
unfolding visible
same_tenant none a b h = refl
same_tenant (some t) a b h = rw h refl

module _ (tenant : Tenant) where
  foreign_rows-seen :
      (r : WorkItemRow) (rows : List WorkItemRow)
      → visible tenant r ≡ true
      → foreign_rows tenant (r ∷ rows) ≡ foreign_rows tenant rows
  unfolding foreign_rows
  foreign_rows-seen r rows h = rw h refl

  foreign_rows-put :
      (key : Text) (new : WorkItemRow) (rows : List WorkItemRow)
      → visible tenant new ≡ true
      → foreign_rows tenant (put_row tenant key new rows) ≡ foreign_rows tenant rows
  unfolding foreign_rows put_row selects
  foreign_rows-put key new [] h = refl
  foreign_rows-put key new (r ∷ rows) h = ground (arith, foreign_rows-put key new rows h)

  foreign_rows-append :
      (new : WorkItemRow) (rows : List WorkItemRow)
      → visible tenant new ≡ true
      → foreign_rows tenant (rows ++ new ∷ []) ≡ foreign_rows tenant rows
  unfolding foreign_rows
  foreign_rows-append new [] h = rw h refl
  foreign_rows-append new (r ∷ rows) h = ground (arith, foreign_rows-append new rows h)

  foreign_rows-delete :
      (key : Text) (rows : List WorkItemRow)
      → foreign_rows tenant (delete tenant key rows).0 ≡ foreign_rows tenant rows
  unfolding foreign_rows delete selects
  foreign_rows-delete key [] = refl
  foreign_rows-delete key (r ∷ rows) = ground (arith, foreign_rows-delete key rows)

  foreign_rows-prune_dead :
      (now limit : ℕ) (rows : List WorkItemRow)
      → foreign_rows tenant (prune_dead tenant now limit rows).0 ≡ foreign_rows tenant rows
  unfolding foreign_rows prune_dead
  foreign_rows-prune_dead now limit [] = refl
  foreign_rows-prune_dead now limit (r ∷ rows) =
      ground (arith, foreign_rows-prune_dead now limit rows)

  pub visible-reconcile_row :
      (now : ℕ) (service : Service) (live : List Text) (r : WorkItemRow)
      → visible tenant (reconcile_row now service live r) ≡ visible tenant r
  unfolding reconcile_row
  visible-reconcile_row now service live r =
      elim (Bool-cases (is_ghost live (or_blank (column service r)))) [
        | inl ghost ↦ rw ghost (
            same_tenant tenant (record (set_column service blank r) { updated_at = now }) r
              (key_of_set_column service blank r).1)
        | inr other ↦ rw other refl
      ]

  foreign_rows-reconcile :
      (now : ℕ) (service : Service) (live : List Text) (rows : List WorkItemRow)
      → foreign_rows tenant (reconcile_snapshot tenant now service live rows).0
        ≡ foreign_rows tenant rows
  unfolding foreign_rows reconcile_snapshot
  foreign_rows-reconcile now service live [] = refl
  foreign_rows-reconcile now service live (r ∷ rows) = ground (
    arith,
    foreign_rows-reconcile now service live rows,
    visible-reconcile_row now service live r,
  )

  cleared : ℕ → Service → WorkItemRow → WorkItemRow
  cleared now service r = record (set_column service blank r) { updated_at = now }

  visible-cleared :
      (now : ℕ) (service : Service) (r : WorkItemRow)
      → visible tenant (cleared now service r) ≡ visible tenant r
  unfolding cleared
  visible-cleared now service r = same_tenant tenant _ r (key_of_set_column service blank r).1

  foreign_rows-keep_row :
      (r : WorkItemRow) (rows : List WorkItemRow)
      → visible tenant r ≡ true
      → foreign_rows tenant (keep_row r rows) ≡ foreign_rows tenant rows
  unfolding foreign_rows
  foreign_rows-keep_row r rows h = ground arith

  foreign_rows-prune_duplicate_stages :
      (now : ℕ) (service : Service) (canon : Dict Text) (rows : List WorkItemRow)
      → foreign_rows tenant (prune_duplicate_stages tenant now service canon rows).0
        ≡ foreign_rows tenant rows
  unfolding prune_duplicate_stages cleared foreign_rows
  foreign_rows-prune_duplicate_stages now service canon [] = refl
  foreign_rows-prune_duplicate_stages now service canon (r ∷ rows) =
      let rest = foreign_rows-prune_duplicate_stages now service canon rows in
      elim (Bool-cases (
        visible tenant r
        && is_rekeyed canon r.correlation_key (or_blank (column service r)).task_id)) [
          | inl twice ↦ rw twice (
              foreign_rows-keep_row (cleared now service r) _
                (visible-cleared now service r ∙ own twice)
              ∙ (rest ∙ sym (foreign_rows-seen r rows (own twice))))
          | inr other ↦ rw other (ap (λ x. if not (visible tenant r) then r ∷ x else x) rest)
        ]
    where
      own :
          (visible tenant r
              && is_rekeyed canon r.correlation_key (or_blank (column service r)).task_id)
            ≡ true
          → visible tenant r ≡ true
      own h = ground arith

  threaded_visible :
      (now : ℕ) (event : CompletionEvent) (r : WorkItemRow)
      → visible tenant (thread_row now event event.worker r) ≡ visible tenant r
  threaded_visible now event r =
      same_tenant tenant _ r (key_of_thread_row now event event.worker r).1

  polled_visible :
      (now : ℕ) (s : Snapshot) (r : WorkItemRow)
      → visible tenant (poll_row now s r) ≡ visible tenant r
  unfolding poll_row write_snapshot
  polled_visible now s r = elim (Bool-cases (leaves_row s r)) [
    | inl left ↦ rw left refl
    | inr written ↦ rw written (same_tenant tenant _ r (key_of_set_column s.service _ r).1)
  ]

  selected_visible :
      (key : Text) (rows : List WorkItemRow) (r : WorkItemRow)
      → get_row tenant key rows ≡ some r
      → visible tenant r ≡ true
  unfolding selects
  selected_visible key rows r h = ground (arith, get_row-selects tenant key rows r h)

  foreign_rows-Write :
      (key : Text) {rows rows' : List WorkItemRow}
      → tenant ≢ some []
      → Write tenant key rows rows'
      → foreign_rows tenant rows' ≡ foreign_rows tenant rows
  foreign_rows-Write key named untouched = refl
  foreign_rows-Write key {rows} named (changed found new present same_key same_owner) =
      foreign_rows-put key new rows
        (same_tenant tenant new found same_owner ∙ selected_visible key rows found present)
  foreign_rows-Write key {rows} named (inserted new same_key owner free) =
      foreign_rows-append new rows (write_tenant-visible tenant new named owner)

  -- What a store of the tenant does to the table, one call at a time
  pub data Change (rows : List WorkItemRow) : List WorkItemRow → Type 0 where
    ingest :
        {rows' : List WorkItemRow} (now : ℕ) (event : CompletionEvent) (row : WorkItemRow)
        (applied : Bool)
        → upsert_from_event tenant now event rows rows ≡ ok (rows', (row, applied))
        → Change rows rows'
    poll :
        {rows' : List WorkItemRow} (now : ℕ) (s : Snapshot) (row : WorkItemRow)
        → upsert_snapshot tenant now s rows rows ≡ ok (rows', row)
        → Change rows rows'
    reconcile :
        (now : ℕ) (service : Service) (live : List Text)
        → Change rows (reconcile_snapshot tenant now service live rows).0
    prune : (now limit : ℕ) → Change rows (prune_dead tenant now limit rows).0
    deduplicate :
        (now : ℕ) (service : Service) (canon : Dict Text)
        → Change rows (prune_duplicate_stages tenant now service canon rows).0
    remove : (key : Text) → Change rows (delete tenant key rows).0

  pub data Changes (rows : List WorkItemRow) : List WorkItemRow → Type 0 where
    start : Changes rows rows
    then_change :
        {mid rows' : List WorkItemRow} → Changes rows mid → Change mid rows' → Changes rows rows'

  foreign_rows-Change :
      {rows rows' : List WorkItemRow}
      → tenant ≢ some []
      → Change rows rows'
      → foreign_rows tenant rows' ≡ foreign_rows tenant rows
  foreign_rows-Change {rows} {rows'} named (ingest now event row applied h) =
      foreign_rows-Write event.correlation_key named
        (upsert-Write tenant now event rows rows' row applied h)
  foreign_rows-Change {rows} {rows'} named (poll now s row h) =
      foreign_rows-Write s.correlation_key named (snapshot-Write tenant now s rows rows' row h)
  foreign_rows-Change {rows} named (reconcile now service live) =
      foreign_rows-reconcile now service live rows
  foreign_rows-Change {rows} named (prune now limit) = foreign_rows-prune_dead now limit rows
  foreign_rows-Change {rows} named (deduplicate now service canon) =
      foreign_rows-prune_duplicate_stages now service canon rows
  foreign_rows-Change {rows} named (remove key) = foreign_rows-delete key rows

  -- A store of one tenant leaves the rows of every other tenant, in their order, exactly as they are,
  -- whatever events, polls, sweeps and deletions it carries out. Its name is not the empty text.
  pub foreign_rows-Changes :
      {rows rows' : List WorkItemRow}
      → tenant ≢ some []
      → Changes rows rows'
      → foreign_rows tenant rows' ≡ foreign_rows tenant rows
  foreign_rows-Changes named start = refl
  foreign_rows-Changes named (then_change before step) =
      foreign_rows-Change named step ∙ foreign_rows-Changes named before

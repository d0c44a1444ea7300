-- ===== src/WorkItem/Writes.antt =====
-- What one call of `upsert_from_event` or `upsert_snapshot` of apps/backend/cfactory/store.py does to
-- the table: nothing, the change of one row, or the insertion of one.
use cfactory.Prelude.{
  ℕ, ◌≡◌, refl, inl, inr, Bool, true, false, none, some, List, [], ◌∷◌, ◌++◌, Text, Bool-cases,
  Option-cases,
}
use cfactory.Prelude.Results.{ok, raise, integrity_error}
use cfactory.WorkItem.{CompletionEvent, WorkItemRow}
use cfactory.WorkItem.Table.{Tenant, get_row, put_row, insert_row, key_taken, write_tenant}
use cfactory.WorkItem.Slices.{already_recorded}
use cfactory.WorkItem.Ingest.{thread_row, new_item, apply_to, upsert_from_event}
use cfactory.WorkItem.Snapshots.{
  Snapshot, PollOutcome, write_snapshot, new_row, leaves_row, poll_row, poll_to, upsert_snapshot,
}
use cfactory.WorkItem.Redelivery.{reply, upsert-serial}
use cfactory.WorkItem.Threading.{key_of_thread_row, key_of_set_column}
use cfactory.WorkItem.Conflicts.{snapshot-serial}

pub data Write (tenant : Tenant) (key : Text) (rows : List WorkItemRow)
    : List WorkItemRow → Type 0 where
  untouched : Write tenant key rows rows
  changed :
      (found new : WorkItemRow)
      → get_row tenant key rows ≡ some found
      → new.correlation_key ≡ found.correlation_key
      → new.tenant_id ≡ found.tenant_id
      → Write tenant key rows (put_row tenant key new rows)
  inserted :
      (new : WorkItemRow)
      → new.correlation_key ≡ key
      → new.tenant_id ≡ write_tenant tenant
      → key_taken key rows ≡ false
      → Write tenant key rows (rows ++ new ∷ [])

module _ (tenant : Tenant) (now : ℕ) (event : CompletionEvent) (rows rows' : List WorkItemRow)
    (row : WorkItemRow) (applied : Bool) where
  abbrev key : Text
  key = event.correlation_key

  insert-Write :
      apply_to tenant now event rows none ≡ ok (rows', (row, applied)) → Write tenant key rows rows'
  unfolding apply_to insert_row new_item
  insert-Write h = elim (Bool-cases (key_taken fresh.correlation_key rows)) [
    | inl taken ↦ absurd (conflict (rw taken at h))
    | inr free ↦ done free (rw free at h)
  ]
    where
      fresh : WorkItemRow
      fresh = thread_row now event event.worker (new_item tenant event now)

      facts : (fresh.correlation_key ≡ key) × (fresh.tenant_id ≡ write_tenant tenant)
      facts = key_of_thread_row now event event.worker (new_item tenant event now)

      conflict : raise integrity_error ≡ reply rows' row applied → ⊥
      conflict e = cc

      done :
          key_taken fresh.correlation_key rows ≡ false
          → reply (rows ++ fresh ∷ []) fresh true ≡ reply rows' row applied
          → Write tenant key rows rows'
      done free e =
          let same_rows : rows ++ fresh ∷ [] ≡ rows' = cc in
          rw (← same_rows) (inserted fresh facts.0 facts.1 (rw facts.0 at free))

  update-Write :
      (found : WorkItemRow)
      → get_row tenant key rows ≡ some found
      → apply_to tenant now event rows (some found) ≡ ok (rows', (row, applied))
      → Write tenant key rows rows'
  unfolding apply_to
  update-Write found present h = elim (Bool-cases (already_recorded found.timeline event)) [
    | inl seen ↦ kept (rw seen at h)
    | inr first ↦ done (rw first at h)
  ]
    where
      next : WorkItemRow
      next = thread_row now event event.worker found

      facts : (next.correlation_key ≡ found.correlation_key) × (next.tenant_id ≡ found.tenant_id)
      facts = key_of_thread_row now event event.worker found

      kept : reply rows found false ≡ reply rows' row applied → Write tenant key rows rows'
      kept e = let same_rows : rows ≡ rows' = cc in rw (← same_rows) untouched

      done :
          reply (put_row tenant key next rows) next true ≡ reply rows' row applied
          → Write tenant key rows rows'
      done e =
          let same_rows : put_row tenant key next rows ≡ rows' = cc in
          rw (← same_rows) (changed found next present facts.0 facts.1)

  pub upsert-Write :
      upsert_from_event tenant now event rows rows ≡ ok (rows', (row, applied))
      → Write tenant key rows rows'
  upsert-Write h = elim (Option-cases (get_row tenant key rows)) [
    | inl absent ↦ insert-Write (rw absent at (rw (upsert-serial tenant now event rows) at h))
    | inr (found, present) ↦
        update-Write found present (rw present at (rw (upsert-serial tenant now event rows) at h))
  ]

module _ (tenant : Tenant) (now : ℕ) (s : Snapshot) (rows rows' : List WorkItemRow)
    (row : WorkItemRow) where
  abbrev polled : List WorkItemRow → WorkItemRow → PollOutcome
  polled table r = ok (table, r)

  poll_row_facts :
      (r : WorkItemRow)
      → ((poll_row now s r).correlation_key ≡ r.correlation_key)
        × ((poll_row now s r).tenant_id ≡ r.tenant_id)
  unfolding poll_row write_snapshot
  poll_row_facts r = elim (Bool-cases (leaves_row s r)) [
    | inl left ↦ rw left (refl, refl)
    | inr written ↦ rw written (key_of_set_column s.service _ r)
  ]

  poll_insert-Write :
      poll_to tenant now s rows none ≡ ok (rows', row) → Write tenant s.correlation_key rows rows'
  unfolding poll_to insert_row new_row write_snapshot
  poll_insert-Write h = elim (Bool-cases (key_taken fresh.correlation_key rows)) [
    | inl taken ↦ absurd (conflict (rw taken at h))
    | inr free ↦ done free (rw free at h)
  ]
    where
      fresh : WorkItemRow
      fresh = write_snapshot now s.service s.state s.title (new_row tenant s.correlation_key now)

      facts : (fresh.correlation_key ≡ s.correlation_key) × (fresh.tenant_id ≡ write_tenant tenant)
      facts = key_of_set_column s.service s.state (new_row tenant s.correlation_key now)

      conflict : raise integrity_error ≡ polled rows' row → ⊥
      conflict e = cc

      done :
          key_taken fresh.correlation_key rows ≡ false
          → polled (rows ++ fresh ∷ []) fresh ≡ polled rows' row
          → Write tenant s.correlation_key rows rows'
      done free e =
          let same_rows : rows ++ fresh ∷ [] ≡ rows' = cc in
          rw (← same_rows) (inserted fresh facts.0 facts.1 (rw facts.0 at free))

  pub snapshot-Write :
      upsert_snapshot tenant now s rows rows ≡ ok (rows', row)
      → Write tenant s.correlation_key rows rows'
  unfolding poll_to
  snapshot-Write h = elim (Option-cases (get_row tenant s.correlation_key rows)) [
    | inl absent ↦ poll_insert-Write (rw absent at (rw (snapshot-serial tenant now s rows) at h))
    | inr (found, present) ↦
        done found present (rw present at (rw (snapshot-serial tenant now s rows) at h))
  ]
    where
      done :
          (found : WorkItemRow)
          → get_row tenant s.correlation_key rows ≡ some found
          → polled
              (put_row tenant s.correlation_key (poll_row now s found) rows)
              (poll_row now s found)
            ≡ polled rows' row
          → Write tenant s.correlation_key rows rows'
      done found present e =
          let same_rows : put_row tenant s.correlation_key (poll_row now s found) rows ≡ rows' =
            cc in
          rw (← same_rows) (
            changed found (poll_row now s found) present (poll_row_facts found).0
              (poll_row_facts found).1)

-- ===== src/WorkItem/Redelivery.antt =====
-- Delivering an event again: `upsert_from_event` of apps/backend/cfactory/store.py on the table that
-- an earlier delivery left.
use cfactory.Prelude.{
  ℕ, any, sym, ◌∙◌, Option, ◌≡◌, ◌≢◌, refl, inl, inr, Bool, true, false, ◌||◌, none, some, List, [],
  ◌∷◌, ◌++◌, text_eq_refl, truthy, Bool-cases, Option-cases,
}
use cfactory.Prelude.Results.{
  ok, raise, type_error, value_error, integrity_error, http, duplicate_card_key,
  duplicate_issue_ref, resource_not_found, http_error,
}
use cfactory.WorkItem.Usage.{Worker}
use cfactory.WorkItem.Slices.{
  is_worker_event, is_worker_progress_event, already_recorded, same_worker,
}
use cfactory.WorkItem.{Service, CompletionEvent, WorkItemRow}
use cfactory.WorkItem.Table.{Tenant, selects, get_row, put_row, insert_row, key_taken}
use cfactory.WorkItem.Rows.{get_row-selects, get-put, get-append, write_tenant-visible}
use cfactory.WorkItem.Ingest.{
  Outcome, thread_row, new_item, apply_to, attempt, upsert_from_event, retry_on_conflict,
}
use cfactory.WorkItem.Threading.{
  selects-thread_row, timeline_of_thread_row, already_recorded-append,
}

-- A worker's event without an id is looked for by its worker.
recorded_worker :
    (e : CompletionEvent)
    → is_worker_progress_event e ≡ false
    → truthy e.id ≡ false
    → is_worker_event e ≡ true
    → (timeline : List CompletionEvent)
    → already_recorded timeline e ≡ any (same_worker e.service e.worker) timeline
unfolding already_recorded
recorded_worker e beat unnamed reports timeline = rw beat (rw unnamed (rw reports refl))

same_workers :
    (s t : Service) (a b : Option Worker) (timeline : List CompletionEvent) (v w : Worker)
    → s ≡ t
    → a ≡ some v
    → b ≡ some w
    → v.worker_id ≡ w.worker_id
    → any (same_worker s a) timeline ≡ any (same_worker t b) timeline
unfolding same_worker
same_workers s t a b timeline v w service q q' worker = rw service (rw q (rw q' (rw worker refl)))

retry_same : (x : Outcome) → retry_on_conflict x x ≡ x
retry_same (ok y) = refl
retry_same (raise type_error) = refl
retry_same (raise value_error) = refl
retry_same (raise integrity_error) = refl
retry_same (raise (http n)) = refl
retry_same (raise (duplicate_card_key k)) = refl
retry_same (raise (duplicate_issue_ref r)) = refl
retry_same (raise resource_not_found) = refl
retry_same (raise http_error) = refl

-- On the table that is there, the second attempt is the first.
pub upsert-serial :
    (tenant : Tenant) (now : ℕ) (event : CompletionEvent) (rows : List WorkItemRow)
    → upsert_from_event tenant now event rows rows
      ≡ apply_to tenant now event rows (get_row tenant event.correlation_key rows)
unfolding upsert_from_event attempt
upsert-serial tenant now event rows = retry_same (attempt tenant now event rows rows)

abbrev pub reply : List WorkItemRow → WorkItemRow → Bool → Outcome
reply rows row applied = ok (rows, (row, applied))

-- What an event that was taken leaves: its row, under its key, with the event on the timeline.
record Recorded (tenant : Tenant) (event : CompletionEvent) (rows : List WorkItemRow)
    (row : WorkItemRow) : Type 0 where
  stored : get_row tenant event.correlation_key rows ≡ some row
  recorded : already_recorded row.timeline event ≡ true

module _ (tenant : Tenant) (now : ℕ) (event : CompletionEvent) (named : tenant ≢ some [])
    (discrete : is_worker_progress_event event ≡ false)
    (known : (truthy event.id || is_worker_event event) ≡ true) where
  threaded-recorded :
      (row : WorkItemRow)
      → already_recorded (thread_row now event event.worker row).timeline event ≡ true
  threaded-recorded row =
      rw (timeline_of_thread_row now event event.worker row discrete)
        (already_recorded-append row.timeline event discrete known)

  new_item-selects :
      selects tenant event.correlation_key
        (thread_row now event event.worker (new_item tenant event now))
      ≡ true
  unfolding selects new_item
  new_item-selects =
      rw
        (selects-thread_row tenant event.correlation_key now event event.worker
          (new_item tenant event now))
        (rw (write_tenant-visible tenant (new_item tenant event now) named refl)
          (text_eq_refl event.correlation_key))

  created :
      (rows rows' : List WorkItemRow) (row : WorkItemRow) (applied : Bool)
      → get_row tenant event.correlation_key rows ≡ none
      → apply_to tenant now event rows none ≡ reply rows' row applied
      → Recorded tenant event rows' row
  unfolding apply_to insert_row
  created rows rows' row applied absent h =
      elim (Bool-cases (
        key_taken (thread_row now event event.worker (new_item tenant event now)).correlation_key
          rows)) [
            | inl taken ↦ absurd (conflict (rw taken at h))
            | inr free ↦ inserted (rw free at h)
          ]
    where
      fresh : WorkItemRow
      fresh = thread_row now event event.worker (new_item tenant event now)

      conflict : raise integrity_error ≡ reply rows' row applied → ⊥
      conflict e = cc

      inserted :
          reply (rows ++ fresh ∷ []) fresh true ≡ reply rows' row applied
          → Recorded tenant event rows' row
      inserted e =
          let same_row : fresh ≡ row = cc in
          let same_rows : rows ++ fresh ∷ [] ≡ rows' = cc in
          rw (← same_rows) (
            rw (← same_row) (record {
              stored =
                  rw (get-append tenant event.correlation_key rows fresh absent)
                    (rw new_item-selects refl);
              recorded = threaded-recorded (new_item tenant event now);
            }))

  updated :
      (rows rows' : List WorkItemRow) (found row : WorkItemRow) (applied : Bool)
      → get_row tenant event.correlation_key rows ≡ some found
      → apply_to tenant now event rows (some found) ≡ reply rows' row applied
      → Recorded tenant event rows' row
  unfolding apply_to
  updated rows rows' found row applied present h =
      elim (Bool-cases (already_recorded found.timeline event)) [
        | inl seen ↦ kept seen (rw seen at h)
        | inr first ↦ changed (rw first at h)
      ]
    where
      next : WorkItemRow
      next = thread_row now event event.worker found

      kept :
          already_recorded found.timeline event ≡ true
          → reply rows found false ≡ reply rows' row applied
          → Recorded tenant event rows' row
      kept seen e =
          let same_row : found ≡ row = cc in
          let same_rows : rows ≡ rows' = cc in
          rw (← same_rows) (rw (← same_row) (record { stored = present; recorded = seen }))

      changed :
          reply (put_row tenant event.correlation_key next rows) next true ≡ reply rows' row applied
          → Recorded tenant event rows' row
      changed e =
          let same_row : next ≡ row = cc in
          let same_rows : put_row tenant event.correlation_key next rows ≡ rows' = cc in
          rw (← same_rows) (
            rw (← same_row) (record {
              stored = get-put tenant event.correlation_key rows found next present (
                  rw (selects-thread_row tenant event.correlation_key now event event.worker found)
                    (get_row-selects tenant event.correlation_key rows found present));
              recorded = threaded-recorded found;
            }))

  upsert-Recorded :
      (rows rows' : List WorkItemRow) (row : WorkItemRow) (applied : Bool)
      → upsert_from_event tenant now event rows rows ≡ reply rows' row applied
      → Recorded tenant event rows' row
  upsert-Recorded rows rows' row applied h =
      elim (Option-cases (get_row tenant event.correlation_key rows)) [
        | inl absent ↦
            created rows rows' row applied absent
              (rw absent at (rw (upsert-serial tenant now event rows) at h))
        | inr (found, present) ↦
            updated rows rows' found row applied present
              (rw present at (rw (upsert-serial tenant now event rows) at h))
      ]

  -- A delivery that is repeated changes nothing: once an event that is no heartbeat and that carries an
  -- id or reports a worker was taken, delivering it again at any later time returns the same table and
  -- the same row and says that the event was not applied. The tenant's name is not the empty text.
  pub upsert_again :
      (later : ℕ) (rows rows' : List WorkItemRow) (row : WorkItemRow) (applied : Bool)
      → upsert_from_event tenant now event rows rows ≡ ok (rows', (row, applied))
      → upsert_from_event tenant later event rows' rows' ≡ ok (rows', (row, false))
  unfolding apply_to
  upsert_again later rows rows' row applied h =
      let first = upsert-Recorded rows rows' row applied h in
      rw (upsert-serial tenant later event rows') (rw first.stored (rw first.recorded refl))

  -- A worker is recorded once: after a worker's event without an id was taken, a later event without an
  -- id about the same worker, on the same key and from the same service, is not applied, whatever
  -- tokens and costs it brings. The table and the slice stay as the first event left them.
  pub worker_again :
      (again : CompletionEvent) (w v : Worker) (later : ℕ) (rows rows' : List WorkItemRow)
      (row : WorkItemRow) (applied : Bool)
      → (truthy event.id ≡ false) × (is_worker_event event ≡ true) × (event.worker ≡ some w)
      → (truthy again.id ≡ false) × (is_worker_event again ≡ true) × (again.worker ≡ some v)
      → is_worker_progress_event again ≡ false
      → (again.correlation_key ≡ event.correlation_key)
        × (again.service ≡ event.service)
        × (v.worker_id ≡ w.worker_id)
      → upsert_from_event tenant now event rows rows ≡ ok (rows', (row, applied))
      → upsert_from_event tenant later again rows' rows' ≡ ok (rows', (row, false))
  unfolding apply_to
  worker_again again w v later rows rows' row applied (i, k, q) (i', k', q') beat
        (key, service, worker) h =
      let first = upsert-Recorded rows rows' row applied h in
      rw (upsert-serial tenant later again rows') (
        rw key (
          rw first.stored (
            rw
              (recorded_worker again beat i' k' row.timeline
                ∙ (same_workers again.service event.service again.worker event.worker row.timeline v
                      w service q' q worker
                    ∙ (sym (recorded_worker event discrete i k row.timeline) ∙ first.recorded)))
              refl)))

-- ===== src/WorkItem/Conflicts.antt =====
-- Two writers of one key, and a key of another tenant: the retry of `upsert_from_event` and
-- `upsert_snapshot` in apps/backend/cfactory/store.py.
use cfactory.Prelude.{ℕ, ◌≡◌, refl, sym, inl, inr, true, none, List, Option-cases}
use cfactory.Prelude.Results.{
  ok, raise, integrity_error, type_error, value_error, http, duplicate_card_key,
  duplicate_issue_ref, resource_not_found, http_error,
}
use cfactory.WorkItem.{CompletionEvent, WorkItemRow}
use cfactory.WorkItem.Table.{Tenant, get_row, insert_row, key_taken}
use cfactory.WorkItem.Rows.{key_taken-get_row}
use cfactory.WorkItem.Ingest.{new_item, apply_to, attempt, upsert_from_event}
use cfactory.WorkItem.Snapshots.{
  Snapshot, PollOutcome, write_snapshot, new_row, poll_to, poll_attempt, upsert_snapshot,
  retry_poll,
}
use cfactory.WorkItem.Redelivery.{upsert-serial}
use cfactory.WorkItem.Threading.{key_of_thread_row, key_of_set_column}

module _ (tenant : Tenant) (now : ℕ) (event : CompletionEvent) where
  apply_to_taken :
      (actual : List WorkItemRow)
      → key_taken event.correlation_key actual ≡ true
      → apply_to tenant now event actual none ≡ raise integrity_error
  unfolding apply_to insert_row new_item
  apply_to_taken actual taken =
      rw (key_of_thread_row now event event.worker (new_item tenant event now)).0 (rw taken refl)

  -- The race of two inserts is settled by the retry: a caller that saw no row of its key gets, on the
  -- table as it is when it writes, the outcome of a call that was made on that table alone.
  pub upsert-late :
      (seen actual : List WorkItemRow)
      → get_row tenant event.correlation_key seen ≡ none
      → upsert_from_event tenant now event seen actual
        ≡ upsert_from_event tenant now event actual actual
  unfolding upsert_from_event attempt apply_to
  upsert-late seen actual absent =
      elim (Option-cases (get_row tenant event.correlation_key actual)) [
        | inl fresh ↦ rw absent (rw fresh refl)
        | inr (found, present) ↦ rw absent (
            rw
              (apply_to_taken actual
                (key_taken-get_row tenant event.correlation_key actual found present))
              (sym (upsert-serial tenant now event actual)))
      ]

module _ (tenant : Tenant) (now : ℕ) (s : Snapshot) where
  retry_poll_same : (x : PollOutcome) → retry_poll x x ≡ x
  retry_poll_same (ok y) = refl
  retry_poll_same (raise type_error) = refl
  retry_poll_same (raise value_error) = refl
  retry_poll_same (raise integrity_error) = refl
  retry_poll_same (raise (http n)) = refl
  retry_poll_same (raise (duplicate_card_key k)) = refl
  retry_poll_same (raise (duplicate_issue_ref r)) = refl
  retry_poll_same (raise resource_not_found) = refl
  retry_poll_same (raise http_error) = refl

  pub snapshot-serial :
      (rows : List WorkItemRow)
      → upsert_snapshot tenant now s rows rows
        ≡ poll_to tenant now s rows (get_row tenant s.correlation_key rows)
  unfolding upsert_snapshot poll_attempt
  snapshot-serial rows = retry_poll_same (poll_attempt tenant now s rows rows)

  poll_to_taken :
      (actual : List WorkItemRow)
      → key_taken s.correlation_key actual ≡ true
      → poll_to tenant now s actual none ≡ raise integrity_error
  unfolding poll_to insert_row new_row write_snapshot
  poll_to_taken actual taken =
      rw (key_of_set_column s.service s.state (new_row tenant s.correlation_key now)).0
        (rw taken refl)

  -- The same of a poll: one that saw no row of its key has the outcome of a poll that was made on the
  -- table as it is when it writes.
  pub snapshot-late :
      (seen actual : List WorkItemRow)
      → get_row tenant s.correlation_key seen ≡ none
      → upsert_snapshot tenant now s seen actual ≡ upsert_snapshot tenant now s actual actual
  unfolding upsert_snapshot poll_attempt poll_to
  snapshot-late seen actual absent = elim (Option-cases (get_row tenant s.correlation_key actual)) [
    | inl fresh ↦ rw absent (rw fresh refl)
    | inr (found, present) ↦ rw absent (
        rw (poll_to_taken actual (key_taken-get_row tenant s.correlation_key actual found present))
          (sym (snapshot-serial actual)))
  ]

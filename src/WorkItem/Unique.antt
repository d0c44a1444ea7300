-- ===== src/WorkItem/Unique.antt =====
-- One row for a correlation key, in every tenant together: what the operations of
-- apps/backend/cfactory/store.py keep of the unique index.
use cfactory.Prelude.{
  ℕ, ◌≡◌, refl, sym, ◌∙◌, inl, inr, true, false, ◌&&◌, ◌||◌, List, [], ◌∷◌, ◌++◌, Text, Bool-cases,
  text_eq, text_eq_iff, arith,
}
use cfactory.Prelude.Dicts.{Dict}
use cfactory.WorkItem.{Service, WorkItemRow, column, or_blank, blank}
use cfactory.WorkItem.Table.{
  Tenant, visible, selects, put_row, key_taken, delete, row_has_stage_data,
}
use cfactory.WorkItem.Rows.{get_row-selects}
use cfactory.WorkItem.Reconcile.{
  is_ghost, reconcile_row, reconcile_snapshot, is_expired, prune_dead, is_rekeyed, keep_row,
  prune_duplicate_stages,
}
use cfactory.WorkItem.Threading.{key_of_set_column}
use cfactory.WorkItem.Writes.{Write, untouched, changed, inserted, upsert-Write, snapshot-Write}
use cfactory.WorkItem.Isolation.{
  Change, ingest, poll, reconcile, prune, deduplicate, remove, Changes, start, then_change,
}

unfoldable pub IsKeyed : List WorkItemRow → Type 0
IsKeyed [] = Unit
IsKeyed (r ∷ rows) = (key_taken r.correlation_key rows ≡ false) × IsKeyed rows

-- The keys of one table are among those of another.
abbrev Within : List WorkItemRow → List WorkItemRow → Type 0
Within small large = (k : Text) → key_taken k large ≡ false → key_taken k small ≡ false

module _ (tenant : Tenant) where
  taken-put :
      (key : Text) (new : WorkItemRow) (rows : List WorkItemRow) (k : Text)
      → new.correlation_key ≡ key
      → key_taken k (put_row tenant key new rows) ≡ key_taken k rows
  unfolding key_taken put_row selects
  taken-put key new [] k h = refl
  taken-put key new (r ∷ rows) k h =
      ground (arith, taken-put key new rows k h, text_eq_iff r.correlation_key key)

  selects_key :
      (key : Text) (r : WorkItemRow) → selects tenant key r ≡ true → r.correlation_key ≡ key
  unfolding selects
  selects_key key r h = ground (arith, text_eq_iff r.correlation_key key)

  IsKeyed-put :
      (key : Text) (new : WorkItemRow) (rows : List WorkItemRow)
      → new.correlation_key ≡ key
      → IsKeyed rows
      → IsKeyed (put_row tenant key new rows)
  unfolding IsKeyed put_row
  IsKeyed-put key new [] h k = tt
  IsKeyed-put key new (r ∷ rows) h k = elim (Bool-cases (selects tenant key r)) [
    | inl own ↦ rw own (unfold IsKeyed in (rw (h ∙ sym (selects_key key r own)) k.0, k.1))
    | inr other ↦ rw other (
        unfold IsKeyed in
        (taken-put key new rows r.correlation_key h ∙ k.0, IsKeyed-put key new rows h k.1))
  ]

  taken-append :
      (k : Text) (rows : List WorkItemRow) (new : WorkItemRow)
      → key_taken k (rows ++ new ∷ []) ≡ (key_taken k rows || text_eq new.correlation_key k)
  unfolding key_taken
  taken-append k [] new = ground arith
  taken-append k (r ∷ rows) new = ground (arith, taken-append k rows new)

  IsKeyed-append :
      (rows : List WorkItemRow) (new : WorkItemRow)
      → key_taken new.correlation_key rows ≡ false
      → IsKeyed rows
      → IsKeyed (rows ++ new ∷ [])
  unfolding IsKeyed key_taken
  IsKeyed-append [] new free k = (refl, tt)
  IsKeyed-append (r ∷ rows) new free k = (
    taken-append r.correlation_key rows new
        ∙ ground (
          arith,
          text_eq_iff r.correlation_key new.correlation_key,
          text_eq_iff new.correlation_key r.correlation_key,
          k.0,
        ),
    IsKeyed-append rows new (ground arith) k.1,
  )

  delete-Within : (key : Text) (rows : List WorkItemRow) → Within (delete tenant key rows).0 rows
  unfolding key_taken delete
  delete-Within key [] k h = refl
  delete-Within key (r ∷ rows) k h = ground (arith, delete-Within key rows k)

  IsKeyed-delete :
      (key : Text) (rows : List WorkItemRow) → IsKeyed rows → IsKeyed (delete tenant key rows).0
  unfolding IsKeyed delete
  IsKeyed-delete key [] k = tt
  IsKeyed-delete key (r ∷ rows) k = elim (Bool-cases (selects tenant key r)) [
    | inl own ↦ rw own k.1
    | inr other ↦ rw other (
        unfold IsKeyed in
        (delete-Within key rows r.correlation_key k.0, IsKeyed-delete key rows k.1))
  ]

  prune_dead-Within :
      (now limit : ℕ) (rows : List WorkItemRow) → Within (prune_dead tenant now limit rows).0 rows
  unfolding key_taken prune_dead
  prune_dead-Within now limit [] k h = refl
  prune_dead-Within now limit (r ∷ rows) k h = ground (arith, prune_dead-Within now limit rows k)

  IsKeyed-prune_dead :
      (now limit : ℕ) (rows : List WorkItemRow)
      → IsKeyed rows
      → IsKeyed (prune_dead tenant now limit rows).0
  unfolding IsKeyed prune_dead
  IsKeyed-prune_dead now limit [] k = tt
  IsKeyed-prune_dead now limit (r ∷ rows) k =
      elim (Bool-cases (visible tenant r && is_expired now limit r)) [
        | inl expired ↦ rw expired (IsKeyed-prune_dead now limit rows k.1)
        | inr kept ↦ rw kept (
            unfold IsKeyed in
            (
              prune_dead-Within now limit rows r.correlation_key k.0,
              IsKeyed-prune_dead now limit rows k.1,
            ))
      ]

  reconcile_row_key :
      (now : ℕ) (service : Service) (live : List Text) (r : WorkItemRow)
      → (reconcile_row now service live r).correlation_key ≡ r.correlation_key
  unfolding reconcile_row
  reconcile_row_key now service live r =
      elim (Bool-cases (is_ghost live (or_blank (column service r)))) [
        | inl ghost ↦ rw ghost (key_of_set_column service blank r).0
        | inr other ↦ rw other refl
      ]

  taken-reconcile :
      (now : ℕ) (service : Service) (live : List Text) (rows : List WorkItemRow) (k : Text)
      → key_taken k (reconcile_snapshot tenant now service live rows).0 ≡ key_taken k rows
  unfolding key_taken reconcile_snapshot
  taken-reconcile now service live [] k = refl
  taken-reconcile now service live (r ∷ rows) k =
      ground (arith, taken-reconcile now service live rows k, reconcile_row_key now service live r)

  IsKeyed-reconcile :
      (now : ℕ) (service : Service) (live : List Text) (rows : List WorkItemRow)
      → IsKeyed rows
      → IsKeyed (reconcile_snapshot tenant now service live rows).0
  unfolding IsKeyed reconcile_snapshot
  IsKeyed-reconcile now service live [] k = tt
  IsKeyed-reconcile now service live (r ∷ rows) k = elim (Bool-cases (visible tenant r)) [
    | inl own ↦ rw own (
        unfold IsKeyed in
        (
          rw (reconcile_row_key now service live r)
              (taken-reconcile now service live rows r.correlation_key ∙ k.0),
          IsKeyed-reconcile now service live rows k.1,
        ))
    | inr other ↦ rw other (
        unfold IsKeyed in
        (
          taken-reconcile now service live rows r.correlation_key ∙ k.0,
          IsKeyed-reconcile now service live rows k.1,
        ))
  ]

  Within-keep_row :
      (r s : WorkItemRow) (small large : List WorkItemRow)
      → r.correlation_key ≡ s.correlation_key
      → Within small large
      → Within (keep_row r small) (s ∷ large)
  unfolding key_taken
  Within-keep_row r s small large same w k h = ground (arith, w k)

  IsKeyed-keep_row :
      (r : WorkItemRow) (rows : List WorkItemRow)
      → key_taken r.correlation_key rows ≡ false
      → IsKeyed rows
      → IsKeyed (keep_row r rows)
  unfolding IsKeyed
  IsKeyed-keep_row r rows free k = elim (Bool-cases (row_has_stage_data r)) [
    | inl data_left ↦ rw data_left (unfold IsKeyed in (free, k))
    | inr emptied ↦ rw emptied k
  ]

  duplicates-Within :
      (now : ℕ) (service : Service) (canon : Dict Text) (rows : List WorkItemRow)
      → Within (prune_duplicate_stages tenant now service canon rows).0 rows
  unfolding key_taken prune_duplicate_stages
  duplicates-Within now service canon [] k h = refl
  duplicates-Within now service canon (r ∷ rows) k h =
      elim (Bool-cases (
        visible tenant r
        && is_rekeyed canon r.correlation_key (or_blank (column service r)).task_id)) [
          | inl twice ↦ rw twice (
              Within-keep_row _ r _ rows (key_of_set_column service blank r).0
                (duplicates-Within now service canon rows) k h)
          | inr other ↦ rw other (ground (arith, duplicates-Within now service canon rows k))
        ]

  IsKeyed-prune_duplicate_stages :
      (now : ℕ) (service : Service) (canon : Dict Text) (rows : List WorkItemRow)
      → IsKeyed rows
      → IsKeyed (prune_duplicate_stages tenant now service canon rows).0
  unfolding IsKeyed prune_duplicate_stages
  IsKeyed-prune_duplicate_stages now service canon [] k = tt
  IsKeyed-prune_duplicate_stages now service canon (r ∷ rows) k =
      let rest = IsKeyed-prune_duplicate_stages now service canon rows k.1 in
      elim (Bool-cases (
        visible tenant r
        && is_rekeyed canon r.correlation_key (or_blank (column service r)).task_id)) [
          | inl twice ↦
              rw twice
                (IsKeyed-keep_row _ _ (rw (key_of_set_column service blank r).0 (free k)) rest)
          | inr other ↦ rw other (unfold IsKeyed in (free k, rest))
        ]
    where
      free :
          IsKeyed (r ∷ rows)
          → key_taken r.correlation_key (prune_duplicate_stages tenant now service canon rows).0
            ≡ false
      free h = duplicates-Within now service canon rows r.correlation_key h.0

  IsKeyed-Write :
      (key : Text) {rows rows' : List WorkItemRow}
      → IsKeyed rows
      → Write tenant key rows rows'
      → IsKeyed rows'
  IsKeyed-Write key k untouched = k
  IsKeyed-Write key {rows} k (changed found new present same_key same_owner) =
      IsKeyed-put key new rows
        (same_key ∙ selects_key key found (get_row-selects tenant key rows found present)) k
  IsKeyed-Write key {rows} k (inserted new same_key owner free) =
      IsKeyed-append rows new (rw same_key free) k

  IsKeyed-Change :
      {rows rows' : List WorkItemRow} → IsKeyed rows → Change tenant rows rows' → IsKeyed rows'
  IsKeyed-Change {rows} {rows'} k (ingest now event row applied h) =
      IsKeyed-Write event.correlation_key k (upsert-Write tenant now event rows rows' row applied h)
  IsKeyed-Change {rows} {rows'} k (poll now s row h) =
      IsKeyed-Write s.correlation_key k (snapshot-Write tenant now s rows rows' row h)
  IsKeyed-Change {rows} k (reconcile now service live) = IsKeyed-reconcile now service live rows k
  IsKeyed-Change {rows} k (prune now limit) = IsKeyed-prune_dead now limit rows k
  IsKeyed-Change {rows} k (deduplicate now service canon) =
      IsKeyed-prune_duplicate_stages now service canon rows k
  IsKeyed-Change {rows} k (remove key) = IsKeyed-delete key rows k

  -- In a table where no two rows share a correlation key, no sequence of events, polls, sweeps and
  -- deletions of a store brings a second row of one key.
  pub IsKeyed-Changes :
      {rows rows' : List WorkItemRow} → IsKeyed rows → Changes tenant rows rows' → IsKeyed rows'
  IsKeyed-Changes k start = k
  IsKeyed-Changes k (then_change before step) = IsKeyed-Change (IsKeyed-Changes k before) step

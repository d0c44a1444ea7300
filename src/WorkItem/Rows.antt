-- ===== src/WorkItem/Rows.antt =====
-- Laws of the work item table of store.py: look-up after an update or an insert.
use cfactory.Prelude.{
  ◌≡◌, ◌≢◌, refl, sym, ap, inl, inr, Bool, true, false, Option, none, some, List, [], ◌∷◌, ◌++◌,
  arith, if◌then◌else◌, Text, text_eq_iff, Bool-cases,
}
use cfactory.WorkItem.{WorkItemRow}
use cfactory.WorkItem.Table.{Tenant, visible, selects, get_row, put_row, key_taken, write_tenant}

module _ (tenant : Tenant) (key : Text) where
  pub get_row-selects :
      (rows : List WorkItemRow) (r : WorkItemRow)
      → get_row tenant key rows ≡ some r
      → selects tenant key r ≡ true
  unfolding get_row
  get_row-selects [] r h = cc
  get_row-selects (x ∷ rows) r h = elim (Bool-cases (selects tenant key x)) [
    | inl own ↦ selected own (rw own at h)
    | inr other ↦ get_row-selects rows r (rw other at h)
  ]
    where
      selected : selects tenant key x ≡ true → some x ≡ some r → selects tenant key r ≡ true
      selected own e = rw (← own) (ap (λ o. picked o) (sym e))
        where
          picked : Option WorkItemRow → Bool
          picked none = false
          picked (some y) = selects tenant key y

  pub get-put :
      (rows : List WorkItemRow) (found new : WorkItemRow)
      → get_row tenant key rows ≡ some found
      → selects tenant key new ≡ true
      → get_row tenant key (put_row tenant key new rows) ≡ some new
  unfolding get_row put_row
  get-put [] found new h s = cc
  get-put (x ∷ rows) found new h s = elim (Bool-cases (selects tenant key x)) [
    | inl own ↦ rw own (unfold get_row in rw s refl)
    | inr other ↦ rw other (rw other (get-put rows found new (rw other at h) s))
  ]

  pub get-append :
      (rows : List WorkItemRow) (new : WorkItemRow)
      → get_row tenant key rows ≡ none
      → get_row tenant key (rows ++ new ∷ []) ≡ (if selects tenant key new then some new else none)
  unfolding get_row
  get-append [] new h = refl
  get-append (x ∷ rows) new h = elim (Bool-cases (selects tenant key x)) [
    | inl own ↦ absurd (impossible (rw own at h))
    | inr other ↦ rw other (get-append rows new (rw other at h))
  ]
    where
      impossible : {a : WorkItemRow} → some a ≡ none → ⊥
      impossible e = cc

  pub key_taken-get_row :
      (rows : List WorkItemRow) (found : WorkItemRow)
      → get_row tenant key rows ≡ some found
      → key_taken key rows ≡ true
  unfolding get_row key_taken selects
  key_taken-get_row [] found h = cc
  key_taken-get_row (x ∷ rows) found h = ground (arith, key_taken-get_row rows found)

-- A row stamped by a store is one that the store sees, but for the empty tenant name.
pub write_tenant-visible :
    (tenant : Tenant) (row : WorkItemRow)
    → tenant ≢ some []
    → row.tenant_id ≡ write_tenant tenant
    → visible tenant row ≡ true
unfolding visible
write_tenant-visible none row n h = refl
write_tenant-visible (some []) row n h = absurd (n refl)
write_tenant-visible (some (c ∷ t)) row n h = (text_eq_iff row.tenant_id (c ∷ t)).1 h

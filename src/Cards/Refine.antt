-- ===== src/Cards/Refine.antt =====
-- `CardStore` of apps/backend/cfactory/cards.py as an implementation of the board in Cards/Spec.
use cfactory.Prelude.{
  ap, ℕ, ◌≡◌, ◌≢◌, refl, sym, ◌∙◌, subst, inl, inr, true, false, ◌&&◌, ◌||◌, Option, none, some,
  List, [], ◌∷◌, ◌++◌, Text, text_eq, text_eq_refl, any, or_false, Bool-cases, Option-cases,
  is_some, truthy,
}
use cfactory.Prelude.Results.{
  Exception, Result, ok, raise, duplicate_card_key, duplicate_issue_ref, >>=-eq-ok,
}
use cfactory.WorkItem.Table.{Tenant, write_tenant}
use cfactory.Cards.{CardRow, CardCreate, Changes}
use cfactory.Cards.Board.{
  in_scope, selected, is_card, replace_first, holds_key, holds_ref, insert_row, row_of, key_for,
  get, get_by_issue_ref, create, inserted_or, refusal, apply_changes, ref_conflict, update_found,
  update, delete_found, delete,
}
use cfactory.Cards.Spec.{
  put, CardCall, create_card, update_card, delete_card, Reply, card, card_if_any, was_there,
  Created, added, changed, not_changed, dropped, not_dropped,
}
use cfactory.Cards.Indexed.{
  IsIndexed, IsIndexed-replace, IsIndexed-append, first_row_unique, get-replace, first_row_passes,
  is_card_iff,
}
use cfactory.Cards.Calls.{
  Updated-apply_changes, Named-key_for, Created-row_of, board, CardStep, created, updated, deleted,
  Refined, tombstone, get-append, simulated,
}

refusal_raises :
    (tenant : Tenant) (key : Text) (ref : Option Text) (rows : List CardRow)
    → (e : Exception) × (refusal tenant key ref rows ≡ raise e)
unfolding refusal
refusal_raises tenant key none rows = (duplicate_card_key key, refl)
refusal_raises tenant key (some ref) rows =
    elim (Bool-cases (truthy (some ref) && is_some (get_by_issue_ref tenant ref rows))) [
      | inl claimed ↦ (duplicate_issue_ref (some ref), rw claimed refl)
      | inr unclaimed ↦ (duplicate_card_key key, rw unclaimed refl)
    ]

module _ (t : Text) where
  delete_refines :
      (now : ℕ) (key : Text) (rows : List CardRow)
      → IsIndexed rows
      → Refined t rows
          (delete_card now key)
          (was_there (delete (some t) now key rows).1)
          (delete (some t) now key rows).0
  unfolding delete delete_found get
  delete_refines now key rows k = elim (Option-cases (get (some t) key rows)) [
    | inl absent ↦ rw absent (k, not_dropped now key absent)
    | inr (old, found) ↦ rw found (
      IsIndexed-replace (is_card (some t) key)
          (record old { deleted_at = some now; updated_at = now }) rows old found (refl, refl) k,
      simulated t rows _ _ _ (put key none (board t rows))
          (λ j.
            get-replace t key (record old { deleted_at = some now; updated_at = now }) rows old j k
              found (refl, refl)
            ∙ rw (tombstone t now old) refl)
          (dropped now key old found),
    )
  ]

  selected-apply_changes :
      (now : ℕ) (c : Changes) (old : CardRow)
      → selected (some t) (apply_changes now c old) ≡ selected (some t) old
  unfolding selected in_scope apply_changes
  selected-apply_changes now c old = refl

  update_refines :
      (now : ℕ) (key : Text) (c : Changes) (rows rows' : List CardRow) (row : Option CardRow)
      → IsIndexed rows
      → update (some t) now key c rows ≡ ok (rows', row)
      → Refined t rows (update_card now key c) (card_if_any row) rows'
  unfolding update update_found get apply_changes
  update_refines now key c rows rows' row k h = elim (Option-cases (get (some t) key rows)) [
    | inl absent ↦ idle absent (rw absent at h)
    | inr (old, found) ↦ elim (Bool-cases (ref_conflict c.issue_ref old rows || c.null_refused)) [
      | inl conflict ↦ absurd (refused (rw conflict at (rw found at h)))
      | inr free ↦ written old found (rw free at (rw found at h))
    ]
  ]
    where
      reply : List CardRow → Option CardRow → Result (List CardRow × Option CardRow)
      reply table r = ok (table, r)

      still_selected :
          (old : CardRow)
          → get (some t) key rows ≡ some old
          → selected (some t) (apply_changes now c old) ≡ true
      still_selected old found =
          selected-apply_changes now c old
          ∙ (is_card_iff t key old (first_row_passes (is_card (some t) key) rows old found)).2

      idle :
          get (some t) key rows ≡ none
          → reply rows none ≡ reply rows' row
          → Refined t rows (update_card now key c) (card_if_any row) rows'
      idle absent e =
          let same : rows ≡ rows' = cc in
          let none_found : none ≡ row = cc in
          rw (← same) (rw (← none_found) (k, not_changed now key c absent))

      refused : {e : Exception} → raise e ≡ reply rows' row → ⊥
      refused e = cc

      written :
          (old : CardRow)
          → get (some t) key rows ≡ some old
          → reply
              (replace_first (is_card (some t) key) (apply_changes now c old) rows)
              (some (apply_changes now c old))
            ≡ reply rows' row
          → Refined t rows (update_card now key c) (card_if_any row) rows'
      written old found e =
          let same : replace_first (is_card (some t) key) (apply_changes now c old) rows ≡ rows' =
            cc in
          let answer : some (apply_changes now c old) ≡ row = cc in
          rw (← same) (
            rw (← answer) (
              IsIndexed-replace (is_card (some t) key) (apply_changes now c old) rows old found
                  (refl, refl) k,
              simulated t rows _ _ _ (put key (some (apply_changes now c old)) (board t rows))
                  (λ j.
                    get-replace t key (apply_changes now c old) rows old j k found (refl, refl)
                    ∙ rw (still_selected old found) refl)
                  (changed now key c old (apply_changes now c old) found
                    (Updated-apply_changes now c old)),
            ))

  pub stamp : t ≢ [] → write_tenant (some t) ≡ t
  stamp ne = by_text t ne
    where
      by_text : (s : Text) → s ≢ [] → write_tenant (some s) ≡ s
      by_text [] n = absurd (n refl)
      by_text (c ∷ s) n = refl

  insert_refines :
      (now : ℕ) (body : CardCreate) (new : CardRow) (rows rows' : List CardRow) (row : CardRow)
      (error : Exception)
      → Created t now body new
      → IsIndexed rows
      → inserted_or (raise error) new (insert_row new rows) ≡ ok (rows', row)
      → Refined t rows (create_card now body) (card row) rows'
  unfolding insert_row get
  insert_refines now body new rows rows' row error made k h =
      elim (Bool-cases (
        any (holds_key new.tenant_id new.card_key) rows
        || any (holds_ref new.tenant_id new.issue_ref) rows)) [
          | inl taken ↦ absurd (refused (rw taken at h))
          | inr free ↦ stored (or_false _ _ free).0 (rw free at h)
        ]
    where
      reply : List CardRow → CardRow → Result (List CardRow × CardRow)
      reply table r = ok (table, r)

      refused : raise error ≡ reply rows' row → ⊥
      refused e = cc

      selected_new : selected (some t) new ≡ true
      selected_new =
          let same : text_eq new.tenant_id t ≡ true = rw made.owner (text_eq_refl t) in
          rw same (rw made.defaults.5 refl)

      stored :
          any (holds_key new.tenant_id new.card_key) rows ≡ false
          → reply (rows ++ new ∷ []) new ≡ reply rows' row
          → Refined t rows (create_card now body) (card row) rows'
      stored alone e =
          let same : rows ++ new ∷ [] ≡ rows' = cc in
          let answer : new ≡ row = cc in
          let free : any (holds_key t new.card_key) rows ≡ false =
            ap (λ x. any (holds_key x new.card_key) rows) (sym made.owner) ∙ alone in
          subst (λ x. Refined t rows (create_card now body) (card x) rows') answer
            (rw (← same) (
              IsIndexed-append rows new alone k,
              simulated t rows _ _ _ (put new.card_key (some new) (board t rows))
                  (λ j. get-append t new rows j free selected_new)
                  (added now body new (first_row_unique t new.card_key rows free) made),
            ))

  create_refines :
      (now : ℕ) (body : CardCreate) (rows rows' : List CardRow) (row : CardRow)
      → t ≢ []
      → IsIndexed rows
      → create (some t) now body rows ≡ ok (rows', row)
      → Refined t rows (create_card now body) (card row) rows'
  unfolding create
  create_refines now body rows rows' row ne k h =
      let (key, assigned, inserted) =
        >>=-eq-ok (key_for (some t) body.card_key rows)
          (λ key.
            inserted_or (refusal (some t) key body.issue_ref rows)
              (row_of (write_tenant (some t)) now key body)
              (insert_row (row_of (write_tenant (some t)) now key body) rows))
          h in
      let (error, raised) = refusal_raises (some t) key body.issue_ref rows in
      insert_refines now body (row_of (write_tenant (some t)) now key body) rows rows' row error
        (subst (λ x. Created t now body (row_of x now key body)) (sym (stamp ne))
          (Created-row_of t now key body (Named-key_for (some t) body.card_key rows key assigned)))
        k (rw raised at inserted)

  -- The store of a tenant implements the board, a map from keys to cards. Where a call returns: a new card
  -- has the fields of the request and stands under a key that was free, the one that was asked for if
  -- one was; an update sets the fields that it brings, leaves the others, and answers with the card, or
  -- with none where there is no card; a deletion takes the card away and answers whether there was one;
  -- no other key is touched. No two rows of a tenant come to share a key. A deleted card is a row still,
  -- which the map does not have. The tenant's name is not empty.
  pub CardStep-refines :
      (rows rows' : List CardRow) (call : CardCall) (reply : Reply)
      → t ≢ []
      → IsIndexed rows
      → CardStep t rows call reply rows'
      → Refined t rows call reply rows'
  CardStep-refines rows rows' call reply ne k (created now body row h) =
      create_refines now body rows rows' row ne k h
  CardStep-refines rows rows' call reply ne k (updated now key c row h) =
      update_refines now key c rows rows' row k h
  CardStep-refines rows rows' call reply ne k (deleted now key) = delete_refines now key rows k

-- ===== src/Cards/Tombstones.antt =====
-- A deleted card and the issue it came from: `delete`, `get_by_issue_ref` and `create` of
-- apps/backend/cfactory/cards.py.
use cfactory.Prelude.{
  ℕ, ◌≡◌, ◌≢◌, refl, inl, inr, Bool, true, none, some, List, [], ◌∷◌, Text, text_eq, text_eq_refl,
  option_eq_iff, arith, any, Bool-cases, is_some,
}
use cfactory.Prelude.Results.{ok, raise, duplicate_issue_ref}
use cfactory.WorkItem.Table.{write_tenant}
use cfactory.Cards.{CardRow, CardCreate}
use cfactory.Cards.Board.{
  in_scope, is_card, first_row, replace_first, holds_ref, insert_row, row_of, key_for, get,
  get_by_issue_ref, refusal, create, delete_found, delete,
}
use cfactory.Cards.Indexed.{first_row_passes, is_card_iff}
use cfactory.Cards.Refine.{stamp}

module _ (t : Text) where
  claimed_at_place :
      (test : CardRow → Bool) (new old : CardRow) (rows : List CardRow) (ref : Text)
      → first_row test rows ≡ some old
      → holds_ref t (some ref) new ≡ true
      → any (holds_ref t (some ref)) (replace_first test new rows) ≡ true
  unfolding first_row replace_first
  claimed_at_place test new old [] ref h claim = cc
  claimed_at_place test new old (r ∷ rows) ref h claim = elim (Bool-cases (test r)) [
    | inl here ↦ rw here (rw claim refl)
    | inr there ↦
        rw there (ground (arith, claimed_at_place test new old rows ref (rw there at h) claim))
  ]

  -- A look-up by issue finds what the index holds.
  found_by_ref :
      (rows : List CardRow) (ref : Text)
      → any (holds_ref t (some ref)) rows ≡ true
      → is_some (get_by_issue_ref (some t) ref rows) ≡ true
  unfolding get_by_issue_ref first_row holds_ref in_scope
  found_by_ref [] ref h = cc
  found_by_ref (r ∷ rows) ref h = ground (arith, found_by_ref rows ref)

  insert_row_claimed :
      (new : CardRow) (rows : List CardRow)
      → any (holds_ref new.tenant_id new.issue_ref) rows ≡ true
      → insert_row new rows ≡ none
  unfolding insert_row
  insert_row_claimed new rows h = rw h (ground arith)

  refusal_claimed :
      (key : Text) (rows : List CardRow) (c : ℕ) (ref : Text)
      → any (holds_ref t (some (c ∷ ref))) rows ≡ true
      → refusal (some t) key (some (c ∷ ref)) rows ≡ raise (duplicate_issue_ref (some (c ∷ ref)))
  unfolding refusal
  refusal_claimed key rows c ref h = rw (found_by_ref rows (c ∷ ref) h) refl

  create_claimed :
      (later : ℕ) (rows : List CardRow) (body : CardCreate) (c : ℕ) (ref k : Text)
      → t ≢ []
      → any (holds_ref t (some (c ∷ ref))) rows ≡ true
      → body.issue_ref ≡ some (c ∷ ref)
      → key_for (some t) body.card_key rows ≡ ok k
      → create (some t) later body rows ≡ raise (duplicate_issue_ref (some (c ∷ ref)))
  unfolding create row_of
  create_claimed later rows body c ref k ne claim again assigned = rw assigned (
      rw
        (insert_row_claimed (row_of (write_tenant (some t)) later k body) rows
          (rw again (rw (stamp t ne) claim)))
        (rw again (refusal_claimed k rows c ref claim)))

  tomb_claims :
      (now : ℕ) (old : CardRow) (c : ℕ) (ref : Text)
      → old.tenant_id ≡ t
      → old.issue_ref ≡ some (c ∷ ref)
      → holds_ref t (some (c ∷ ref)) (record old { deleted_at = some now; updated_at = now }) ≡ true
  unfolding holds_ref
  tomb_claims now old c ref owner claim =
      let own : text_eq old.tenant_id t ≡ true = rw owner (text_eq_refl t) in
      rw own (rw claim ((option_eq_iff (some (c ∷ ref)) (some (c ∷ ref))).1 refl))

  still_claimed :
      (now : ℕ) (key : Text) (old : CardRow) (rows : List CardRow) (c : ℕ) (ref : Text)
      → get (some t) key rows ≡ some old
      → old.issue_ref ≡ some (c ∷ ref)
      → any (holds_ref t (some (c ∷ ref))) (delete (some t) now key rows).0 ≡ true
  unfolding delete delete_found get
  still_claimed now key old rows c ref found claim = rw found (
      claimed_at_place (is_card (some t) key)
        (record old { deleted_at = some now; updated_at = now }) old rows (c ∷ ref) found
        (tomb_claims now old c ref
          (is_card_iff t key old (first_row_passes (is_card (some t) key) rows old found)).0 claim))

  -- A deleted card is not brought back by the import: while its row stands, a new card of the tenant for
  -- the same issue is refused with `DuplicateIssueRefError`, whatever key it asks for.
  -- Neither the tenant's name nor the reference is empty.
  pub delete_then_create :
      (now later : ℕ) (key : Text) (old : CardRow) (rows : List CardRow) (body : CardCreate) (c : ℕ)
      (ref k : Text)
      → t ≢ []
      → get (some t) key rows ≡ some old
      → old.issue_ref ≡ some (c ∷ ref)
      → body.issue_ref ≡ some (c ∷ ref)
      → key_for (some t) body.card_key (delete (some t) now key rows).0 ≡ ok k
      → create (some t) later body (delete (some t) now key rows).0
        ≡ raise (duplicate_issue_ref (some (c ∷ ref)))
  delete_then_create now later key old rows body c ref k ne found claim again assigned =
      create_claimed later (delete (some t) now key rows).0 body c ref k ne
        (still_claimed now key old rows c ref found claim) again assigned

-- ===== src/Cards/Calls.antt =====
-- The calls of `CardStore` in apps/backend/cfactory/cards.py that change the table of a tenant, the board
-- that the table shows, and what a call does to the fields of a card.
use cfactory.Prelude.{
  ℕ, ◌≡◌, refl, sym, subst, fun_ext, inl, inr, true, false, Option, none, some, List, [], ◌∷◌, ◌++◌,
  if◌then◌else◌, Text, text_eq, text_eq_iff, arith, any, or_false, Bool-cases,
}
use cfactory.Prelude.Results.{ok}
use cfactory.WorkItem.Table.{Tenant}
use cfactory.Cards.{CardRow, CardCreate, Changes}
use cfactory.Cards.Board.{
  set_to, in_scope, selected, is_card, first_row, holds_key, row_of, key_for, get, create,
  apply_changes, update, delete,
}
use cfactory.Cards.Spec.{
  Board, CardCall, create_card, update_card, delete_card, Reply, card, card_if_any, was_there, Sets,
  Updated, Named, Created, BoardStep,
}
use cfactory.Cards.Indexed.{IsIndexed}

-- Fields are set as the update has them.
pub Sets-set_to {ℓ} : {A : Type ℓ} (o : Option A) (old : A) → Sets o old (set_to o old)
Sets-set_to none old = refl
Sets-set_to (some value) old = refl

pub Updated-apply_changes :
    (now : ℕ) (c : Changes) (old : CardRow) → Updated now c old (apply_changes now c old)
unfolding apply_changes
Updated-apply_changes now c old = record {
  title = Sets-set_to c.title old.title;
  description = Sets-set_to c.description old.description;
  acceptance_criteria = Sets-set_to c.acceptance_criteria old.acceptance_criteria;
  status = Sets-set_to c.status old.status;
  priority = Sets-set_to c.priority old.priority;
  tier = Sets-set_to c.tier old.tier;
  assignee = Sets-set_to c.assignee old.assignee;
  milestone = Sets-set_to c.milestone old.milestone;
  correlation_key = Sets-set_to c.correlation_key old.correlation_key;
  stage_runs = Sets-set_to c.stage_runs old.stage_runs;
  issue_ref = Sets-set_to c.issue_ref old.issue_ref;
  repository_id = Sets-set_to c.repository_id old.repository_id;
  issue_state = Sets-set_to c.issue_state old.issue_state;
  labels = Sets-set_to c.labels old.labels;
  github_sync_error = Sets-set_to c.github_sync_error old.github_sync_error;
  updated_at = refl;
  kept = (refl, refl, refl, refl, refl);
}

pub Named-key_for :
    (tenant : Tenant) (asked : Option Text) (rows : List CardRow) (key : Text)
    → key_for tenant asked rows ≡ ok key
    → Named asked key
unfolding key_for
Named-key_for tenant none rows key h = tt
Named-key_for tenant (some []) rows key h = tt
Named-key_for tenant (some (c ∷ s)) rows key h = cc

pub Created-row_of :
    (t : Text) (now : ℕ) (key : Text) (body : CardCreate)
    → Named body.card_key key
    → Created t now body (row_of t now key body)
unfolding row_of
Created-row_of t now key body named = record {
  named = named;
  owner = refl;
  fields = (refl, refl, refl, refl, refl, refl, refl, refl, refl, refl, refl);
  defaults = (refl, refl, refl, refl, refl, refl);
  times = (refl, refl);
}

module _ (t : Text) where
  -- The view of a table
  abbrev pub board : List CardRow → Board
  board rows key = get (some t) key rows

  -- The calls of a tenant's store that change the table, with their answers
  pub data CardStep (rows : List CardRow) : CardCall → Reply → List CardRow → Type 0 where
    created :
        {rows' : List CardRow} (now : ℕ) (body : CardCreate) (row : CardRow)
        → create (some t) now body rows ≡ ok (rows', row)
        → CardStep rows (create_card now body) (card row) rows'
    updated :
        {rows' : List CardRow} (now : ℕ) (key : Text) (c : Changes) (row : Option CardRow)
        → update (some t) now key c rows ≡ ok (rows', row)
        → CardStep rows (update_card now key c) (card_if_any row) rows'
    deleted :
        (now : ℕ) (key : Text)
        → CardStep rows
            (delete_card now key)
            (was_there (delete (some t) now key rows).1)
            (delete (some t) now key rows).0

  -- The table is indexed still, and the board has made the step.
  abbrev pub Refined : List CardRow → CardCall → Reply → List CardRow → Type 0
  Refined rows call reply rows' =
      IsIndexed rows' × BoardStep t (board rows) call reply (board rows')

  unlike :
      (k j : Text) (r : CardRow)
      → holds_key t k r ≡ false
      → is_card (some t) j r ≡ true
      → text_eq k j ≡ false
  unfolding holds_key is_card selected in_scope
  unlike k j r apart here =
      ground (arith, text_eq_iff k j, text_eq_iff r.card_key k, text_eq_iff r.card_key j)

  pub tombstone :
      (now : ℕ) (old : CardRow)
      → selected (some t) (record old { deleted_at = some now; updated_at = now }) ≡ false
  unfolding selected
  tombstone now old = ground arith

  pub get-append :
      (new : CardRow) (rows : List CardRow) (j : Text)
      → any (holds_key t new.card_key) rows ≡ false
      → selected (some t) new ≡ true
      → first_row (is_card (some t) j) (rows ++ new ∷ [])
        ≡ (if text_eq new.card_key j then some new else first_row (is_card (some t) j) rows)
  unfolding first_row is_card
  get-append new [] j alone live = rw live refl
  get-append new (r ∷ rows) j alone live =
      let (apart, rest) =
        or_false (holds_key t new.card_key r) (any (holds_key t new.card_key) rows) alone in
      elim (Bool-cases (is_card (some t) j r)) [
        | inl here ↦ rw here (rw (unlike new.card_key j r apart here) refl)
        | inr there ↦ rw there (get-append new rows j rest live)
      ]

  pub simulated :
      (rows rows' : List CardRow) (call : CardCall) (reply : Reply) (b : Board)
      → ((j : Text) → board rows' j ≡ b j)
      → BoardStep t (board rows) call reply b
      → BoardStep t (board rows) call reply (board rows')
  simulated rows rows' call reply b same step =
      subst (λ x. BoardStep t (board rows) call reply x) (sym (fun_ext same)) step

-- ===== src/Cards/Indexed.antt =====
-- The unique index of the cards on tenant and key, which every operation of `CardStore` in
-- apps/backend/cfactory/cards.py keeps.
use cfactory.Prelude.{
  ◌≡◌, refl, sym, ap, ◌∙◌, inl, inr, Bool, true, false, ◌||◌, Option, none, some, List, [], ◌∷◌,
  ◌++◌, if◌then◌else◌, Text, text_eq, text_eq_iff, text_eq_sound, arith, any, any-append, or_false,
  Bool-cases,
}
use cfactory.Cards.{CardRow}
use cfactory.Cards.Board.{in_scope, selected, is_card, first_row, replace_first, holds_key}

unfoldable pub IsIndexed : List CardRow → Type 0
IsIndexed [] = Unit
IsIndexed (r ∷ rows) = (any (holds_key r.tenant_id r.card_key) rows ≡ false) × IsIndexed rows

-- One row in place of another of the same tenant and key
abbrev pub SameKey : CardRow → CardRow → Type 0
SameKey a b = (a.card_key ≡ b.card_key) × (a.tenant_id ≡ b.tenant_id)

holds_key_iff :
    (t k : Text) (r : CardRow) → holds_key t k r ≡ true → (r.tenant_id ≡ t) × (r.card_key ≡ k)
unfolding holds_key
holds_key_iff t k r h = (
  ground (arith, text_eq_iff r.tenant_id t, text_eq_iff r.card_key k),
  ground (arith, text_eq_iff r.tenant_id t, text_eq_iff r.card_key k),
)

holds_key-SameKey : (t k : Text) (a b : CardRow) → SameKey a b → holds_key t k a ≡ holds_key t k b
unfolding holds_key
holds_key-SameKey t k a b (e, f) = rw e (rw f refl)

module _ (test : CardRow → Bool) (new : CardRow) where
  taken-replace :
      (rows : List CardRow) (old : CardRow) (t k : Text)
      → first_row test rows ≡ some old
      → SameKey new old
      → any (holds_key t k) (replace_first test new rows) ≡ any (holds_key t k) rows
  unfolding first_row replace_first
  taken-replace [] old t k h same = refl
  taken-replace (r ∷ rows) old t k h same = elim (Bool-cases (test r)) [
    | inl here ↦ rw here (ap (λ b. b || any (holds_key t k) rows) (found (rw here at h)))
    | inr there ↦
        rw there (ap (λ b. holds_key t k r || b) (taken-replace rows old t k (rw there at h) same))
  ]
    where
      found : some r ≡ some old → holds_key t k new ≡ holds_key t k r
      found e = let at_first : r ≡ old = cc in rw at_first (holds_key-SameKey t k new old same)

  pub IsIndexed-replace :
      (rows : List CardRow) (old : CardRow)
      → first_row test rows ≡ some old
      → SameKey new old
      → IsIndexed rows
      → IsIndexed (replace_first test new rows)
  unfolding IsIndexed first_row replace_first
  IsIndexed-replace [] old h same k = tt
  IsIndexed-replace (r ∷ rows) old h same k = elim (Bool-cases (test r)) [
    | inl here ↦ rw here (unfold IsIndexed in (moved (rw here at h), k.1))
    | inr there ↦ rw there (
        unfold IsIndexed in
        (
          taken-replace rows old r.tenant_id r.card_key (rw there at h) same ∙ k.0,
          IsIndexed-replace rows old (rw there at h) same k.1,
        ))
  ]
    where
      moved : some r ≡ some old → any (holds_key new.tenant_id new.card_key) rows ≡ false
      moved e =
          let at_first : r ≡ old = cc in
          let front : any (holds_key r.tenant_id r.card_key) rows ≡ false = k.0 in
          rw same.0 (rw same.1 (rw (← at_first) front))

holds_key-sym :
    (a b : CardRow)
    → holds_key a.tenant_id a.card_key b ≡ false
    → holds_key b.tenant_id b.card_key a ≡ false
unfolding holds_key
holds_key-sym a b h = ground (
  arith,
  text_eq_iff a.tenant_id b.tenant_id,
  text_eq_iff b.tenant_id a.tenant_id,
  text_eq_iff a.card_key b.card_key,
  text_eq_iff b.card_key a.card_key,
)

pub IsIndexed-append :
    (rows : List CardRow) (new : CardRow)
    → any (holds_key new.tenant_id new.card_key) rows ≡ false
    → IsIndexed rows
    → IsIndexed (rows ++ new ∷ [])
unfolding IsIndexed
IsIndexed-append [] new free k = (refl, tt)
IsIndexed-append (r ∷ rows) new free k =
    let (apart, rest) =
      or_false (holds_key new.tenant_id new.card_key r)
        (any (holds_key new.tenant_id new.card_key) rows) free in
    (
      rw (any-append (holds_key r.tenant_id r.card_key) rows (new ∷ []))
          (rw k.0 (rw (holds_key-sym new r apart) refl)),
      IsIndexed-append rows new rest k.1,
    )

pub first_row_passes :
    (test : CardRow → Bool) (rows : List CardRow) (r : CardRow)
    → first_row test rows ≡ some r
    → test r ≡ true
unfolding first_row
first_row_passes test [] r h = cc
first_row_passes test (x ∷ rows) r h = elim (Bool-cases (test x)) [
  | inl here ↦ at_first here (rw here at h)
  | inr there ↦ first_row_passes test rows r (rw there at h)
]
  where
    at_first : test x ≡ true → some x ≡ some r → test r ≡ true
    at_first here e = let same : x ≡ r = cc in rw (← same) here

-- Behind a row of the tenant no other row has its key.
pub first_row_unique :
    (t key : Text) (rows : List CardRow)
    → any (holds_key t key) rows ≡ false
    → first_row (is_card (some t) key) rows ≡ none
unfolding first_row is_card holds_key in_scope
first_row_unique t key [] h = refl
first_row_unique t key (r ∷ rows) h = ground (arith, first_row_unique t key rows, h)

pub is_card_iff :
    (t key : Text) (r : CardRow)
    → is_card (some t) key r ≡ true
    → (r.tenant_id ≡ t) × (r.card_key ≡ key) × (selected (some t) r ≡ true)
unfolding is_card selected in_scope
is_card_iff t key r h = (
  ground (arith, h, text_eq_iff r.tenant_id t),
  ground (arith, h, text_eq_iff r.card_key key),
  ground (arith, h),
)

is_card_other :
    (t key j : Text) (r : CardRow)
    → r.card_key ≡ key
    → text_eq key j ≡ false
    → is_card (some t) j r ≡ false
unfolding is_card
is_card_other t key j r e differs = rw e (ground (arith, differs))

is_card_own :
    (t key j : Text) (r : CardRow)
    → r.card_key ≡ key
    → text_eq key j ≡ true
    → is_card (some t) j r ≡ selected (some t) r
unfolding is_card
is_card_own t key j r e same = rw e (ground (arith, same))

-- Look-up in a row put in place of another of the same tenant and key, and in those behind it
get_at_place :
    (t key : Text) (new r : CardRow) (rows : List CardRow) (j : Text)
    → any (holds_key t key) rows ≡ false
    → new.card_key ≡ key
    → r.card_key ≡ key
    → (if is_card (some t) j new then some new else first_row (is_card (some t) j) rows) ≡ (
        if text_eq key j
        then (if selected (some t) new then some new else none)
        else (if is_card (some t) j r then some r else first_row (is_card (some t) j) rows))
get_at_place t key new r rows j alone e f = elim (Bool-cases (text_eq key j)) [
  | inl same ↦ rw same (
      rw (is_card_own t key j new e same)
        (rw (first_row_unique t j rows (rw (text_eq_sound key j same) at alone)) refl))
  | inr differs ↦
      rw differs
        (rw (is_card_other t key j new e differs) (rw (is_card_other t key j r f differs) refl))
]

get_behind :
    (t key : Text) (r : CardRow) (changed : Option CardRow) (before after : Option CardRow)
    (j : Text)
    → is_card (some t) key r ≡ false
    → after ≡ (if text_eq key j then changed else before)
    → (if is_card (some t) j r then some r else after)
      ≡ (if text_eq key j then changed else (if is_card (some t) j r then some r else before))
get_behind t key r changed before after j there ih = elim (Bool-cases (text_eq key j)) [
  | inl same ↦ rw same (rw (← text_eq_sound key j same) (rw there (rw same at ih)))
  | inr differs ↦
      rw differs (ap (λ o. if is_card (some t) j r then some r else o) (rw differs at ih))
]

-- The look-up after a replacement
pub get-replace :
    (t key : Text) (new : CardRow) (rows : List CardRow) (old : CardRow) (j : Text)
    → IsIndexed rows
    → first_row (is_card (some t) key) rows ≡ some old
    → SameKey new old
    → first_row (is_card (some t) j) (replace_first (is_card (some t) key) new rows) ≡ (
        if text_eq key j
        then (if selected (some t) new then some new else none)
        else first_row (is_card (some t) j) rows)
unfolding first_row replace_first IsIndexed
get-replace t key new [] old j k h same = cc
get-replace t key new (r ∷ rows) old j k h same = elim (Bool-cases (is_card (some t) key r)) [
  | inl here ↦ rw here (placed (is_card_iff t key r here) (rw here at h))
  | inr there ↦ rw there (
      get_behind t key r (if selected (some t) new then some new else none)
        (first_row (is_card (some t) j) rows)
        (first_row (is_card (some t) j) (replace_first (is_card (some t) key) new rows)) j there
        (get-replace t key new rows old j k.1 (rw there at h) same))
]
  where
    placed :
        (r.tenant_id ≡ t) × (r.card_key ≡ key) × (selected (some t) r ≡ true)
        → some r ≡ some old
        → (if is_card (some t) j new then some new else first_row (is_card (some t) j) rows) ≡ (
            if text_eq key j
            then (if selected (some t) new then some new else none)
            else (if is_card (some t) j r then some r else first_row (is_card (some t) j) rows))
    placed (e, f, _) at_first =
        let same_row : r ≡ old = cc in
        let alone : any (holds_key t key) rows ≡ false = rw e at (rw f at k.0) in
        get_at_place t key new r rows j alone (same.0 ∙ (ap (λ x. x.card_key) (sym same_row) ∙ f)) f

-- ===== src/Cards/Found.antt =====
-- Look-ups of the cards of apps/backend/cfactory/cards.py other than by the key, over the unique index.
use cfactory.Prelude.{
  ◌≡◌, refl, inl, inr, Bool, true, false, ◌&&◌, some, List, [], ◌∷◌, Text, text_eq, text_eq_refl,
  text_eq_iff, arith, Bool-cases, any, or_false,
}
use cfactory.Cards.{CardRow}
use cfactory.Cards.Board.{in_scope, selected, is_card, holds_key, first_row, get}
use cfactory.Cards.Indexed.{IsIndexed}

-- A row of the tenant behind another has another key.
first_row_apart :
    (t : Text) (test : CardRow → Bool) (head r : CardRow) (rows : List CardRow)
    → any (holds_key head.tenant_id head.card_key) rows ≡ false
    → first_row (λ x. selected (some t) x && test x) rows ≡ some r
    → selected (some t) head && text_eq head.card_key r.card_key ≡ false
unfolding first_row selected in_scope holds_key
first_row_apart t test head r [] alone h = absurd cc
first_row_apart t test head r (x ∷ rows) alone h =
    elim (Bool-cases (selected (some t) x && test x)) [
      | inl here ↦
          at_first
            (or_false (holds_key head.tenant_id head.card_key x)
              (any (holds_key head.tenant_id head.card_key) rows) alone).0
            (and_true here) (rw (here, selected) at h)
      | inr there ↦
          first_row_apart t test head r rows
            (or_false (holds_key head.tenant_id head.card_key x)
              (any (holds_key head.tenant_id head.card_key) rows) alone).1
            (rw (there, selected) at h)
    ]
  where
    and_true : selected (some t) x && test x ≡ true → text_eq x.tenant_id t ≡ true
    and_true e = ground (arith, e)

    at_first :
        holds_key head.tenant_id head.card_key x ≡ false
        → text_eq x.tenant_id t ≡ true
        → some x ≡ some r
        → selected (some t) head && text_eq head.card_key r.card_key ≡ false
    at_first apart inside e =
        let same : x ≡ r = cc in
        rw (← same) (
          ground (
            arith,
            apart,
            inside,
            text_eq_iff x.tenant_id t,
            text_eq_iff head.tenant_id t,
            text_eq_iff x.tenant_id head.tenant_id,
            text_eq_iff x.card_key head.card_key,
            text_eq_iff head.card_key x.card_key,
          ))

-- A row found by another look-up of the tenant is the one that its key names.
pub found_is_held :
    (t : Text) (test : CardRow → Bool) (r : CardRow) (rows : List CardRow)
    → IsIndexed rows
    → first_row (λ x. selected (some t) x && test x) rows ≡ some r
    → get (some t) r.card_key rows ≡ some r
unfolding first_row get IsIndexed is_card
found_is_held t test r [] k h = absurd cc
found_is_held t test r (x ∷ rows) k h = elim (Bool-cases (selected (some t) x && test x)) [
  | inl here ↦ at_first here (rw here at h)
  | inr there ↦
      rw (first_row_apart t test x r rows k.0 (rw there at h), get)
        (found_is_held t test r rows k.1 (rw there at h))
]
  where
    at_first :
        selected (some t) x && test x ≡ true
        → some x ≡ some r
        → get (some t) r.card_key (x ∷ rows) ≡ some r
    at_first passes e =
        let same : x ≡ r = cc in
        let own : selected (some t) x && text_eq x.card_key x.card_key ≡ true =
          ground (arith, passes, text_eq_refl x.card_key) in
        rw (← same) (rw (own, get) refl)

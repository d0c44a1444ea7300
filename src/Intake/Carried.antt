-- ===== src/Intake/Carried.antt =====
-- What the brief of a card carries, by `_brief` of apps/backend/cfactory/card_intake.py.
use cfactory.Prelude.{
  ◌≡◌, ◌≢◌, refl, sym, ap, ◌∙◌, inl, inr, false, List, [], ◌∷◌, ◌++◌, map, map-append, append_assoc,
  append-nil, Text, codes, Bool-cases, is_empty, if◌then◌else◌, ◌==◌,
}
use cfactory.Prelude.Strings.{join}
use cfactory.Cards.{CardRow}
use cfactory.Intake.Brief.{
  body_text, starts_with_hash, has_own_criteria, first_lines, criteria_lines, brief_lines, brief,
}

-- The one text stands within the other.
abbrev pub Infix : Text → Text → Type 0
Infix s t = (front : Text) × (back : Text) × (t ≡ front ++ (s ++ back))

-- The text is one of the lines.
abbrev pub Line : Text → List Text → Type 0
Line s lines = (front : List Text) × (back : List Text) × (lines ≡ front ++ s ∷ back)

Infix-behind : (prefix s t : Text) → Infix s t → Infix s (prefix ++ t)
Infix-behind prefix s t (front, back, e) =
    (prefix ++ front, back, ap (λ x. prefix ++ x) e ∙ sym (append_assoc prefix front (s ++ back)))

join_has : (sep s : Text) (front back : List Text) → Infix s (join sep (front ++ s ∷ back))
join_has sep s [] [] = ([], [], sym (append-nil s))
join_has sep s [] (v ∷ back) = ([], sep ++ join sep (v ∷ back), refl)
join_has sep s (w ∷ []) back = Infix-behind w s _ (Infix-behind sep s _ (join_has sep s [] back))
join_has sep s (w ∷ v ∷ front) back =
    Infix-behind w s _ (Infix-behind sep s _ (join_has sep s (v ∷ front) back))

Line-in_brief : (card : CardRow) (s : Text) → Line s (brief_lines card) → Infix s (brief card)
unfolding brief
Line-in_brief card s (front, back, e) = rw e (join_has (codes "\n") s front back)

Line-left : (s : Text) (lines more : List Text) → Line s lines → Line s (lines ++ more)
Line-left s lines more (front, back, e) =
    (front, back ++ more, ap (λ l. l ++ more) e ∙ append_assoc front (s ∷ back) more)

Line-right : (s : Text) (lines more : List Text) → Line s more → Line s (lines ++ more)
Line-right s lines more (front, back, e) =
    (lines ++ front, back, ap (λ l. lines ++ l) e ∙ sym (append_assoc lines front (s ∷ back)))

first_lines-body : (title body : Text) → body ≢ [] → Line body (first_lines title body)
unfolding first_lines
first_lines-body title [] ne = absurd (ne refl)
first_lines-body title (c ∷ s) ne = elim (Bool-cases (c == b'#')) [
  | inl hash ↦ rw hash ([], [], refl)
  | inr other ↦ rw other ((codes "# " ++ title) ∷ [] ∷ [], [], refl)
]

first_lines-title :
    (title body : Text)
    → starts_with_hash body ≡ false
    → Line (codes "# " ++ title) (first_lines title body)
unfolding first_lines
first_lines-title title [] untitled = ([], [], refl)
first_lines-title title (c ∷ s) untitled = rw untitled ([], [] ∷ (c ∷ s) ∷ [], refl)

-- The first lines hold one that is not empty.
first_lines_any : (title body : Text) → (s : Text) × (s ≢ []) × Line s (first_lines title body)
unfolding first_lines
first_lines_any title [] = (codes "# " ++ title, λ e. absurd cc, ([], [], refl))
first_lines_any title (c ∷ s) =
    (c ∷ s, λ e. absurd cc, first_lines-body title (c ∷ s) (λ e. absurd cc))

criteria_lines_has :
    (before : List Text) (body ac : Text) (front back : List Text)
    → has_own_criteria body ≡ false
    → Line (codes "- " ++ ac) (criteria_lines before body (front ++ ac ∷ back))
unfolding criteria_lines
criteria_lines_has before body ac front back unlisted =
    rw (unlisted, filled front)
      (Line-right (codes "- " ++ ac) (if is_empty before then [] else [] ∷ []) _ (
        codes "## Acceptance Criteria" ∷ [] ∷ map (λ x. codes "- " ++ x) front,
        map (λ x. codes "- " ++ x) back,
        ap (λ l. codes "## Acceptance Criteria" ∷ [] ∷ l)
            (map-append (λ x. codes "- " ++ x) front (ac ∷ back)),
      ))
  where
    filled : (front : List Text) → is_empty (front ++ ac ∷ back) ≡ false
    filled [] = refl
    filled (x ∷ front) = refl

nonempty_part : (s t : Text) → s ≢ [] → Infix s t → t ≢ []
nonempty_part [] t ne part = absurd (ne refl)
nonempty_part (c ∷ s) t ne ([], back, e) = λ h. absurd cc
nonempty_part (c ∷ s) t ne (x ∷ front, back, e) = λ h. absurd cc

-- A brief is never empty. A description that is not blank stands in it as a whole. The title stands in it as
-- a heading, unless the description starts with "#". Each acceptance criterion stands in it as an item,
-- unless the description has a heading of its own for them.
pub brief_carries :
    (card : CardRow)
    → (brief card ≢ [])
      × (body_text card ≢ [] → Infix (body_text card) (brief card))
      × (starts_with_hash (body_text card) ≡ false → Infix (codes "# " ++ card.title) (brief card))
      × ((front back : List Text) (ac : Text)
          → card.acceptance_criteria ≡ front ++ ac ∷ back
          → has_own_criteria (body_text card) ≡ false
          → Infix (codes "- " ++ ac) (brief card))
unfolding brief_lines
brief_carries card =
    let (s, ne, line) = first_lines_any card.title (body_text card) in
    (
      nonempty_part s (brief card) ne
          (Line-in_brief card s (Line-left s (first_lines card.title (body_text card)) _ line)),
      λ ne. Line-in_brief card (body_text card) (
          Line-left (body_text card) (first_lines card.title (body_text card)) _
            (first_lines-body card.title (body_text card) ne)),
      λ untitled. Line-in_brief card (codes "# " ++ card.title) (
          Line-left (codes "# " ++ card.title) (first_lines card.title (body_text card)) _
            (first_lines-title card.title (body_text card) untitled)),
      λ front back ac e unlisted. Line-in_brief card (codes "- " ++ ac) (
          Line-right (codes "- " ++ ac) (first_lines card.title (body_text card)) _ (
            rw e (
              criteria_lines_has (first_lines card.title (body_text card)) (body_text card) ac front
                back unlisted))),
    )

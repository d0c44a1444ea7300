-- ===== src/Intake/Brief.antt =====
-- The brief of a card: `_brief` of apps/backend/cfactory/card_intake.py. In the heading that is looked for,
-- letters and digits are those of ASCII.
use cfactory.Prelude.{
  ℕ, ◌+◌, Bool, true, false, ◌&&◌, ◌||◌, not, Option, none, some, List, [], ◌∷◌, ◌++◌, map, ◌==◌,
  leb, ltb, if◌then◌else◌, Text, codes, is_empty,
}
use cfactory.Prelude.Strings.{strip, lstrip, lower, lower_char, is_space, join}
use cfactory.Cards.{CardRow}
use cfactory.Cards.Keys.{behind_prefix}

abbrev is_word_char : ℕ → Bool
is_word_char c =
    (leb b'a' (lower_char c) && leb (lower_char c) b'z')
    || ((leb b'0' c && leb c b'9') || c == b'_')

-- `\b` behind a letter
abbrev at_word_end : Text → Bool
at_word_end [] = true
at_word_end (c ∷ s) = not (is_word_char c)

abbrev ends_word : Option Text → Bool
ends_word none = false
ends_word (some rest) = at_word_end rest

-- `\s+criteria\b`
abbrev second_word : Option Text → Bool
second_word none = false
second_word (some []) = false
second_word (some (c ∷ s)) = is_space c && ends_word (behind_prefix (codes "criteria") (lstrip s))

-- What stands behind one to six `#`, with that many read before
abbrev behind_hashes : ℕ → Text → Option Text
behind_hashes n [] = none
behind_hashes n (c ∷ s) =
    let more = behind_hashes (n + 1) s in
    if c == b'#' then (if ltb n 6 then more else none) else (if leb 1 n then some (c ∷ s) else none)

abbrev titled : Option Text → Bool
titled none = false
titled (some s) = second_word (behind_prefix (codes "acceptance") (lstrip s))

-- `^#{1,6}\s*acceptance\s+criteria\b` at the start of a line, over lower-case text
unfoldable pub is_heading : Text → Bool
unfolding behind_prefix lstrip
is_heading s = titled (behind_hashes 0 s)

-- The search, over the rest of the text and whether a line starts there
unfoldable pub has_heading_from : Bool → Text → Bool
unfolding is_heading
has_heading_from start [] = false
has_heading_from start (c ∷ s) = start && is_heading (c ∷ s) || has_heading_from (c == b'\n') s

-- `has_own_acs`
unfoldable pub has_own_criteria : Text → Bool
unfolding has_heading_from lower
has_own_criteria body = has_heading_from true (lower body)

abbrev pub text_or_empty : Option Text → Text
text_or_empty none = []
text_or_empty (some s) = s

-- `body`
abbrev pub body_text : CardRow → Text
body_text card = strip (text_or_empty card.description)

abbrev pub starts_with_hash : Text → Bool
starts_with_hash [] = false
starts_with_hash (c ∷ s) = c == b'#'

abbrev title_lines : Text → Text → List Text
title_lines title body =
    if starts_with_hash body
    then []
    else (codes "# " ++ title) ∷ (if is_empty body then [] else [] ∷ [])

abbrev body_lines : Text → List Text
body_lines body = if is_empty body then [] else body ∷ []

-- The lines up to the criteria
unfoldable pub first_lines : Text → Text → List Text
first_lines title body = title_lines title body ++ body_lines body

unfoldable pub criteria_lines : List Text → Text → List Text → List Text
unfolding has_own_criteria
criteria_lines before body criteria =
    if is_empty criteria || has_own_criteria body
    then []
    else ((if is_empty before then [] else [] ∷ [])
        ++ (codes "## Acceptance Criteria" ∷ [] ∷ map (λ ac. codes "- " ++ ac) criteria))

unfoldable pub brief_lines : CardRow → List Text
unfolding first_lines criteria_lines
brief_lines card =
    first_lines card.title (body_text card)
    ++ criteria_lines (first_lines card.title (body_text card)) (body_text card)
        card.acceptance_criteria

-- `_brief`
unfoldable pub brief : CardRow → Text
unfolding brief_lines
brief card = join (codes "\n") (brief_lines card)

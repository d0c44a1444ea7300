-- ===== src/Status/Tokens.antt =====
-- Tokens and separators: a status is the sum of its parts.
use cfactory.Prelude.{
  ℕ, ◌≡◌, refl, sym, ap, subst, ◌∙◌, Bool, true, false, ◌||◌, Option, none, some, List, [], ◌∷◌,
  ◌++◌, map, map-append, arith, Text, codes, is_empty, any-append, All, All-append, text_eq,
}
use mathlib.Core.Path.{ap₂}
use cfactory.Prelude.Strings.{lower}
use cfactory.Status.{
  is_separator, tokens, matches, is_done, is_failed, done_tokens, failed_tokens, stuck_tokens,
  is_stuck, is_terminal, is_dead_stage,
}
use cfactory.Status.Words.{
  is_separator-lower_char, words_from, is_empty-lower, words_from-append, tokens-words_from,
}

-- The tokens of two statuses joined by a separator are those of the one and those of the other.
pub tokens-joined :
    (s : Text) (sep : ℕ) (t : Text)
    → is_separator sep ≡ true
    → tokens (some (s ++ sep ∷ t)) ≡ tokens (some s) ++ tokens (some t)
tokens-joined s sep t h =
    tokens-words_from (s ++ sep ∷ t)
    ∙ (ap (map lower) (words_from-append [] s sep t h)
        ∙ (map-append lower (words_from [] s) (words_from [] t)
            ∙ ap₂ ◌++◌ (sym (tokens-words_from s)) (sym (tokens-words_from t))))

-- A classifier looks at each part of a status by itself: a status of two parts joined by white
-- space, an underscore or a dash matches a vocabulary exactly where one of the parts does.
pub matches-joined :
    (s : Text) (sep : ℕ) (t : Text) (vocabulary : List Text)
    → is_separator sep ≡ true
    → matches (some (s ++ sep ∷ t)) vocabulary
      ≡ (matches (some s) vocabulary || matches (some t) vocabulary)
unfolding matches
matches-joined s sep t vocabulary h =
    rw (tokens-joined s sep t h) (any-append _ (tokens (some s)) (tokens (some t)))

-- So a stage is terminal, and is dead, where one of its parts is.
pub is_terminal-joined :
    (s : Text) (sep : ℕ) (t : Text)
    → is_separator sep ≡ true
    → (is_terminal (some (s ++ sep ∷ t)) ≡ (is_terminal (some s) || is_terminal (some t)))
      × (is_dead_stage (some (s ++ sep ∷ t)) ≡ (is_dead_stage (some s) || is_dead_stage (some t)))
unfolding is_terminal is_dead_stage is_done is_failed is_stuck
is_terminal-joined s sep t h = (
  ground (arith, matches-joined s sep t done_tokens h, matches-joined s sep t failed_tokens h),
  rw (matches-joined s sep t stuck_tokens h, tokens-joined s sep t h)
      (rw (any-append (text_eq (codes "stalled")) (tokens (some s)) (tokens (some t)))
        (ground arith)),
)

-- A word: not empty, and of one piece.
abbrev pub IsWord : Text → Type 0
IsWord t = (is_empty t ≡ false) × All (λ c. is_separator c ≡ false) t

abbrev IsUncut : Text → Type 0
IsUncut = All (λ c. is_separator c ≡ false)

words_from-IsWord : (word s : Text) → IsUncut word → All IsWord (words_from word s)
unfolding words_from
words_from-IsWord [] [] h = tt
words_from-IsWord (d ∷ word) [] h = ((refl, h), tt)
words_from-IsWord word (c ∷ s) h =
    cut_case (is_separator c) refl word h (words_from-IsWord [] s tt)
      (λ joins. words_from-IsWord (word ++ c ∷ []) s (All-append _ word _ h (joins, tt)))
  where
    cut_case :
        (b : Bool)
        → is_separator c ≡ b
        → (word : Text) → IsUncut word
        → All IsWord (words_from [] s)
        → (is_separator c ≡ false → All IsWord (words_from (word ++ c ∷ []) s))
        → All IsWord (words_from word (c ∷ s))
    cut_case true e [] h next longer = rw e next
    cut_case true e (d ∷ word) h next longer = rw e ((refl, h), next)
    cut_case false e word h next longer = rw e (longer e)

lower-IsUncut : (t : Text) → IsUncut t → IsUncut (lower t)
unfolding lower
lower-IsUncut [] h = tt
lower-IsUncut (c ∷ t) h = (is_separator-lower_char c ∙ h.0, lower-IsUncut t h.1)

map-lower-IsWord : (ws : List Text) → All IsWord ws → All IsWord (map lower ws)
map-lower-IsWord [] h = tt
map-lower-IsWord (w ∷ ws) h =
    ((is_empty-lower w ∙ h.0.0, lower-IsUncut w h.0.1), map-lower-IsWord ws h.1)

-- Every token of every status is a word, so that a vocabulary entry with a separator in it, as
-- "in_progress" has, is never matched.
pub tokens-IsWord : (status : Option Text) → All IsWord (tokens status)
tokens-IsWord none = unfold tokens in tt
tokens-IsWord (some s) =
    subst (All IsWord) (sym (tokens-words_from s))
      (map-lower-IsWord (words_from [] s) (words_from-IsWord [] s tt))

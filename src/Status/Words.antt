-- ===== src/Status/Words.antt =====
-- The words of a status in one pass over its text, and what stripping and letter case do to them.
use cfactory.Prelude.{
  ℕ, ◌+◌, ◌≡◌, ◌≢◌, ◌≤◌, refl, sym, ap, ◌∙◌, inl, inr, ◌⊎◌, Bool, true, false, ◌&&◌, not, some,
  List, [], ◌∷◌, ◌++◌, map, map-append, append_assoc, append-nil, arith, if◌then◌else◌, Text,
  is_empty, keep_if, Bool-cases, leb,
}
use cfactory.Prelude.Strings.{
  is_space, lower, lower_char, lstrip, rstrip, strip, split_by, cons_head,
}
use cfactory.Status.{is_separator, words, tokens}

space_separates : (c : ℕ) → is_space c ≡ true → is_separator c ≡ true
unfolding is_separator
space_separates c h = rw h

letter_joins : (c : ℕ) → 65 ≤ c → c ≤ 122 → c ≢ 95 → is_separator c ≡ false
unfolding is_separator
letter_joins c h k n = ground arith

pub is_separator-lower_char : (c : ℕ) → is_separator (lower_char c) ≡ is_separator c
is_separator-lower_char c = elim (Bool-cases (leb b'A' c && leb c b'Z')) [
  | inl upper ↦ rw upper (
      letter_joins (c + 32) (ground arith) (ground arith) (λ e. ground arith)
      ∙ sym (letter_joins c (ground arith) (ground arith) (λ e. ground arith)))
  | inr other ↦ rw other refl
]

-- One pass over the text, with the word that is being read.
unfoldable pub words_from : Text → Text → List Text
words_from word [] = if is_empty word then [] else word ∷ []
words_from word (c ∷ s) =
    let next = words_from [] s in
    let longer = words_from (word ++ c ∷ []) s in
    if is_separator c then (if is_empty word then next else word ∷ next) else longer

abbrev prefix_head : Text → List Text → List Text
prefix_head word [] = []
prefix_head word (w ∷ ws) = (word ++ w) ∷ ws

abbrev nonempty : List Text → List Text
nonempty = keep_if (λ t. not (is_empty t))

prefix_head-nil : (ws : List Text) → prefix_head [] ws ≡ ws
prefix_head-nil [] = refl
prefix_head-nil (w ∷ ws) = refl

prefix_head-cons_head :
    (word : Text) (c : ℕ) (ws : List Text)
    → is_empty ws ≡ false
    → prefix_head word (cons_head c ws) ≡ prefix_head (word ++ c ∷ []) ws
prefix_head-cons_head word c [] h = cc
prefix_head-cons_head word c (w ∷ ws) h = rw (append_assoc word (c ∷ []) w) refl

nonempty-cons :
    (word : Text) (ws : List Text)
    → (if is_empty word then nonempty ws else word ∷ nonempty ws) ≡ nonempty (word ∷ ws)
nonempty-cons [] ws = refl
nonempty-cons (c ∷ word) ws = refl

is_empty-cons_head : (c : ℕ) (ws : List Text) → is_empty (cons_head c ws) ≡ false
is_empty-cons_head c [] = refl
is_empty-cons_head c (w ∷ ws) = refl

is_empty-split_by : (p : ℕ → Bool) (s : Text) → is_empty (split_by p s) ≡ false
unfolding split_by
is_empty-split_by p [] = refl
is_empty-split_by p (c ∷ s) = ground (arith, is_empty-cons_head c (split_by p s))

words_from-split_by :
    (word s : Text) → words_from word s ≡ nonempty (prefix_head word (split_by is_separator s))
unfolding words_from split_by
words_from-split_by word [] = rw append-nil (ground arith)
words_from-split_by word (c ∷ s) =
    split_case (is_separator c) refl (words_from-split_by [] s)
      (words_from-split_by (word ++ c ∷ []) s)
  where
    split_case :
        (b : Bool)
        → is_separator c ≡ b
        → words_from [] s ≡ nonempty (prefix_head [] (split_by is_separator s))
        → words_from (word ++ c ∷ []) s
          ≡ nonempty (prefix_head (word ++ c ∷ []) (split_by is_separator s))
        → words_from word (c ∷ s) ≡ nonempty (prefix_head word (split_by is_separator (c ∷ s)))
    split_case true cut next longer =
        rw (cut, next, prefix_head-nil (split_by is_separator s), append-nil)
          (nonempty-cons word (split_by is_separator s))
    split_case false joins next longer = rw joins (
        longer
        ∙ ap nonempty (sym (prefix_head-cons_head word c _ (is_empty-split_by is_separator s))))

words-eq-words_from : (s : Text) → words s ≡ words_from [] s
unfolding words
words-eq-words_from s =
    sym (words_from-split_by [] s ∙ ap nonempty (prefix_head-nil (split_by is_separator s)))

words_from_same_head :
    (word : Text) (c : ℕ) (s t : Text)
    → words_from [] s ≡ words_from [] t
    → words_from (word ++ c ∷ []) s ≡ words_from (word ++ c ∷ []) t
    → words_from word (c ∷ s) ≡ words_from word (c ∷ t)
unfolding words_from
words_from_same_head word c s t e f = rw (e, f) refl

rstrip-cons :
    (c : ℕ) (s : Text)
    → (rstrip (c ∷ s) ≡ c ∷ rstrip s)
      ⊎ ((rstrip (c ∷ s) ≡ []) × (rstrip s ≡ []) × (is_space c ≡ true))
unfolding rstrip
rstrip-cons c s = drop_case (rstrip s) refl (is_space c) refl
  where
    drop_case :
        (rest : Text)
        → rstrip s ≡ rest
        → (b : Bool) → is_space c ≡ b
        → (rstrip (c ∷ s) ≡ c ∷ rstrip s)
          ⊎ ((rstrip (c ∷ s) ≡ []) × (rstrip s ≡ []) × (is_space c ≡ true))
    drop_case [] e true h = inr (rw (e, h) refl, e, h)
    drop_case [] e false h = inl (rw (e, h) refl)
    drop_case (d ∷ rest) e b h = inl (rw e refl)

words_from_blank :
    (word : Text) (c : ℕ) (s : Text)
    → is_separator c ≡ true
    → words_from [] s ≡ []
    → words_from word (c ∷ s) ≡ words_from word []
unfolding words_from
words_from_blank word c s cut e = rw (cut, e) refl

words_from-rstrip : (word s : Text) → words_from word (rstrip s) ≡ words_from word s
words_from-rstrip word [] = unfold rstrip in refl
words_from-rstrip word (c ∷ s) =
    joined (words_from-rstrip [] s) (words_from-rstrip (word ++ c ∷ []) s) (rstrip-cons c s)
  where
    joined :
        words_from [] (rstrip s) ≡ words_from [] s
        → words_from (word ++ c ∷ []) (rstrip s) ≡ words_from (word ++ c ∷ []) s
        → (rstrip (c ∷ s) ≡ c ∷ rstrip s)
          ⊎ ((rstrip (c ∷ s) ≡ []) × (rstrip s ≡ []) × (is_space c ≡ true))
        → words_from word (rstrip (c ∷ s)) ≡ words_from word (c ∷ s)
    joined next longer (inl e) =
        ap (words_from word) e ∙ words_from_same_head word c (rstrip s) s next longer
    joined next longer (inr (e, f, blank)) =
        ap (words_from word) e
        ∙ sym (
            words_from_blank word c s (space_separates c blank)
              (sym next ∙ (ap (words_from []) f ∙ (unfold words_from in refl))))

words_from-lstrip : (s : Text) → words_from [] (lstrip s) ≡ words_from [] s
unfolding lstrip
words_from-lstrip [] = refl
words_from-lstrip (c ∷ s) = blank_case (is_space c) refl (words_from-lstrip s)
  where
    blank_case :
        (b : Bool)
        → is_space c ≡ b
        → words_from [] (lstrip s) ≡ words_from [] s
        → words_from [] (lstrip (c ∷ s)) ≡ words_from [] (c ∷ s)
    blank_case true h next = rw h (next ∙ (unfold words_from in rw (space_separates c h) refl))
    blank_case false h next = rw h refl

lower-snoc : (word : Text) (c : ℕ) → lower (word ++ c ∷ []) ≡ lower word ++ lower_char c ∷ []
unfolding lower
lower-snoc word c = map-append _ word (c ∷ [])

pub is_empty-lower : (word : Text) → is_empty (lower word) ≡ is_empty word
unfolding lower
is_empty-lower [] = refl
is_empty-lower (c ∷ word) = refl

lower_step :
    (word : Text) (c : ℕ) (s : Text)
    → words_from [] (lower s) ≡ map lower (words_from [] s)
    → words_from (lower word ++ lower_char c ∷ []) (lower s)
      ≡ map lower (words_from (word ++ c ∷ []) s)
    → words_from (lower word) (lower_char c ∷ lower s) ≡ map lower (words_from word (c ∷ s))
unfolding words_from
lower_step word c s next longer =
    rw (is_separator-lower_char c, is_empty-lower word, next, longer)
      (branches (is_separator c) (is_empty word))
  where
    branches :
        (cut blank : Bool)
        → (if cut
            then (if blank
                then map lower (words_from [] s)
                else lower word ∷ map lower (words_from [] s))
            else map lower (words_from (word ++ c ∷ []) s))
          ≡ map lower (
              if cut
              then (if blank then words_from [] s else word ∷ words_from [] s)
              else words_from (word ++ c ∷ []) s)
    branches true true = refl
    branches true false = refl
    branches false blank = refl

words_from-lower :
    (word s : Text) → words_from (lower word) (lower s) ≡ map lower (words_from word s)
unfolding lower
words_from-lower [] [] = unfold words_from in refl
words_from-lower (d ∷ word) [] = unfold words_from in refl
words_from-lower [] (c ∷ s) =
    lower_step [] c s (words_from-lower [] s) (words_from-lower (c ∷ []) s)
words_from-lower (d ∷ word) (c ∷ s) =
    lower_step (d ∷ word) c s (words_from-lower [] s)
      (rw (← lower-snoc (d ∷ word) c) (words_from-lower ((d ∷ word) ++ c ∷ []) s))

pub words_from-append :
    (word s : Text) (sep : ℕ) (t : Text)
    → is_separator sep ≡ true
    → words_from word (s ++ sep ∷ t) ≡ words_from word s ++ words_from [] t
unfolding words_from
words_from-append word [] sep t h = rw h (ground arith)
words_from-append word (c ∷ s) sep t h =
    ground (arith, words_from-append [] s sep t h, words_from-append (word ++ c ∷ []) s sep t h)

pub tokens-words_from : (s : Text) → tokens (some s) ≡ map lower (words_from [] s)
unfolding tokens
tokens-words_from [] = unfold words_from in refl
tokens-words_from (c ∷ s) =
    words-eq-words_from (lower (strip (c ∷ s)))
    ∙ (words_from-lower-nil (strip (c ∷ s))
        ∙ ap (map lower)
            (unfold strip in words_from-rstrip [] (lstrip (c ∷ s)) ∙ words_from-lstrip (c ∷ s)))
  where
    words_from-lower-nil : (t : Text) → words_from [] (lower t) ≡ map lower (words_from [] t)
    words_from-lower-nil t = unfold lower in words_from-lower [] t

-- ===== src/Status/Examples.antt =====
-- The theorems on the status taxonomy at concrete statuses.
use cfactory.Prelude.{◌≡◌, refl, true, false, ◌||◌, some, ◌∷◌, ◌++◌, codes}
use cfactory.Prelude.Strings.{strip, lower, split_by}
use cfactory.Status.{
  is_separator, tokens, matches, is_terminal, is_dead_stage, review_tokens, is_running, is_done,
  is_failed, is_review, is_queued, is_stuck,
}
use cfactory.Status.Tokens.{matches-joined}

matches-joined_example : matches (some (codes "human" ++ b'_' ∷ codes "Review")) review_tokens ≡ (
    matches (some (codes "human")) review_tokens || matches (some (codes "Review")) review_tokens)
unfolding is_separator
matches-joined_example = matches-joined (codes "human") b'_' (codes "Review") review_tokens refl

-- "already" holds no token "ready".
already_runs : is_running (some (codes "already_started")) ≡ true
unfolding is_running is_terminal is_done is_failed is_review is_queued matches tokens strip split_by
    is_separator lower
already_runs = refl

installed_lives : is_dead_stage (some (codes "installed")) ≡ false
unfolding is_dead_stage is_stuck matches tokens strip split_by is_separator lower
installed_lives = refl

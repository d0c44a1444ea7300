-- ===== src/Status.antt =====
-- The status taxonomy: apps/backend/cfactory/_contracts/factory_contracts/__init__.py and
-- apps/backend/cfactory/status_taxonomy.py. A status is split into lower-case tokens, and a
-- classifier asks whether some token is in its vocabulary.
pub mod Words
pub mod Tokens
mod Examples
use cfactory.Prelude.{
  ℕ, Bool, true, false, ◌&&◌, ◌||◌, not, Option, none, some, List, [], ◌∷◌, map, if◌then◌else◌,
  Text, codes, mem_text, truthy, is_empty, keep_if, any, ◌==◌,
}
use Prim.Native.String.{String}
use cfactory.Prelude.Strings.{is_space, lower, strip, split_by}

abbrev pub failed_tokens : List Text
failed_tokens = map codes (
    "abort" ∷ "aborted" ∷ "block" ∷ "blocked" ∷ "cancel" ∷ "canceled" ∷ "cancelled" ∷ "discard"
    ∷ "discarded" ∷ "error" ∷ "errored" ∷ "fail" ∷ "failed" ∷ "failure" ∷ "reject" ∷ "rejected"
    ∷ [])

abbrev pub done_tokens : List Text
done_tokens = map codes (
    "accept" ∷ "accepted" ∷ "approved" ∷ "closed" ∷ "complete" ∷ "completed" ∷ "done" ∷ "emitted"
    ∷ "merged" ∷ "passed" ∷ "ready" ∷ "shipped" ∷ "skip" ∷ "skipped" ∷ "succeeded" ∷ "success"
    ∷ "triaged" ∷ [])

abbrev pub review_tokens : List Text
review_tokens = map codes ("awaiting" ∷ "review" ∷ "reviewing" ∷ [])

abbrev pub queued_tokens : List Text
queued_tokens = map codes ("backlog" ∷ "draft" ∷ "icebox" ∷ "pending" ∷ "queued" ∷ "todo" ∷ [])

abbrev pub running_tokens : List Text
running_tokens = map codes (
    "act" ∷ "building" ∷ "coding" ∷ "executing" ∷ "generating" ∷ "in_progress" ∷ "inprogress"
    ∷ "planning" ∷ "progress" ∷ "running" ∷ "started" ∷ "working" ∷ [])

abbrev pub stuck_tokens : List Text
stuck_tokens = map codes ("stuck" ∷ [])

-- A character of the class `[\s_\-]` of `_SPLIT_RE`
unfoldable pub is_separator : ℕ → Bool
is_separator c = is_space c || c == b'_' || c == b'-'

-- The non-empty pieces between separators; a run of separators gives empty pieces only.
unfoldable pub words : Text → List Text
words s = keep_if (λ t. not (is_empty t)) (split_by is_separator s)

-- `_tokens`, the set as a list
unfoldable pub tokens : Option Text → List Text
unfolding words
tokens none = []
tokens (some s) = if is_empty s then [] else words (lower (strip s))

unfoldable pub matches : Option Text → List Text → Bool
matches status vocabulary = any (λ t. mem_text t vocabulary) (tokens status)

unfoldable pub is_failed : Option Text → Bool
is_failed status = matches status failed_tokens

unfoldable pub is_done : Option Text → Bool
is_done status = matches status done_tokens

unfoldable pub is_review : Option Text → Bool
is_review status = matches status review_tokens

unfoldable pub is_queued : Option Text → Bool
is_queued status = matches status queued_tokens

unfoldable pub is_stuck : Option Text → Bool
is_stuck status = matches status stuck_tokens

unfoldable pub is_terminal : Option Text → Bool
is_terminal status = is_done status || is_failed status

unfoldable pub is_failure_or_stuck : Option Text → Bool
is_failure_or_stuck status = is_failed status || is_stuck status

unfoldable pub is_running : Option Text → Bool
is_running status =
    truthy status
    && (not (is_terminal status) && (not (is_review status) && not (is_queued status)))

unfoldable pub is_active : Option Text → Bool
is_active status =
    not (truthy status)
    || (not (is_terminal status) && (not (is_review status) && not (is_queued status)))

-- `is_dead_stage` of status_taxonomy.py
unfoldable pub is_dead_stage : Option Text → Bool
is_dead_stage status = is_stuck status || mem_text (codes "stalled") (tokens status)

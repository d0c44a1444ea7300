-- ===== src/WorkItem/Polls.antt =====
-- Repeated polls: `upsert_snapshot` of apps/backend/cfactory/store.py on a row that is there.
use mathlib.Core.Bool.{decide}
use cfactory.Prelude.{
  ℕ, ◌≡◌, refl, inl, inr, true, false, ◌&&◌, not, Option, none, some, Text, Bool-cases, truthy,
  option_eq, option_eq_iff, arith, if◌then◌else◌,
}
use cfactory.WorkItem.{ServiceState, WorkItemRow}
use cfactory.WorkItem.Usage.{TokenUsage, TokenUsage-discrete}
use cfactory.WorkItem.Slices.{or_usage}
use cfactory.WorkItem.Snapshots.{
  Snapshot, carry_blind, usage_eq, same_state, title_needed, leaves_row, write_snapshot, poll_row,
}
use cfactory.WorkItem.Kept.{slice}
use cfactory.WorkItem.Annotations.{written_by_poll}

decide_refl : {A : Type 0} (a : A) (d : Dec (a ≡ a)) → decide d ≡ true
unfolding decide
decide_refl a (yes e) = refl
decide_refl a (no n) = absurd (n refl)

usage_eq_refl : (u : Option TokenUsage) → usage_eq u u ≡ true
unfolding usage_eq
usage_eq_refl none = refl
usage_eq_refl (some u) = decide_refl u (TokenUsage-discrete u u)

option_eq_refl : (a : Option Text) → option_eq a a ≡ true
option_eq_refl a = (option_eq_iff a a).1 refl

or_usage_twice : (u v : Option TokenUsage) → or_usage u (or_usage u v) ≡ or_usage u v
or_usage_twice none v = refl
or_usage_twice (some u) v = refl

-- A poll agrees with the slice that it has just written.
same_state-written :
    (state prev : ServiceState)
    → same_state (carry_blind state prev) (carry_blind state (carry_blind state prev)) ≡ true
unfolding same_state carry_blind
same_state-written state prev = rw (option_eq_refl state.status) (
    rw (option_eq_refl state.phase) (
      rw (or_usage_twice state.usage prev.usage) (usage_eq_refl (or_usage state.usage prev.usage))))

title_twice :
    (t o : Option Text)
    → (truthy t && not (truthy (if truthy t && not (truthy o) then t else o))) ≡ false
title_twice t o = ground arith

title_settled :
    (now : ℕ) (s : Snapshot) (row : WorkItemRow) (state : ServiceState)
    → title_needed s.title (write_snapshot now s.service state s.title row) ≡ false
unfolding write_snapshot
title_settled now s row state = title_twice s.title row.title

title_polled :
    (now : ℕ) (s : Snapshot) (row : WorkItemRow)
    → leaves_row s row ≡ false
    → title_needed s.title (poll_row now s row) ≡ false
unfolding poll_row
title_polled now s row written =
    rw written (title_settled now s row (carry_blind s.state (slice s.service row)))

leaves_row-poll_row :
    (now : ℕ) (s : Snapshot) (row : WorkItemRow)
    → leaves_row s row ≡ false
    → leaves_row s (poll_row now s row) ≡ true
unfolding leaves_row
leaves_row-poll_row now s row written = rw (title_polled now s row written) (
    rw (written_by_poll now s row written)
      (rw (same_state-written s.state (slice s.service row)) refl))

poll_row_left :
    (now : ℕ) (s : Snapshot) (row : WorkItemRow)
    → leaves_row s row ≡ true
    → poll_row now s row ≡ row
unfolding poll_row
poll_row_left now s row h = rw h refl

-- A poll that is repeated leaves the row as it is, its clock included: the second of two polls of one
-- snapshot, at any later time, changes nothing.
pub poll_again :
    (now later : ℕ) (s : Snapshot) (row : WorkItemRow)
    → poll_row later s (poll_row now s row) ≡ poll_row now s row
poll_again now later s row = elim (Bool-cases (leaves_row s row)) [
  | inl left ↦ rw (poll_row_left now s row left) (poll_row_left later s row left)
  | inr written ↦ poll_row_left later s (poll_row now s row) (leaves_row-poll_row now s row written)
]

-- A poll moves the clock of a row only for news: where it needs no title, reports the status and the
-- phase that are there and brings no usage, the row stays as it is.
pub poll_without_news :
    (now : ℕ) (s : Snapshot) (row : WorkItemRow)
    → title_needed s.title row ≡ false
    → s.state.status ≡ (slice s.service row).status
    → s.state.phase ≡ (slice s.service row).phase
    → s.state.usage ≡ none
    → poll_row now s row ≡ row
poll_without_news now s row titled status phase usage = poll_row_left now s row (
    unfold leaves_row carry_blind same_state in
    rw titled (
      rw status (
        rw phase (
          rw usage (
            rw (option_eq_refl (slice s.service row).status) (
              rw (option_eq_refl (slice s.service row).phase)
                (rw (usage_eq_refl (slice s.service row).usage) refl)))))))

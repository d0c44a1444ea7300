-- ===== src/Audit.antt =====
-- apps/backend/cfactory/audit.py: the tamper-evident trail of confirmed actions.
pub mod Entry
pub mod Scan
pub mod Trail
pub mod Chain
pub mod Links
pub mod Sound
pub mod Verdict
pub mod Tamper
pub mod Edits
pub mod Deletions
pub mod Forks
pub mod Race
mod Examples

-- ===== src/Audit/Race.antt =====
-- Concurrent appends of audit.py, as interleavings of transactions: `_serialise_sqlite_appends`
-- (`BEGIN IMMEDIATE`) and `_lock_chain` (the advisory lock) give the chain to one transaction at a
-- time, from before its read of the tail until its commit or rollback.
use cfactory.Prelude.{
  ℕ, ◌≡◌, ◌≢◌, refl, sym, ap, ◌∙◌, inl, inr, false, Option, none, some, List, [], ◌∷◌, ◌++◌, arith,
  Text, ◌==◌, ==_iff, Bool-cases, if◌then◌else◌,
}
use cfactory.Audit.Entry.{Crypto, IsCrypto, Fields, Row, compute_entry_hash}
use cfactory.Audit.Scan.{check}
use cfactory.Audit.Trail.{tail_hash}
use cfactory.Audit.Chain.{Linked, Linked-append}
use cfactory.Audit.Links.{Linked-IsOpen}
use cfactory.Audit.Sound.{check-Linked}

-- Where a transaction of `record` stands: the tail that it read is its own until it commits.
pub data Phase : Type 0 where
  idle holding : Phase
  has_read : Option Text → Phase

pub record Database : Type 0 where
  pub rows : List Row
  pub holder : Option ℕ
  pub phase : ℕ → Phase

abbrev pub set_phase : (ℕ → Phase) → ℕ → Phase → ℕ → Phase
set_phase phase t p u = if u == t then p else phase u

-- The row that a transaction adds behind the tail it read.
abbrev pub row_behind : Crypto → Text → ℕ → Fields → Option Text → Row
row_behind c secret id f prev = record {
  id = id;
  fields = f;
  prev_hash = prev;
  entry_hash = compute_entry_hash c secret f prev;
}

module _ (c : Crypto) (secret : Text) where
  pub data Step (d : Database) : Database → Type 0 where
    -- the transaction opens, once nobody holds the chain
    begin :
        (t : ℕ)
        → d.holder ≡ none
        → d.phase t ≡ idle
        → Step d (record d { holder = some t; phase = set_phase d.phase t holding })
    read_tail :
        (t : ℕ)
        → d.phase t ≡ holding
        → Step d (record d { phase = set_phase d.phase t (has_read (tail_hash none d.rows)) })
    commit :
        (t id : ℕ) (f : Fields) (prev : Option Text)
        → d.phase t ≡ has_read prev
        → Step d (record {
          rows = d.rows ++ row_behind c secret id f prev ∷ [];
          holder = none;
          phase = set_phase d.phase t idle;
        })
    rollback :
        (t : ℕ)
        → d.phase t ≢ idle
        → Step d (record d { holder = none; phase = set_phase d.phase t idle })

  pub data Steps (d : Database) : Database → Type 0 where
    start : Steps d d
    then_step : {e f : Database} → Steps d e → Step e f → Steps d f

  -- Only the holder is under way, and what it read is still the tail.
  pub record IsSerial (d : Database) : Type 0 where
    pub linked : Linked c secret none d.rows
    pub exclusive : (t : ℕ) → d.phase t ≢ idle → d.holder ≡ some t
    pub fresh :
        (t : ℕ) (prev : Option Text) → d.phase t ≡ has_read prev → prev ≡ tail_hash none d.rows

  -- While one transaction is under way every other one is idle.
  alone :
      (d : Database) (t u : ℕ)
      → IsSerial d
      → d.phase t ≢ idle
      → (u == t) ≡ false
      → ¬ (d.phase u ≢ idle)
  alone d t u s busy other h =
      let same : some u ≡ some t = sym (s.exclusive u h) ∙ s.exclusive t busy in
      ground (arith, same)

  Step-IsSerial : {d e : Database} → IsSerial d → Step d e → IsSerial e
  Step-IsSerial {d} s (begin t free here) = record {
    linked = s.linked;
    exclusive = λ u. elim (Bool-cases (u == t)) [
      | inl same ↦ λ _. ap some (sym ((==_iff u t).0 same))
      | inr other ↦ rw other (λ busy. cc (s.exclusive u busy, free))
    ];
    fresh = λ u prev. elim (Bool-cases (u == t)) [
      | inl same ↦ rw same (λ e. cc)
      | inr other ↦ rw other (s.fresh u prev)
    ];
  }
  Step-IsSerial {d} s (read_tail t here) = record {
    linked = s.linked;
    exclusive = λ u. elim (Bool-cases (u == t)) [
      | inl same ↦ λ _. s.exclusive t (λ e. cc) ∙ ap some (sym ((==_iff u t).0 same))
      | inr other ↦ rw other (s.exclusive u)
    ];
    fresh = λ u prev. elim (Bool-cases (u == t)) [
      | inl same ↦ rw same (λ e. cc)
      | inr other ↦ rw other (s.fresh u prev)
    ];
  }
  Step-IsSerial {d} s (commit t id f prev here) =
      let busy : d.phase t ≢ idle = λ e. cc in
      record {
        linked = Linked-append c secret none d.rows _ s.linked (s.fresh t prev here, refl, tt);
        exclusive = λ u. elim (Bool-cases (u == t)) [
          | inl same ↦ rw same (λ h. absurd (h refl))
          | inr other ↦ rw other (λ h. absurd (alone d t u s busy other h))
        ];
        fresh = λ u p. elim (Bool-cases (u == t)) [
          | inl same ↦ rw same (λ e. cc)
          | inr other ↦ rw other (λ e. absurd (alone d t u s busy other (λ i. cc)))
        ];
      }
  Step-IsSerial {d} s (rollback t busy) = record {
    linked = s.linked;
    exclusive = λ u. elim (Bool-cases (u == t)) [
      | inl same ↦ rw same (λ h. absurd (h refl))
      | inr other ↦ rw other (λ h. absurd (alone d t u s busy other h))
    ];
    fresh = λ u p. elim (Bool-cases (u == t)) [
      | inl same ↦ rw same (λ e. cc)
      | inr other ↦ rw other (s.fresh u p)
    ];
  }

  Steps-IsSerial : {d e : Database} → IsSerial d → Steps d e → IsSerial e
  Steps-IsSerial s start = s
  Steps-IsSerial s (then_step r st) = Step-IsSerial (Steps-IsSerial s r) st

-- However the transactions of any number of appenders interleave, from a linked table with nobody
-- under way, the table stays without anomaly.
pub check-interleaved :
    (c : Crypto) (secret : Text) (d e : Database)
    → IsCrypto c
    → Linked c secret none d.rows
    → ((t : ℕ) → d.phase t ≡ idle)
    → Steps c secret d e
    → check c secret e.rows ≡ []
check-interleaved c secret d e ic l quiet steps =
    let serial : IsSerial c secret e =
      Steps-IsSerial c secret
        (record {
          linked = l;
          exclusive = λ t h. absurd (h (quiet t));
          fresh = λ t prev h. cc (quiet t);
        })
        steps in
    check-Linked c secret e.rows (Linked-IsOpen c ic secret e.rows serial.linked).distinct
      serial.linked

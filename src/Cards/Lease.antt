-- ===== src/Cards/Lease.antt =====
-- The lease of a poll: `claim_import_lease` of apps/backend/cfactory/cards.py, with its read and its write as
-- steps of their own, since two replicas may read before either writes. Times are in microseconds.
use cfactory.Prelude.{
  ℕ, ◌+◌, ◌≤◌, ◌≡◌, refl, inl, inr, Bool, true, false, Option, none, some, List, [], ◌∷◌, ◌++◌, ltb,
  ◌==◌, if◌then◌else◌, arith, Bool-cases,
}

-- The row of a project, with its column `poll_leased_until`; `none` while there is no row
abbrev pub Lease : Type 0
Lease = Option (Option ℕ)

-- `previous is not None and previous > now`
unfoldable pub is_leased : Option ℕ → ℕ → Bool
is_leased none now = false
is_leased (some end) now = ltb now end

-- `ImportStateRow.poll_leased_until == row.poll_leased_until`, of the row as it is and as it was read
unfoldable pub same_lease : Option ℕ → Lease → Bool
same_lease seen none = false
same_lease none (some none) = true
same_lease none (some (some end)) = false
same_lease (some seen) (some none) = false
same_lease (some seen) (some (some end)) = seen == end

-- The write, by what was read at the same call's time: an insert, which the unique index refuses where there
-- is a row by now, or an update of the row that was read
unfoldable pub claim_import_lease : (now ttl : ℕ) → Lease → Lease → Lease × Bool
unfolding is_leased same_lease
claim_import_lease now ttl none none = (some (some (now + ttl)), true)
claim_import_lease now ttl none (some lease) = (some lease, false)
claim_import_lease now ttl (some seen) row =
    if is_leased seen now
    then (row, false)
    else (if same_lease seen row then (some (some (now + ttl)), true) else (row, false))

-- A lease that was granted, with the row as its call had read it
pub record Grant : Type 0 where
  pub start : ℕ
  pub end : ℕ
  pub seen : Lease

-- The row, the calls that have read it and not written yet, and the leases that were granted, the last first
pub record Polling : Type 0 where
  pub row : Lease
  pub readers : List (ℕ × Lease)
  pub grants : List Grant

abbrev pub add_grant : Bool → Grant → List Grant → List Grant
add_grant true g grants = g ∷ grants
add_grant false g grants = grants

-- The write of a call, and the grant if it won
unfoldable pub write_claim : (ttl now : ℕ) → Lease → List (ℕ × Lease) → Polling → Polling
unfolding claim_import_lease
write_claim ttl now seen readers s =
    let (row, won) = claim_import_lease now ttl seen s.row in
    record {
      row = row;
      readers = readers;
      grants = add_grant won (record { start = now; end = now + ttl; seen = seen }) s.grants;
    }

module _ (ttl : ℕ) where
  pub data PollStep (s : Polling) : Polling → Type 0 where
    -- A call reads the row.
    reads : (now : ℕ) → PollStep s (record s { readers = (now, s.row) ∷ s.readers })
    -- A call that has read the row writes it.
    writes :
        (front back : List (ℕ × Lease)) (now : ℕ) (seen : Lease)
        → s.readers ≡ front ++ (now, seen) ∷ back
        → PollStep s (write_claim ttl now seen (front ++ back) s)
    -- The row is made for a watermark, without a lease.
    watermarked : s.row ≡ none → PollStep s (record s { row = some none })

  pub data PollSteps (s : Polling) : Polling → Type 0 where
    still : PollSteps s s
    poll : {t u : Polling} → PollSteps s t → PollStep t u → PollSteps s u

  -- Each lease starts when the one before it has ended, its call had read the row as the one before it
  -- left it, and the row has the end of the last.
  abbrev pub Apart : List Grant → Type 0
  Apart [] = Unit
  Apart (g ∷ []) = Unit
  Apart (g ∷ h ∷ grants) = (h.end ≤ g.start) × (g.seen ≡ some (some h.end)) × Apart (h ∷ grants)

  abbrev pub HasLast : Lease → List Grant → Type 0
  HasLast row [] = Unit
  HasLast row (g ∷ grants) = row ≡ some (some g.end)

  abbrev pub OneWinner : Polling → Type 0
  OneWinner s = Apart s.grants × HasLast s.row s.grants

  -- A grant follows the end of the last one.
  after_last :
      (now end : ℕ) (seen : Option ℕ)
      → is_leased seen now ≡ false
      → same_lease seen (some (some end)) ≡ true
      → (end ≤ now) × (some seen ≡ some (some end))
  unfolding is_leased same_lease
  after_last now end none free same = absurd cc
  after_last now end (some x) free same =
      let read : x ≡ end = ground (arith, same) in (ground (arith, free, same), rw read refl)

  granted_after :
      (now : ℕ) (seen : Option ℕ) (row : Lease) (grants : List Grant)
      → is_leased seen now ≡ false
      → same_lease seen row ≡ true
      → Apart grants
      → HasLast row grants
      → Apart (record { start = now; end = now + ttl; seen = some seen } ∷ grants)
  granted_after now seen row [] free same apart last = tt
  granted_after now seen row (g ∷ grants) free same apart last =
      let (later, read) = after_last now g.end seen free (rw last at same) in (later, read, apart)

  write_claim-OneWinner :
      (now : ℕ) (seen row : Lease) (readers rest : List (ℕ × Lease)) (grants : List Grant)
      → OneWinner (record { row = row; readers = readers; grants = grants })
      → OneWinner
          (write_claim ttl now seen rest (record { row = row; readers = readers; grants = grants }))
  unfolding write_claim claim_import_lease
  write_claim-OneWinner now none none readers rest [] w = (tt, refl)
  write_claim-OneWinner now none none readers rest (g ∷ grants) w = absurd (gone w.1)
    where
      gone : {x : Option ℕ} → none ≡ some x → ⊥
      gone e = cc
  write_claim-OneWinner now none (some lease) readers rest grants w = w
  write_claim-OneWinner now (some seen) row readers rest grants w =
      elim (Bool-cases (is_leased seen now)) [
        | inl leased ↦ rw leased w
        | inr free ↦ elim (Bool-cases (same_lease seen row)) [
          | inl same ↦ rw free (rw same (granted_after now seen row grants free same w.0 w.1, refl))
          | inr changed ↦ rw free (rw changed w)
        ]
      ]

  -- One replica polls at a time: however the reads and writes of any number of calls interleave, leases that
  -- were granted do not overlap, and a call is granted one only if it had read the row with the end of the
  -- lease before, so that every lease but the first went to a call that saw the one before it. The steps
  -- start from a state of which that holds already, as of one where no lease was granted.
  pub PollSteps-OneWinner : (s t : Polling) → OneWinner s → PollSteps s t → OneWinner t
  PollSteps-OneWinner s t w still = w
  PollSteps-OneWinner s t w (poll {t = v} steps (reads now)) = PollSteps-OneWinner s v w steps
  PollSteps-OneWinner s t w (poll {t = v} steps (writes front back now seen here)) =
      write_claim-OneWinner now seen v.row v.readers (front ++ back) v.grants
        (PollSteps-OneWinner s v w steps)
  PollSteps-OneWinner s t w (poll {t = v} steps (watermarked absent)) =
      unleased v.grants (PollSteps-OneWinner s v w steps)
    where
      unleased :
          (grants : List Grant)
          → Apart grants × HasLast v.row grants
          → Apart grants × HasLast (some none) grants
      unleased [] k = (tt, tt)
      unleased (g ∷ grants) k = absurd (clash absent k.1)
        where
          clash : v.row ≡ none → v.row ≡ some (some g.end) → ⊥
          clash e f = cc

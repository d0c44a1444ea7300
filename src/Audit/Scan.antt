-- ===== src/Audit/Scan.antt =====
-- The walk over the table and the classification of each row: `_classify`, `_scan`, `check` and
-- `verify` of audit.py. The texts of the anomalies, written for a reader, are left out.
use cfactory.Prelude.{
  ℕ, Bool, true, false, ◌&&◌, not, Option, none, some, List, [], ◌∷◌, map, ◌==◌, if◌then◌else◌,
  Text, text_eq, option_eq, is_empty, keep_if,
}
use cfactory.Audit.Entry.{Crypto, Row, compute_entry_hash}

pub data Kind : Type 0 where
  mutated duplicate forked dangling : Kind

-- `ChainBreak`
pub record ChainBreak : Type 0 where
  pub id : ℕ
  pub kind : Kind

-- `by_hash.get(h, [])`, in the order of the table
unfoldable pub ids_by_hash : Text → List Row → List ℕ
ids_by_hash h [] = []
ids_by_hash h (r ∷ rows) =
    let rest = ids_by_hash h rows in if text_eq r.entry_hash h then r.id ∷ rest else rest

-- `by_parent.get(p, [])`
unfoldable pub ids_by_parent : Option Text → List Row → List ℕ
ids_by_parent p [] = []
ids_by_parent p (r ∷ rows) =
    let rest = ids_by_parent p rows in if option_eq r.prev_hash p then r.id ∷ rest else rest

-- `[i for i in ids if i != own]`
unfoldable pub others : ℕ → List ℕ → List ℕ
others own ids = keep_if (λ i. not (i == own)) ids

-- `row.prev_hash is None or row.prev_hash in by_hash`
unfoldable pub parent_exists : Option Text → List Row → Bool
unfolding ids_by_hash
parent_exists none rows = true
parent_exists (some h) rows = not (is_empty (ids_by_hash h rows))

abbrev pub add_break : Option ChainBreak → List ChainBreak → List ChainBreak
add_break none found = found
add_break (some b) found = b ∷ found

abbrev pub is_forked : Kind → Bool
is_forked forked = true
is_forked _ = false

module _ (c : Crypto) (secret : Text) where
  unfoldable pub classify : List Row → Row → Option Text → Option ChainBreak
  unfolding others
  classify rows row expected_prev =
      if not (text_eq row.entry_hash (compute_entry_hash c secret row.fields row.prev_hash))
      then some (record { id = row.id; kind = mutated })
      else if not (is_empty (others row.id (ids_by_hash row.entry_hash rows)))
      then some (record { id = row.id; kind = duplicate })
      else if option_eq row.prev_hash expected_prev
      then none
      else if not (is_empty (others row.id (ids_by_parent row.prev_hash rows)))
          && parent_exists row.prev_hash rows
      then some (record { id = row.id; kind = forked })
      else some (record { id = row.id; kind = dangling })

  -- The second loop of `_scan`, over the rows still to walk.
  unfoldable pub walk : List Row → Option Text → List Row → List ChainBreak
  walk rows expected_prev [] = []
  walk rows expected_prev (row ∷ todo) =
      add_break (classify rows row expected_prev) (walk rows (some row.entry_hash) todo)

  -- `check`, over the rows in the order of their ids
  unfoldable pub check : List Row → List ChainBreak
  unfolding walk
  check rows = walk rows none rows

  unfoldable pub verify : List Row → List ℕ
  unfolding check
  verify rows = map (λ b. b.id) (keep_if (λ b. not (is_forked b.kind)) (check rows))

-- ===== src/Audit/Deletions.antt =====
-- Deleted rows in the chain of audit.py: one from the middle is found, the newest are not.
use cfactory.Prelude.{
  ◌≡◌, ◌≢◌, refl, sym, ◌∙◌, inl, inr, subst, Option, none, some, List, [], ◌∷◌, ◌++◌, append_assoc,
  append-nil, arith, Text, text_eq_iff, option_eq, option_eq_iff, All-append, All-left, All-right,
  Bool-cases,
}
use cfactory.Audit.Entry.{Crypto, IsCrypto, Row, compute_entry_hash}
use cfactory.Audit.Scan.{ids_by_parent, others, classify, walk, check, ChainBreak, dangling}
use cfactory.Audit.Trail.{tail_hash}
use cfactory.Audit.Chain.{
  Unused, Childless, DistinctHashes, IsHashed, Linked, Linked-left, Linked-right,
  ids_by_parent-append, ids_by_parent-Childless, Unused-tail_hash,
}
use cfactory.Audit.Links.{DistinctHashes-around, Linked-parents, Linked-IsOpen}
use cfactory.Audit.Sound.{no_twins, walk-Linked, check-Linked}

-- A row that alone names its parent has no sibling.
no_siblings :
    (xs : List Row) (r : Row) (ys : List Row)
    → Childless r.prev_hash xs
    → Childless r.prev_hash ys
    → others r.id (ids_by_parent r.prev_hash (xs ++ r ∷ ys)) ≡ []
unfolding others
no_siblings xs r ys ux uy =
    rw (ids_by_parent-append r.prev_hash xs (r ∷ ys), ids_by_parent-Childless r.prev_hash xs ux)
      (unfold ids_by_parent in
        rw
          (
            (option_eq_iff r.prev_hash r.prev_hash).1 refl,
            ids_by_parent-Childless r.prev_hash ys uy,
          )
          (ground arith))

DistinctHashes-remove :
    (xs : List Row) (r : Row) (ys : List Row)
    → DistinctHashes (xs ++ r ∷ ys)
    → DistinctHashes (xs ++ ys)
DistinctHashes-remove [] r ys d = d.1
DistinctHashes-remove (x ∷ xs) r ys d = (
  All-append _ xs ys (All-left _ xs _ d.0) (All-right _ xs _ d.0).1,
  DistinctHashes-remove xs r ys d.1,
)

module _ (c : Crypto) (secret : Text) where
  classify-dangling :
      (xs : List Row) (r : Row) (ys : List Row) (p : Option Text)
      → IsHashed c secret r
      → Unused r.entry_hash xs
      → Unused r.entry_hash ys
      → Childless r.prev_hash xs
      → Childless r.prev_hash ys
      → r.prev_hash ≢ p
      → classify c secret (xs ++ r ∷ ys) r p ≡ some (record { id = r.id; kind = dangling })
  unfolding classify
  classify-dangling xs r ys p h ux uy cx cy n = elim (Bool-cases (option_eq r.prev_hash p)) [
    | inl e ↦ absurd (n ((option_eq_iff r.prev_hash p).0 e))
    | inr e ↦
        rw (no_twins xs r ys ux uy, no_siblings xs r ys cx cy)
          (rw ((text_eq_iff r.entry_hash (compute_entry_hash c secret r.fields r.prev_hash)).1 h)
            (rw e refl))
  ]

  -- After a finding at one row, a linked rest adds none.
  pub walk_found :
      (rows xs : List Row) (r : Row) (ys : List Row) (prev : Option Text) (b : ChainBreak)
      → rows ≡ xs ++ r ∷ ys
      → DistinctHashes rows
      → Linked c secret (some r.entry_hash) ys
      → classify c secret rows r prev ≡ some b
      → walk c secret rows prev (r ∷ ys) ≡ b ∷ []
  unfolding walk
  walk_found rows xs r ys prev b e d l found =
      let quiet =
        walk-Linked c secret rows (xs ++ r ∷ []) ys [] (some r.entry_hash)
          (e ∙ (rw append-nil (sym (append_assoc xs (r ∷ []) ys)))) d l in
      first_found rows r ys prev b found (rw append-nil at quiet)
    where
      first_found :
          (rows : List Row) (r : Row) (ys : List Row) (prev : Option Text) (b : ChainBreak)
          → classify c secret rows r prev ≡ some b
          → walk c secret rows (some r.entry_hash) ys ≡ []
          → walk c secret rows prev (r ∷ ys) ≡ b ∷ []
      first_found rows r ys prev b found quiet = rw (found, quiet)

module _ (c : Crypto) (ic : IsCrypto c) (secret : Text) where
  -- Deleting one row that another follows leaves exactly one finding: the row that followed it
  -- dangles.
  pub check-delete :
      (xs : List Row) (r s : Row) (ys : List Row)
      → Linked c secret none (xs ++ r ∷ s ∷ ys)
      → check c secret (xs ++ s ∷ ys) ≡ record { id = s.id; kind = dangling } ∷ []
  unfolding check
  check-delete xs r s ys l =
      let whole = Linked-IsOpen c ic secret _ l in
      let left = Linked-left c secret none xs _ l in
      let right = Linked-right c secret none xs _ l in
      let around_r = DistinctHashes-around xs r (s ∷ ys) whole.distinct in
      let distinct = DistinctHashes-remove xs r (s ∷ ys) whole.distinct in
      let around_s = DistinctHashes-around xs s ys distinct in
      let parent : some r.entry_hash ≡ s.prev_hash = sym right.2.0 in
      let before : Childless s.prev_hash xs =
        subst (λ p. Childless p xs) parent
          (Linked-parents c ic secret none xs r.entry_hash left (λ e. cc) around_r.0) in
      let behind : Childless s.prev_hash ys =
        subst (λ p. Childless p ys) parent
          (Linked-parents c ic secret (some s.entry_hash) ys r.entry_hash right.2.2
            (λ e. around_r.1.0 (cc)) around_r.1.1) in
      let broken : s.prev_hash ≢ tail_hash none xs =
        λ e. Unused-tail_hash r.entry_hash none xs (λ e. cc) around_r.0 (sym (parent ∙ e)) in
      walk-Linked c secret _ [] xs (s ∷ ys) none refl distinct left
      ∙ walk_found c secret _ xs s ys (tail_hash none xs) _ refl distinct right.2.2 (
          classify-dangling c secret xs s ys (tail_hash none xs) right.2.1 around_s.0 around_s.1
            before behind broken)

  -- Deleting the newest rows leaves no finding.
  pub check-truncate : (xs ys : List Row) → Linked c secret none (xs ++ ys) → check c secret xs ≡ []
  check-truncate xs ys l =
      let left = Linked-left c secret none xs ys l in
      check-Linked c secret xs (Linked-IsOpen c ic secret xs left).distinct left

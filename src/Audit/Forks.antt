-- ===== src/Audit/Forks.antt =====
-- Two appends that raced on the tail (audit.py): the fork is reported as one, and is no evidence
-- of tampering. The last part shows texts that the canonical form does not tell apart.
use cfactory.Prelude.{
  ℕ, ◌≡◌, ◌≢◌, refl, sym, ap, ◌∙◌, inl, inr, subst, Bool, true, false, Option, none, some, List, [],
  ◌∷◌, ◌++◌, append_assoc, arith, Text, text_eq_iff, text_eq_refl, option_eq, option_eq_iff,
  Bool-cases, is_empty, keep_if,
}
use cfactory.Audit.Entry.{Crypto, Row, Fields, separator, canonical, or_empty, compute_entry_hash}
use cfactory.Audit.Scan.{
  ids_by_hash, ids_by_parent, others, parent_exists, classify, check, verify, forked,
}
use cfactory.Audit.Trail.{tail_hash}
use cfactory.Audit.Chain.{
  DistinctHashes, IsHashed, Linked, ids_by_hash-append, ids_by_parent-append, tail_hash-append,
  Unused-tail_hash, Linked-right,
}
use cfactory.Audit.Links.{DistinctHashes-around}
use cfactory.Audit.Sound.{no_twins, walk-Linked}
use cfactory.Audit.Deletions.{walk_found}

keep_if_has {ℓ} :
    {A : Type ℓ} (p : A → Bool) (xs : List A) (x : A) (ys : List A)
    → p x ≡ true
    → is_empty (keep_if p (xs ++ x ∷ ys)) ≡ false
keep_if_has p [] x ys h = rw h
keep_if_has p (y ∷ xs) x ys h = ground (arith, keep_if_has p xs x ys h)

is_empty_behind : (is js : List ℕ) (i : ℕ) → is_empty (is ++ i ∷ js) ≡ false
is_empty_behind [] js i = refl
is_empty_behind (_ ∷ _) js i = refl

parent_exists_of_row :
    (xs : List Row) (r : Row) (ys : List Row)
    → parent_exists (some r.entry_hash) (xs ++ r ∷ ys) ≡ true
unfolding parent_exists
parent_exists_of_row xs r ys = rw (ids_by_hash-append r.entry_hash xs (r ∷ ys)) (
    unfold ids_by_hash in
    rw (text_eq_refl r.entry_hash, is_empty_behind (ids_by_hash r.entry_hash xs)) refl)

-- The tail of a stretch of the table, or what stood before it, is a parent that exists.
parent_exists_of_tail :
    (rows xs ys zs : List Row) (prev : Option Text)
    → rows ≡ xs ++ (ys ++ zs)
    → parent_exists prev rows ≡ true
    → parent_exists (tail_hash prev ys) rows ≡ true
parent_exists_of_tail rows xs [] zs prev e h = h
parent_exists_of_tail rows xs (y ∷ ys) zs prev e h =
    parent_exists_of_tail rows (xs ++ y ∷ []) ys zs (some y.entry_hash)
      (e ∙ sym (append_assoc xs (y ∷ []) (ys ++ zs))) (rw e (parent_exists_of_row xs y (ys ++ zs)))

module _ (c : Crypto) (secret : Text) where
  classify-forked :
      (rows xs : List Row) (b : Row) (ys : List Row) (p : Option Text)
      → rows ≡ xs ++ b ∷ ys
      → IsHashed c secret b
      → DistinctHashes rows
      → b.prev_hash ≢ p
      → is_empty (others b.id (ids_by_parent b.prev_hash rows)) ≡ false
      → parent_exists b.prev_hash rows ≡ true
      → classify c secret rows b p ≡ some (record { id = b.id; kind = forked })
  unfolding classify
  classify-forked rows xs b ys p e h d n siblings parent =
      let around = DistinctHashes-around xs b ys (subst DistinctHashes e d) in
      let twins : others b.id (ids_by_hash b.entry_hash rows) ≡ [] =
        rw e (no_twins xs b ys around.0 around.1) in
      elim (Bool-cases (option_eq b.prev_hash p)) [
        | inl same ↦ absurd (n ((option_eq_iff b.prev_hash p).0 same))
        | inr other ↦
            rw (twins, siblings, parent)
              (rw
                ((text_eq_iff b.entry_hash (compute_entry_hash c secret b.fields b.prev_hash)).1 h)
                (rw other refl))
      ]

  sibling_of :
      (xs : List Row) (a : Row) (ys : List Row) (own : ℕ) (p : Option Text)
      → a.prev_hash ≡ p
      → a.id ≢ own
      → is_empty (others own (ids_by_parent p (xs ++ a ∷ ys))) ≡ false
  unfolding others
  sibling_of xs a ys own p e n = rw (ids_by_parent-append p xs (a ∷ ys)) (
      unfold ids_by_parent in
      rw ((option_eq_iff a.prev_hash p).1 e)
        (keep_if_has _ (ids_by_parent p xs) a.id (ids_by_parent p ys) (ground arith)))

  -- Two honest appends `a` and `b` read the same tail; later rows link to `b`. With different
  -- hashes and ids, the walk has one finding, that `b` forked, and `verify` names no row.
  pub check-raced :
      (xs : List Row) (a b : Row) (ys : List Row)
      → Linked c secret none (xs ++ a ∷ [])
      → IsHashed c secret b
      → b.prev_hash ≡ tail_hash none xs
      → Linked c secret (some b.entry_hash) ys
      → DistinctHashes ((xs ++ a ∷ []) ++ b ∷ ys)
      → a.id ≢ b.id
      → (check c secret ((xs ++ a ∷ []) ++ b ∷ ys) ≡ record { id = b.id; kind = forked } ∷ [])
        × (verify c secret ((xs ++ a ∷ []) ++ b ∷ ys) ≡ [])
  check-raced xs a b ys l hb same lb d ids =
      let flat : (xs ++ a ∷ []) ++ b ∷ ys ≡ xs ++ (a ∷ b ∷ ys) =
        append_assoc xs (a ∷ []) (b ∷ ys) in
      let around = DistinctHashes-around xs a (b ∷ ys) (subst DistinctHashes flat d) in
      let broken : b.prev_hash ≢ tail_hash none (xs ++ a ∷ []) = λ e.
        Unused-tail_hash a.entry_hash none xs (λ e. cc) around.0
          (sym same ∙ (e ∙ tail_hash-append none xs (a ∷ []))) in
      let parent_of_a : a.prev_hash ≡ b.prev_hash =
        (Linked-right c secret none xs (a ∷ []) l).0 ∙ sym same in
      let siblings : is_empty (others b.id (ids_by_parent b.prev_hash ((xs ++ a ∷ []) ++ b ∷ ys)))
          ≡ false =
        rw flat (sibling_of xs a (b ∷ ys) b.id b.prev_hash parent_of_a ids) in
      let parent : parent_exists b.prev_hash ((xs ++ a ∷ []) ++ b ∷ ys) ≡ true =
        subst (λ p. parent_exists p ((xs ++ a ∷ []) ++ b ∷ ys) ≡ true) (sym same)
          (parent_exists_of_tail _ [] xs (a ∷ b ∷ ys) none flat (unfold parent_exists in refl)) in
      let found : check c secret ((xs ++ a ∷ []) ++ b ∷ ys)
          ≡ record { id = b.id; kind = forked } ∷ [] =
        unfold check in
        walk-Linked c secret _ [] (xs ++ a ∷ []) (b ∷ ys) none refl d l
        ∙ walk_found c secret _ (xs ++ a ∷ []) b ys (tail_hash none (xs ++ a ∷ [])) _ refl d lb
            (classify-forked _ (xs ++ a ∷ []) b ys _ refl hb d broken siblings parent) in
      (found, unfold verify in rw found refl)

canonical_of_moved_separator :
    (c : Crypto) (f : Fields) (a k j : Text)
    → canonical c (record f { actor = a ++ separator ∷ k; kind = j })
      ≡ canonical c (record f { actor = a; kind = k ++ separator ∷ j })
unfolding canonical
canonical_of_moved_separator c f a k j = simp append_assoc

-- The text before a separator in the actor can move into the kind: two rows that differ in both
-- fields have one canonical text, and so one hash under every secret and link.
pub hash_of_moved_separator :
    (c : Crypto) (secret : Text) (f : Fields) (a k j : Text) (prev : Option Text)
    → compute_entry_hash c secret (record f { actor = a ++ separator ∷ k; kind = j }) prev
      ≡ compute_entry_hash c secret (record f { actor = a; kind = k ++ separator ∷ j }) prev
unfolding compute_entry_hash
hash_of_moved_separator c secret f a k j prev =
    ap (λ t. c.hmac secret (t ++ separator ∷ or_empty prev))
      (canonical_of_moved_separator c f a k j)

-- ===== src/Audit/Links.antt =====
-- In a linked table every hash is new and every parent has one child, and so the walk finds
-- nothing: the proofs behind the soundness of `record` in audit.py.
use cfactory.Prelude.{
  ◌≡◌, ◌≢◌, refl, sym, ap, ◌∙◌, subst, Option, none, some, List, [], ◌∷◌, ◌++◌, append_assoc,
  append-nil, Text, All-append, All-right,
}
use cfactory.Prelude.Separated.{last_part}
use cfactory.Audit.Entry.{
  Crypto, IsCrypto, IsPlain, Row, separator, canonical, or_empty, compute_entry_hash,
}
use cfactory.Audit.Trail.{tail_hash}
use cfactory.Audit.Chain.{
  Unused, Childless, DistinctHashes, IsHashed, Linked, Linked-left, Linked-right, tail_hash-append,
  Unused-tail_hash,
}

-- A link that is none, or some text that a digest can be.
abbrev pub IsProper : Option Text → Type 0
IsProper none = Unit
IsProper (some h) = (h ≢ []) × IsPlain h

or_empty-injective : (p q : Option Text) → IsProper p → IsProper q → or_empty p ≡ or_empty q → p ≡ q
or_empty-injective none none hp hq e = refl
or_empty-injective none (some h) hp hq e = absurd (hq.0 (sym e))
or_empty-injective (some h) none hp hq e = absurd (hp.0 e)
or_empty-injective (some h) (some k) hp hq e = ap some e

or_empty-IsPlain : (p : Option Text) → IsProper p → IsPlain (or_empty p)
or_empty-IsPlain none h = tt
or_empty-IsPlain (some t) h = h.1

pub DistinctHashes-snoc :
    (rows : List Row) (r : Row)
    → DistinctHashes rows
    → Unused r.entry_hash rows
    → DistinctHashes (rows ++ r ∷ [])
DistinctHashes-snoc [] r d u = (tt, tt)
DistinctHashes-snoc (x ∷ rows) r d u =
    (All-append _ rows _ d.0 (λ e. u.0 (sym e), tt), DistinctHashes-snoc rows r d.1 u.1)

pub DistinctHashes-around :
    (xs : List Row) (r : Row) (ys : List Row)
    → DistinctHashes (xs ++ r ∷ ys)
    → Unused r.entry_hash xs × Unused r.entry_hash ys
DistinctHashes-around [] r ys d = (tt, d.0)
DistinctHashes-around (x ∷ xs) r ys d =
    let (before, after) = DistinctHashes-around xs r ys d.1 in
    ((λ e. (All-right _ xs _ d.0).0 (sym e), before), after)

module _ (c : Crypto) (ic : IsCrypto c) (secret : Text) where
  pub IsHashed-IsProper : (r : Row) → IsHashed c secret r → IsProper (some r.entry_hash)
  unfolding compute_entry_hash
  IsHashed-IsProper r h = rw h (ic.hmac-ne-nil secret _, ic.hmac-IsPlain secret _)

  -- Rows with one hash have one parent.
  pub hash_determines_parent :
      (r s : Row)
      → IsHashed c secret r
      → IsHashed c secret s
      → IsProper r.prev_hash
      → IsProper s.prev_hash
      → r.entry_hash ≡ s.entry_hash
      → r.prev_hash ≡ s.prev_hash
  unfolding compute_entry_hash
  hash_determines_parent r s hr hs pr ps e = or_empty-injective r.prev_hash s.prev_hash pr ps (
      last_part separator (canonical c r.fields) (canonical c s.fields) _ _
        (or_empty-IsPlain r.prev_hash pr) (or_empty-IsPlain s.prev_hash ps)
        (ic.collision_free secret _ _ (sym hr ∙ (e ∙ hs))))

  pub Linked-parents :
      (prev : Option Text) (rows : List Row) (h : Text)
      → Linked c secret prev rows
      → prev ≢ some h
      → Unused h rows
      → Childless (some h) rows
  Linked-parents prev [] h l n u = tt
  Linked-parents prev (r ∷ rows) h l n u =
      (λ e. n (sym l.0 ∙ e), Linked-parents (some r.entry_hash) rows h l.2 (λ e. u.0 (cc)) u.1)

  hash_Unused :
      (prev : Option Text) (rows : List Row) (r : Row)
      → Linked c secret prev rows
      → IsProper prev
      → IsHashed c secret r
      → IsProper r.prev_hash
      → Childless r.prev_hash rows
      → Unused r.entry_hash rows
  hash_Unused prev [] r l p hr pr ch = tt
  hash_Unused prev (x ∷ rows) r l p hr pr ch = (
    λ e. ch.0 (hash_determines_parent x r l.1 hr (subst IsProper (sym l.0) p) pr e),
    hash_Unused (some x.entry_hash) rows r l.2 (IsHashed-IsProper x l.1) hr pr ch.1,
  )

  tail_hash-IsProper :
      (prev : Option Text) (rows : List Row)
      → Linked c secret prev rows
      → IsProper prev
      → IsProper (tail_hash prev rows)
  tail_hash-IsProper prev [] l p = p
  tail_hash-IsProper prev (r ∷ rows) l p =
      tail_hash-IsProper (some r.entry_hash) rows l.2 (IsHashed-IsProper r l.1)

  -- What one more linked row needs: its parent has no child yet, and all hashes differ.
  pub record IsOpen (rows : List Row) : Type 0 where
    pub childless : Childless (tail_hash none rows) rows
    pub distinct : DistinctHashes rows

  new_hash_Unused :
      (rows : List Row) (r : Row)
      → Linked c secret none (rows ++ r ∷ [])
      → IsOpen rows
      → Unused r.entry_hash rows
  new_hash_Unused rows r l o =
      let left = Linked-left c secret none rows _ l in
      let right = Linked-right c secret none rows _ l in
      hash_Unused none rows r left tt right.1
        (subst IsProper (sym right.0) (tail_hash-IsProper none rows left tt))
        (subst (λ p. Childless p rows) (sym right.0) o.childless)

  IsOpen-snoc :
      (rows : List Row) (r : Row)
      → Linked c secret none (rows ++ r ∷ [])
      → IsOpen rows
      → IsOpen (rows ++ r ∷ [])
  IsOpen-snoc rows r l o =
      let left = Linked-left c secret none rows _ l in
      let right = Linked-right c secret none rows _ l in
      let unused = new_hash_Unused rows r l o in
      record {
        childless = rw (tail_hash-append none rows (r ∷ [])) (
            All-append _ rows _ (Linked-parents none rows r.entry_hash left (λ e. cc) unused) (
              λ e. Unused-tail_hash r.entry_hash none rows (λ e. cc) unused (sym right.0 ∙ e),
              tt,
            ));
        distinct = DistinctHashes-snoc rows r o.distinct unused;
      }

  IsOpen-walk : (xs ys : List Row) → Linked c secret none (xs ++ ys) → IsOpen xs → IsOpen (xs ++ ys)
  IsOpen-walk xs [] l o = rw append-nil o
  IsOpen-walk xs (y ∷ ys) l o =
      let l' : Linked c secret none ((xs ++ y ∷ []) ++ ys) = rw append_assoc l in
      rw append_assoc at (
        IsOpen-walk (xs ++ y ∷ []) ys l'
          (IsOpen-snoc xs y (Linked-left c secret none (xs ++ y ∷ []) ys l') o))

  pub Linked-IsOpen : (rows : List Row) → Linked c secret none rows → IsOpen rows
  Linked-IsOpen rows l = IsOpen-walk [] rows l (record { childless = tt; distinct = tt })

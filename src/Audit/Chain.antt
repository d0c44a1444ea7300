-- ===== src/Audit/Chain.antt =====
-- Linked tables: each row carries the HMAC of its fields and the hash of the row before it.
-- No two rows of a linked table share a hash, and the walk over one finds nothing.
use cfactory.Prelude.{
  ◌≡◌, ◌≢◌, refl, Option, some, List, [], ◌∷◌, ◌++◌, arith, Text, text_eq_iff, option_eq_iff, All,
}
use cfactory.Audit.Entry.{Crypto, Row, compute_entry_hash}
use cfactory.Audit.Scan.{ids_by_hash, ids_by_parent}
use cfactory.Audit.Trail.{tail_hash}

-- No row has the hash.
abbrev pub Unused : Text → List Row → Type 0
Unused h = All (λ r. r.entry_hash ≢ h)

-- No row names it as its parent.
abbrev pub Childless : Option Text → List Row → Type 0
Childless p = All (λ r. r.prev_hash ≢ p)

abbrev pub DistinctHashes : List Row → Type 0
DistinctHashes [] = Unit
DistinctHashes (r ∷ rows) = Unused r.entry_hash rows × DistinctHashes rows

module _ (c : Crypto) (secret : Text) where
  -- The row carries the HMAC of its own fields.
  abbrev pub IsHashed : Row → Type 0
  IsHashed r = r.entry_hash ≡ compute_entry_hash c secret r.fields r.prev_hash

  abbrev pub Linked : Option Text → List Row → Type 0
  Linked prev [] = Unit
  Linked prev (r ∷ rows) = (r.prev_hash ≡ prev) × IsHashed r × Linked (some r.entry_hash) rows

  pub Linked-append :
      (prev : Option Text) (xs ys : List Row)
      → Linked prev xs
      → Linked (tail_hash prev xs) ys
      → Linked prev (xs ++ ys)
  Linked-append prev [] ys hx hy = hy
  Linked-append prev (x ∷ xs) ys hx hy =
      (hx.0, hx.1, Linked-append (some x.entry_hash) xs ys hx.2 hy)

  pub Linked-left :
      (prev : Option Text) (xs ys : List Row) → Linked prev (xs ++ ys) → Linked prev xs
  Linked-left prev [] ys h = tt
  Linked-left prev (x ∷ xs) ys h = (h.0, h.1, Linked-left (some x.entry_hash) xs ys h.2)

  pub Linked-right :
      (prev : Option Text) (xs ys : List Row)
      → Linked prev (xs ++ ys)
      → Linked (tail_hash prev xs) ys
  Linked-right prev [] ys h = h
  Linked-right prev (x ∷ xs) ys h = Linked-right (some x.entry_hash) xs ys h.2

pub tail_hash-append :
    (prev : Option Text) (xs ys : List Row)
    → tail_hash prev (xs ++ ys) ≡ tail_hash (tail_hash prev xs) ys
tail_hash-append prev [] ys = refl
tail_hash-append prev (x ∷ xs) ys = tail_hash-append (some x.entry_hash) xs ys

pub ids_by_hash-append :
    (h : Text) (xs ys : List Row) → ids_by_hash h (xs ++ ys) ≡ ids_by_hash h xs ++ ids_by_hash h ys
unfolding ids_by_hash
ids_by_hash-append h [] ys = refl
ids_by_hash-append h (x ∷ xs) ys = ground (arith, ids_by_hash-append h xs ys)

pub ids_by_parent-append :
    (p : Option Text) (xs ys : List Row)
    → ids_by_parent p (xs ++ ys) ≡ ids_by_parent p xs ++ ids_by_parent p ys
unfolding ids_by_parent
ids_by_parent-append p [] ys = refl
ids_by_parent-append p (x ∷ xs) ys = ground (arith, ids_by_parent-append p xs ys)

pub ids_by_hash-Unused : (h : Text) (rows : List Row) → Unused h rows → ids_by_hash h rows ≡ []
unfolding ids_by_hash
ids_by_hash-Unused h [] u = refl
ids_by_hash-Unused h (r ∷ rows) u =
    ground (arith, text_eq_iff r.entry_hash h, ids_by_hash-Unused h rows u.1, u.0)

pub ids_by_parent-Childless :
    (p : Option Text) (rows : List Row) → Childless p rows → ids_by_parent p rows ≡ []
unfolding ids_by_parent
ids_by_parent-Childless p [] u = refl
ids_by_parent-Childless p (r ∷ rows) u =
    ground (arith, option_eq_iff r.prev_hash p, ids_by_parent-Childless p rows u.1, u.0)

pub Unused-tail_hash :
    (h : Text) (prev : Option Text) (rows : List Row)
    → prev ≢ some h
    → Unused h rows
    → tail_hash prev rows ≢ some h
Unused-tail_hash h prev [] n u = n
Unused-tail_hash h prev (r ∷ rows) n u =
    Unused-tail_hash h (some r.entry_hash) rows (λ e. u.0 (cc)) u.1

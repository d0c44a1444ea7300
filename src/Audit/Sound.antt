-- ===== src/Audit/Sound.antt =====
-- The walk over a linked table finds nothing, and every sequence of calls of `record` builds a
-- linked table (audit.py).
use cfactory.Prelude.{
  ℕ, ◌+◌, ◌-◌, ◌≡◌, refl, sym, ap, ◌∙◌, subst, Option, none, some, List, [], ◌∷◌, ◌++◌,
  append_assoc, append-nil, arith, Text, text_eq_iff, text_eq_refl, option_eq_iff,
}
use cfactory.Prelude.Results.{Result, ok, raise, >>=-eq-ok}
use cfactory.Auth.{KeyStore}
use cfactory.Audit.Entry.{
  Crypto, IsCrypto, Fields, Row, DateTime, naive, aware, stored_ts, canonical, redact_actor,
  separator, or_empty, compute_entry_hash, to_model,
}
use cfactory.Audit.Scan.{ids_by_hash, others, classify, walk, check}
use cfactory.Audit.Trail.{
  tail_hash, AuditStore, Entry, new_row, stored, append_row, fields_of, record_entry,
}
use cfactory.Audit.Chain.{
  Unused, DistinctHashes, IsHashed, Linked, Linked-append, ids_by_hash-append, ids_by_hash-Unused,
}
use cfactory.Audit.Links.{DistinctHashes-around, Linked-IsOpen}

-- A row that alone carries its hash has no twin.
pub no_twins :
    (xs : List Row) (r : Row) (ys : List Row)
    → Unused r.entry_hash xs
    → Unused r.entry_hash ys
    → others r.id (ids_by_hash r.entry_hash (xs ++ r ∷ ys)) ≡ []
unfolding others
no_twins xs r ys ux uy =
    rw (ids_by_hash-append r.entry_hash xs (r ∷ ys), ids_by_hash-Unused r.entry_hash xs ux)
      (unfold ids_by_hash in
        rw (text_eq_refl r.entry_hash, ids_by_hash-Unused r.entry_hash ys uy) (ground arith))

module _ (c : Crypto) (secret : Text) where
  pub classify-none :
      (xs : List Row) (r : Row) (ys : List Row) (prev : Option Text)
      → IsHashed c secret r
      → Unused r.entry_hash xs
      → Unused r.entry_hash ys
      → r.prev_hash ≡ prev
      → classify c secret (xs ++ r ∷ ys) r prev ≡ none
  unfolding classify
  classify-none xs r ys prev h ux uy p = rw (no_twins xs r ys ux uy) (
      rw ((text_eq_iff r.entry_hash (compute_entry_hash c secret r.fields r.prev_hash)).1 h)
        (rw ((option_eq_iff r.prev_hash prev).1 p) refl))

  pub walk_quiet :
      (rows : List Row) (y : Row) (todo : List Row) (prev : Option Text)
      → classify c secret rows y prev ≡ none
      → walk c secret rows prev (y ∷ todo) ≡ walk c secret rows (some y.entry_hash) todo
  unfolding walk
  walk_quiet rows y todo prev quiet = rw quiet

  -- A stretch of linked rows, in a table without twins, adds nothing to what the walk finds.
  pub walk-Linked :
      (rows xs ys zs : List Row) (prev : Option Text)
      → rows ≡ xs ++ (ys ++ zs)
      → DistinctHashes rows
      → Linked c secret prev ys
      → walk c secret rows prev (ys ++ zs) ≡ walk c secret rows (tail_hash prev ys) zs
  walk-Linked rows xs [] zs prev e d l = refl
  walk-Linked rows xs (y ∷ ys) zs prev e d l =
      let around = DistinctHashes-around xs y (ys ++ zs) (subst DistinctHashes e d) in
      let quiet : classify c secret rows y prev ≡ none =
        rw e (classify-none xs y (ys ++ zs) prev l.1 around.0 around.1 l.0) in
      let rest =
        walk-Linked rows (xs ++ y ∷ []) ys zs (some y.entry_hash)
          (e ∙ sym (append_assoc xs (y ∷ []) (ys ++ zs))) d l.2 in
      walk_quiet rows y (ys ++ zs) prev quiet ∙ rest

  pub check-Linked :
      (rows : List Row) → DistinctHashes rows → Linked c secret none rows → check c secret rows ≡ []
  unfolding check
  check-Linked rows d l =
      rw append-nil at (walk-Linked rows [] rows [] none (sym (append-nil rows)) d l)

-- A naive time hashes as the same wall clock in UTC.
pub canonical-naive :
    (c : Crypto) (wall : ℕ) (f : Fields)
    → canonical c (record f { ts = naive wall }) ≡ canonical c (record f { ts = aware wall 0 0 })
unfolding canonical
canonical-naive c wall f =
    let e : wall ≡ wall + 0 - 0 = omega arith in ap (λ w. canonical c (record f { ts = naive w })) e

-- A stored row hashes as it did before it was stored, since `_now()` is in UTC.
stored-IsHashed :
    (c : Crypto) (store : AuditStore) (wall : ℕ) (actor : Text) (e : Entry)
    → IsHashed c store.secret (stored (new_row c store (aware wall 0 0) actor e))
unfolding stored new_row compute_entry_hash stored_ts
stored-IsHashed c store wall actor e =
    ap (λ t. c.hmac store.secret (t ++ separator ∷ or_empty (tail_hash none store.rows)))
      (sym (canonical-naive c wall (fields_of (aware wall 0 0) actor e)))

appended-Linked :
    (c : Crypto) (store : AuditStore) (wall : ℕ) (actor : Text) (e : Entry)
    → Linked c store.secret none store.rows
    → Linked c store.secret none
        (append_row store (stored (new_row c store (aware wall 0 0) actor e))).rows
unfolding append_row
appended-Linked c store wall actor e l =
    Linked-append c store.secret none store.rows _ l
      (unfold stored new_row in refl, stored-IsHashed c store wall actor e, tt)

abbrev pub after_call : AuditStore → Result (AuditStore × Row) → AuditStore
after_call store (ok (after, _)) = after
after_call store (raise _) = store

module _ (c : Crypto) (keys : KeyStore) where
  -- A call of `record` that returns has appended its row.
  pub record_entry-eq-ok :
      (store : AuditStore) (now : DateTime) (e : Entry) (after : AuditStore) (model : Row)
      → record_entry c keys store now e ≡ ok (after, model)
      → (actor : Text) × (redact_actor c keys e.actor ≡ ok actor)
        × (append_row store (stored (new_row c store now actor e)) ≡ after)
  unfolding record_entry
  record_entry-eq-ok store now e after model h =
      let (actor, redacted, r) = >>=-eq-ok (redact_actor c keys e.actor) _ h in
      let (m, _, done) = >>=-eq-ok (to_model c keys (new_row c store now actor e)) _ r in
      (actor, redacted, cc done)

  -- A call of `record` at a time in UTC links its row to the tail.
  pub record_entry-Linked :
      (store : AuditStore) (wall : ℕ) (e : Entry) (after : AuditStore) (model : Row)
      → Linked c store.secret none store.rows
      → record_entry c keys store (aware wall 0 0) e ≡ ok (after, model)
      → Linked c after.secret none after.rows
  record_entry-Linked store wall e after model l h =
      let (actor, _, done) = record_entry-eq-ok store (aware wall 0 0) e after model h in
      subst (λ (s : AuditStore). Linked c s.secret none s.rows) done
        (unfold append_row in appended-Linked c store wall actor e l)

  -- A sequence of calls of `record`, each at its own time; one that raises leaves the table as
  -- it is, and its caller goes on.
  unfoldable pub record_all : AuditStore → List (ℕ × Entry) → AuditStore
  record_all store [] = store
  record_all store ((wall, e) ∷ calls) =
      record_all (after_call store (record_entry c keys store (aware wall 0 0) e)) calls

  pub record_all-Linked :
      (store : AuditStore) (calls : List (ℕ × Entry))
      → Linked c store.secret none store.rows
      → Linked c (record_all store calls).secret none (record_all store calls).rows
  unfolding record_all
  record_all-Linked store [] l = l
  record_all-Linked store ((wall, e) ∷ calls) l =
      record_all-Linked (after_call store (record_entry c keys store (aware wall 0 0) e)) calls
        (step (record_entry c keys store (aware wall 0 0) e) refl)
    where
      step :
          (r : Result (AuditStore × Row))
          → record_entry c keys store (aware wall 0 0) e ≡ r
          → Linked c (after_call store r).secret none (after_call store r).rows
      step (ok (after, model)) h = record_entry-Linked store wall e after model l h
      step (raise x) h = l

module _ (c : Crypto) (ic : IsCrypto c) (keys : KeyStore) where
  -- A trail that only `record` wrote, by any calls at all from a linked table on, shows no
  -- anomaly.
  pub check-record_all :
      (store : AuditStore) (calls : List (ℕ × Entry))
      → Linked c store.secret none store.rows
      → check c (record_all c keys store calls).secret (record_all c keys store calls).rows ≡ []
  check-record_all store calls l =
      let after = record_all c keys store calls in
      let linked = record_all-Linked c keys store calls l in
      check-Linked c after.secret after.rows
        (Linked-IsOpen c ic after.secret after.rows linked).distinct linked

-- ===== src/Audit/Edits.antt =====
-- An edited row, wherever it stands, turns the alarm of audit.py on.
use cfactory.Prelude.{
  ℕ, ◌≡◌, ◌≢◌, refl, ap, ◌∙◌, inl, inr, false, not, Option, none, some, List, [], ◌∷◌, ◌++◌, arith,
  Text, text_eq, text_eq_iff, Bool-cases, map, is_empty, keep_if,
}
use mathlib.Core.List.{Memᴰ}
use cfactory.Audit.Entry.{Crypto, IsCrypto, Fields, Row, compute_entry_hash}
use cfactory.Audit.Scan.{classify, walk, check, verify, add_break, is_forked, ChainBreak, mutated}
use cfactory.Audit.Trail.{AuditStore, tampered, fresh_report}
use cfactory.Audit.Chain.{IsHashed}
use cfactory.Audit.Tamper.{IsPlainFields, SameValues, edited-ne}
use cfactory.Audit.Verdict.{verdict-verify}

mem-add_break :
    {b : ChainBreak} (o : Option ChainBreak) {bs : List ChainBreak}
    → Memᴰ b bs
    → Memᴰ b (add_break o bs)
mem-add_break none m = m
mem-add_break (some x) m = Memᴰ.tail m

module _ (c : Crypto) (secret : Text) where
  -- A row that is classified one way whatever stands before it is among the findings.
  pub mem-walk :
      (rows xs : List Row) (r : Row) (ys : List Row) (prev : Option Text) (b : ChainBreak)
      → ((p : Option Text) → classify c secret rows r p ≡ some b)
      → Memᴰ b (walk c secret rows prev (xs ++ r ∷ ys))
  unfolding walk
  mem-walk rows [] r ys prev b h = rw (h prev) (Memᴰ.head refl)
  mem-walk rows (x ∷ xs) r ys prev b h =
      mem-add_break (classify c secret rows x prev) (mem-walk rows xs r ys (some x.entry_hash) b h)

  classify-mutated :
      (rows : List Row) (r : Row) (p : Option Text)
      → r.entry_hash ≢ compute_entry_hash c secret r.fields r.prev_hash
      → classify c secret rows r p ≡ some (record { id = r.id; kind = mutated })
  unfolding classify
  classify-mutated rows r p ne =
      elim (Bool-cases (text_eq r.entry_hash (compute_entry_hash c secret r.fields r.prev_hash))) [
        | inl e ↦ absurd (ne ((text_eq_iff _ _).0 e))
        | inr e ↦ rw e
      ]

evidence_ids :
    {b : ChainBreak} (bs : List ChainBreak)
    → Memᴰ b bs
    → is_forked b.kind ≡ false
    → is_empty (map (λ x. x.id) (keep_if (λ x. not (is_forked x.kind)) bs)) ≡ false
evidence_ids [] m f = elim m [ ]
evidence_ids (x ∷ bs) (Memᴰ.head e) f = ground (arith, ap (λ (x : ChainBreak). x.kind) e)
evidence_ids (x ∷ bs) (Memᴰ.tail m) f = ground (arith, evidence_ids bs m f)

-- The row with other values and perhaps another link, its hash left as it was.
abbrev pub edit : Row → Fields → Option Text → Row
edit r f prev = record r { fields = f; prev_hash = prev }

-- Rewriting any value of an honest row, to any other plain values, under its old hash makes the
-- walk report that row as mutated, and the verdict is `tampered` whatever is acknowledged.
pub edit-detected :
    (c : Crypto) (store : AuditStore) (now : ℕ) (xs : List Row) (r : Row) (ys : List Row)
    (f : Fields) (prev : Option Text)
    → IsCrypto c
    → store.rows ≡ xs ++ edit r f prev ∷ ys
    → IsHashed c store.secret r
    → IsPlainFields r.fields
    → IsPlainFields f
    → ¬ SameValues r.fields f
    → Memᴰ (record { id = r.id; kind = mutated }) (check c store.secret store.rows)
      × ((fresh_report c store now).verdict ≡ tampered)
edit-detected c store now xs r ys f prev ic e h pr pf differ =
    let found : Memᴰ (record { id = r.id; kind = mutated }) (check c store.secret store.rows) =
      unfold check in
      rw e (
        mem-walk c store.secret _ xs (edit r f prev) ys none _ (λ p.
          classify-mutated c store.secret _ (edit r f prev) p
            (edited-ne c ic store.secret r f prev h pr pf differ))) in
    (found, verdict-verify c store now ∙ (unfold verify in rw (evidence_ids _ found refl)))

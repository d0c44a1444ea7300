-- ===== src/Audit/Tamper.antt =====
-- What the walk of audit.py says of a table that was edited after the fact.
use cfactory.Prelude.{
  ℕ, ◌≡◌, ◌≢◌, ◌≤◌, refl, sym, ◌∙◌, subst, Bool, true, false, Option, ◌∷◌, ◌++◌, append_assoc,
  arith, Text, All-mono,
}
use cfactory.Prelude.Separated.{first_part}
use cfactory.Prelude.Decimal.{str_int, str_int-injective, str_int-IsDigit}
use cfactory.Audit.Entry.{
  Crypto, IsCrypto, IsPlain, Fields, Row, utc_wall, separator, canonical, bool_text,
  compute_entry_hash,
}
use cfactory.Audit.Chain.{IsHashed}

-- The text fields that callers choose have no unit separator.
pub record IsPlainFields (f : Fields) : Type 0 where
  pub actor : IsPlain f.actor
  pub kind : IsPlain f.kind
  pub correlation_key : IsPlain f.correlation_key
  pub target_service : IsPlain f.target_service
  pub endpoint : IsPlain f.endpoint

-- The chained values agree; of the time, its instant.
pub record SameValues (f g : Fields) : Type 0 where
  pub ts : utc_wall f.ts ≡ utc_wall g.ts
  pub actor : f.actor ≡ g.actor
  pub kind : f.kind ≡ g.kind
  pub correlation_key : f.correlation_key ≡ g.correlation_key
  pub target_service : f.target_service ≡ g.target_service
  pub endpoint : f.endpoint ≡ g.endpoint
  pub status_code : f.status_code ≡ g.status_code
  pub ok_flag : f.ok_flag ≡ g.ok_flag

pub str_int-IsPlain : (n : ℕ) → IsPlain (str_int n)
str_int-IsPlain n =
    All-mono _ _ (str_int n)
      (λ c h e. let bad : 48 ≤ 31 = subst (λ (x : ℕ). 48 ≤ x) e h in omega arith)
      (str_int-IsDigit n)

bool_text-IsPlain : (b : Bool) → IsPlain (bool_text b)
bool_text-IsPlain true = (λ e. omega arith, tt)
bool_text-IsPlain false = (λ e. omega arith, tt)

bool_text-injective : (a b : Bool) → bool_text a ≡ bool_text b → a ≡ b
bool_text-injective true true e = refl
bool_text-injective false false e = refl
bool_text-injective true false e = absurd (ground arith)
bool_text-injective false true e = absurd (ground arith)

-- The message of a row, its parts one behind the other.
message : Crypto → Fields → Text → Text
message c f rest =
    c.strftime (utc_wall f.ts)
    ++ separator
      ∷ (f.actor
          ++ separator
            ∷ (f.kind
                ++ separator
                  ∷ (f.correlation_key
                      ++ separator
                        ∷ (f.target_service
                            ++ separator
                              ∷ (f.endpoint
                                  ++ separator
                                    ∷ (str_int f.status_code
                                        ++ separator
                                          ∷ (bool_text f.ok_flag ++ separator ∷ rest)))))))

canonical-message :
    (c : Crypto) (f : Fields) (rest : Text) → canonical c f ++ separator ∷ rest ≡ message c f rest
unfolding canonical message
canonical-message c f rest = simp append_assoc

module _ (c : Crypto) (ic : IsCrypto c) where
  -- Plain fields are determined by the text that is hashed.
  canonical-SameValues :
      (f g : Fields) (p q : Text)
      → IsPlainFields f
      → IsPlainFields g
      → canonical c f ++ separator ∷ p ≡ canonical c g ++ separator ∷ q
      → SameValues f g
  unfolding message
  canonical-SameValues f g p q pf pg e =
      let e0 : message c f p ≡ message c g q =
        sym (canonical-message c f p) ∙ (e ∙ canonical-message c g q) in
      let (t, e1) =
        first_part separator _ _ _ _ (ic.strftime-IsPlain _) (ic.strftime-IsPlain _) e0 in
      let (a, e2) = first_part separator _ _ _ _ pf.actor pg.actor e1 in
      let (k, e3) = first_part separator _ _ _ _ pf.kind pg.kind e2 in
      let (y, e4) = first_part separator _ _ _ _ pf.correlation_key pg.correlation_key e3 in
      let (s, e5) = first_part separator _ _ _ _ pf.target_service pg.target_service e4 in
      let (n, e6) = first_part separator _ _ _ _ pf.endpoint pg.endpoint e5 in
      let (d, e7) = first_part separator _ _ _ _ (str_int-IsPlain _) (str_int-IsPlain _) e6 in
      let (b, _) = first_part separator _ _ _ _ (bool_text-IsPlain _) (bool_text-IsPlain _) e7 in
      record {
        ts = ic.strftime-injective _ _ t;
        actor = a;
        kind = k;
        correlation_key = y;
        target_service = s;
        endpoint = n;
        status_code = str_int-injective _ _ d;
        ok_flag = bool_text-injective _ _ b;
      }

  -- A row whose values were edited no longer carries its HMAC, whatever link it was given.
  pub edited-ne :
      (secret : Text) (r : Row) (f : Fields) (prev : Option Text)
      → IsHashed c secret r
      → IsPlainFields r.fields
      → IsPlainFields f
      → ¬ SameValues r.fields f
      → r.entry_hash ≢ compute_entry_hash c secret f prev
  unfolding compute_entry_hash
  edited-ne secret r f prev h pr pf differ e =
      differ (canonical-SameValues r.fields f _ _ pr pf (ic.collision_free secret _ _ (sym h ∙ e)))

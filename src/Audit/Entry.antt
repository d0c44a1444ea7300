-- ===== src/Audit/Entry.antt =====
-- An audit row, its canonical text and its hash: `_canonical_ts`, `_canonical`,
-- `compute_entry_hash`, `redact_actor` and the row class of audit.py.
use cfactory.Prelude.{
  ℕ, ◌+◌, ◌-◌, ◌≡◌, ◌≢◌, Bool, ◌||◌, Option, none, some, [], ◌∷◌, ◌++◌, if◌then◌else◌, Text, codes,
  is_some, All,
}
use cfactory.Prelude.Decimal.{str_int}
use cfactory.Prelude.Results.{Result, ok, ◌>>=◌}
use cfactory.Prelude.Strings.{join}
use cfactory.Auth.{KeyStore, key_shaped, key_actor, scopes_for}

-- `datetime`: a wall clock in microseconds since year 1, with no zone or with one at
-- `east - west` microseconds from UTC.
pub data DateTime : Type 0 where
  naive : ℕ → DateTime
  aware : ℕ → ℕ → ℕ → DateTime

-- `value.astimezone(UTC).replace(tzinfo=None)` of a value with a zone
unfoldable pub utc_wall : DateTime → ℕ
utc_wall (naive wall) = wall
utc_wall (aware wall east west) = wall + west - east

-- `as_utc` of models.py labels a wall clock and does not move it.
unfoldable pub as_utc : DateTime → DateTime
as_utc (naive wall) = aware wall 0 0
as_utc (aware wall east west) = aware wall east west

-- What a plain `DateTime` column hands back: the wall clock, with no zone.
unfoldable pub stored_ts : DateTime → DateTime
stored_ts (naive wall) = naive wall
stored_ts (aware wall east west) = naive wall

-- What the module calls outside the repository: HMAC-SHA256 and SHA-256 as hex digests, and
-- `strftime` at the format "%Y-%m-%dT%H:%M:%S.%f" of a wall clock.
pub record Crypto : Type 0 where
  pub hmac : Text → Text → Text
  pub sha256 : Text → Text
  pub strftime : ℕ → Text

abbrev pub separator : ℕ
separator = 0x1f

-- No unit separator stands in the text.
abbrev pub IsPlain : Text → Type 0
IsPlain = All (λ c. c ≢ separator)

-- What the trail relies on: no two messages have one HMAC under one key, a hex digest is not
-- empty and has no separator, and formatted times differ and have no separator.
pub record IsCrypto (c : Crypto) : Type 0 where
  pub collision_free : (k m n : Text) → c.hmac k m ≡ c.hmac k n → m ≡ n
  pub hmac-ne-nil : (k m : Text) → c.hmac k m ≢ []
  pub hmac-IsPlain : (k m : Text) → IsPlain (c.hmac k m)
  pub strftime-injective : (a b : ℕ) → c.strftime a ≡ c.strftime b → a ≡ b
  pub strftime-IsPlain : (a : ℕ) → IsPlain (c.strftime a)

-- The fields of `_CANONICAL_FIELDS`.
pub record Fields : Type 0 where
  pub ts : DateTime
  pub actor : Text
  pub kind : Text
  pub correlation_key : Text
  pub target_service : Text
  pub endpoint : Text
  pub status_code : ℕ
  pub ok_flag : Bool

-- `AuditEntry`
pub record Row : Type 0 where
  pub id : ℕ
  pub fields : Fields
  pub prev_hash : Option Text
  pub entry_hash : Text

unfoldable pub redact_actor : Crypto → KeyStore → Text → Result Text
redact_actor c store actor = do
  scopes ← scopes_for store (some actor)
  ok (if is_some scopes || key_shaped actor then key_actor c.sha256 actor else actor)

unfoldable pub canonical_ts : Crypto → DateTime → Text
unfolding utc_wall
canonical_ts c value = c.strftime (utc_wall value)

abbrev pub bool_text : Bool → Text
bool_text b = if b then codes "1" else codes "0"

unfoldable pub canonical : Crypto → Fields → Text
unfolding canonical_ts
canonical c f = join (separator ∷ []) (
    canonical_ts c f.ts
    ∷ f.actor
    ∷ f.kind
    ∷ f.correlation_key
    ∷ f.target_service
    ∷ f.endpoint
    ∷ str_int f.status_code
    ∷ bool_text f.ok_flag
    ∷ [])

-- `prev_hash or ''`
abbrev pub or_empty : Option Text → Text
or_empty none = []
or_empty (some h) = h

unfoldable pub compute_entry_hash : Crypto → Text → Fields → Option Text → Text
unfolding canonical
compute_entry_hash c secret f prev_hash =
    c.hmac secret (canonical c f ++ separator ∷ or_empty prev_hash)

-- `to_model` labels the time and redacts the actor on the way out.
unfoldable pub to_model : Crypto → KeyStore → Row → Result Row
unfolding as_utc redact_actor
to_model c store row = do
  actor ← redact_actor c store row.fields.actor
  ok (record row { fields = record (row.fields) { ts = as_utc row.fields.ts; actor = actor } })

-- ===== src/Audit/Trail.antt =====
-- The repository class `AuditStore` of audit.py: `record`, `list` and `report` with its cache.
-- A transaction of the database is one step here; Audit/Race has the
-- interleavings. Times are in microseconds.
use cfactory.Prelude.{
  ℕ, suc, ◌-◌, ◌*◌, Bool, ◌&&◌, not, Option, none, some, List, [], ◌∷◌, ◌++◌, map, ltb, leb, ◌==◌,
  if◌then◌else◌, Text, is_empty, keep_if, any, take, length,
}
use mathlib.Core.List.{reverse}
use cfactory.Prelude.Results.{Result, ok, ◌>>=◌}
use cfactory.Auth.{KeyStore}
use cfactory.Audit.Entry.{
  DateTime, Crypto, Fields, Row, stored_ts, redact_actor, compute_entry_hash, to_model,
}
use cfactory.Audit.Scan.{ChainBreak, is_forked, check}

pub data Verdict : Type 0 where
  tampered forked ok_verdict : Verdict

-- `ChainReport`
pub record ChainReport : Type 0 where
  pub verdict : Verdict
  pub rows : ℕ
  pub checked_at : ℕ
  pub findings : List ChainBreak
  pub acknowledged_forks : List ℕ

-- The table in the order of its ids, the id that the database gives next, and the fields of the
-- object.
pub record AuditStore : Type 0 where
  pub rows : List Row
  pub next_id : ℕ
  pub secret : Text
  pub acknowledged : List ℕ
  pub cached : Option ChainReport

-- The `entry_hash` of the row with the greatest id.
abbrev pub tail_hash : Option Text → List Row → Option Text
tail_hash prev [] = prev
tail_hash prev (r ∷ rows) = tail_hash (some r.entry_hash) rows

-- The keyword arguments of `record`
pub record Entry : Type 0 where
  pub actor : Text
  pub kind : Text
  pub correlation_key : Text
  pub target_service : Text
  pub endpoint : Text
  pub status_code : ℕ
  pub ok_flag : Bool

unfoldable pub fields_of : DateTime → Text → Entry → Fields
fields_of now actor e = record {
  ts = now;
  actor = actor;
  kind = e.kind;
  correlation_key = e.correlation_key;
  target_service = e.target_service;
  endpoint = e.endpoint;
  status_code = e.status_code;
  ok_flag = e.ok_flag;
}

-- The row of `record`, hashed before it is stored.
unfoldable pub new_row : Crypto → AuditStore → DateTime → Text → Entry → Row
unfolding fields_of
new_row c store now actor e = record {
  id = store.next_id;
  fields = fields_of now actor e;
  prev_hash = tail_hash none store.rows;
  entry_hash =
      compute_entry_hash c store.secret (fields_of now actor e) (tail_hash none store.rows);
}

-- The column type drops the zone of `ts`.
unfoldable pub stored : Row → Row
unfolding stored_ts
stored row = record row { fields = record (row.fields) { ts = stored_ts row.fields.ts } }

-- The insert: the new row has the greatest id.
unfoldable pub append_row : AuditStore → Row → AuditStore
append_row store row = record store { rows = store.rows ++ row ∷ []; next_id = suc store.next_id }

module _ (c : Crypto) (keys : KeyStore) where
  -- An exception rolls the transaction back, so it comes without a new state.
  unfoldable pub record_entry : AuditStore → DateTime → Entry → Result (AuditStore × Row)
  unfolding new_row stored append_row
  record_entry store now e = do
    actor ← redact_actor c keys e.actor
    model ← to_model c keys (new_row c store now actor e)
    ok (append_row store (stored (new_row c store now actor e)), model)

  to_models : List Row → Result (List Row)
  to_models [] = ok []
  to_models (r ∷ rows) = do m ← to_model c keys r; ms ← to_models rows; ok (m ∷ ms)

  -- `list`
  unfoldable pub list_entries : AuditStore → ℕ → Option ℕ → Result (List Row)
  unfolding to_models
  list_entries store limit none = to_models (take limit (reverse store.rows))
  list_entries store limit (some after_id) =
      to_models (take limit (keep_if (λ r. ltb after_id r.id) store.rows))

-- `sorted`
insert_id : ℕ → List ℕ → List ℕ
insert_id i [] = i ∷ []
insert_id i (j ∷ ids) = let rest = insert_id i ids in if leb i j then i ∷ j ∷ ids else j ∷ rest

sort_ids : List ℕ → List ℕ
unfolding insert_id
sort_ids [] = []
sort_ids (i ∷ ids) = insert_id i (sort_ids ids)

-- `b.kind == FORKED and b.id in self._acknowledged`
unfoldable pub is_acknowledged : List ℕ → ChainBreak → Bool
is_acknowledged acknowledged b = is_forked b.kind && any (λ i. i == b.id) acknowledged

unfoldable pub verdict_of : List ChainBreak → Verdict
verdict_of findings =
    if any (λ b. not (is_forked b.kind)) findings
    then tampered
    else if not (is_empty findings)
    then forked
    else ok_verdict

unfoldable pub fresh_report : Crypto → AuditStore → ℕ → ChainReport
unfolding verdict_of is_acknowledged sort_ids
fresh_report c store now =
    let breaks = check c store.secret store.rows in
    let findings = keep_if (λ b. not (is_acknowledged store.acknowledged b)) breaks in
    record {
      verdict = verdict_of findings;
      rows = length store.rows;
      checked_at = now;
      findings = findings;
      acknowledged_forks =
          sort_ids (map (λ b. b.id) (keep_if (is_acknowledged store.acknowledged) breaks));
    }

abbrev pub report_ttl : ℕ
report_ttl = 30 * 1000000

refresh : Crypto → AuditStore → ℕ → AuditStore × ChainReport
unfolding fresh_report
refresh c store now =
    let fresh = fresh_report c store now in (record store { cached = some fresh }, fresh)

serve_report : Crypto → AuditStore → ℕ → Option ChainReport → AuditStore × ChainReport
unfolding refresh
serve_report c store now none = refresh c store now
serve_report c store now (some r) =
    if ltb (now - r.checked_at) report_ttl then (store, r) else refresh c store now

-- `report`: the cached verdict for thirty seconds, or a new one that is kept
unfoldable pub report : Crypto → AuditStore → ℕ → AuditStore × ChainReport
unfolding serve_report
report c store now = serve_report c store now store.cached

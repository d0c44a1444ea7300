-- ===== src/Audit/Verdict.antt =====
-- The verdict of `report` and the alarm of `verify` (audit.py).
use cfactory.Prelude.{
  ℕ, ◌-◌, ◌≡◌, refl, ◌∙◌, Bool, not, none, some, List, [], ◌∷◌, map, arith, ltb, if◌then◌else◌,
  is_empty, keep_if, any,
}
use cfactory.Audit.Entry.{Crypto}
use cfactory.Audit.Scan.{ChainBreak, is_forked, check, verify}
use cfactory.Audit.Trail.{
  AuditStore, tampered, forked, ok_verdict, is_acknowledged, verdict_of, fresh_report, report,
  report_ttl,
}

abbrev is_evidence : ChainBreak → Bool
is_evidence b = not (is_forked b.kind)

-- An acknowledgement forgives forks alone.
evidence_kept :
    (acknowledged : List ℕ) (bs : List ChainBreak)
    → any is_evidence (keep_if (λ b. not (is_acknowledged acknowledged b)) bs) ≡ any is_evidence bs
unfolding is_acknowledged
evidence_kept acknowledged [] = refl
evidence_kept acknowledged (b ∷ bs) = ground (arith, evidence_kept acknowledged bs)

ids_of_evidence :
    (bs : List ChainBreak)
    → is_empty (map (λ b. b.id) (keep_if is_evidence bs)) ≡ not (any is_evidence bs)
ids_of_evidence [] = refl
ids_of_evidence (b ∷ bs) = ground (arith, ids_of_evidence bs)

unacknowledged :
    (p : ChainBreak → Bool) (bs : List ChainBreak) → is_empty (keep_if p bs) ≡ not (any p bs)
unacknowledged p [] = refl
unacknowledged p (b ∷ bs) = ground (arith, unacknowledged p bs)

-- A new report is `tampered` exactly where `verify` names a row, whatever is acknowledged; else it
-- is `forked` where some anomaly is not an acknowledged fork, and `ok` where there is none.
pub verdict-verify :
    (c : Crypto) (store : AuditStore) (now : ℕ)
    → (fresh_report c store now).verdict ≡ (
        if not (is_empty (verify c store.secret store.rows))
        then tampered
        else if any
            (λ b. not (is_acknowledged store.acknowledged b))
            (check c store.secret store.rows)
        then forked
        else ok_verdict)
unfolding fresh_report verdict_of verify
verdict-verify c store now =
    let breaks = check c store.secret store.rows in
    rw
      (
        evidence_kept store.acknowledged breaks,
        ids_of_evidence breaks,
        unacknowledged (λ b. not (is_acknowledged store.acknowledged b)) breaks,
      )
      (ground arith)

-- The table may change while a report is kept: for thirty seconds the reader is served the kept
-- verdict, and from then on the verdict of the table as it is.
pub report_cache :
    (c : Crypto) (store later : AuditStore) (now at : ℕ)
    → store.cached ≡ none
    → later.cached ≡ (report c store now).0.cached
    → (report c later at).1
      ≡ (if ltb (at - now) report_ttl then fresh_report c store now else fresh_report c later at)
unfolding report
report_cache c store later now at e k =
    let kept : later.cached ≡ some (fresh_report c store now) = k ∙ (unfold report in rw e) in
    rw kept (ground arith)

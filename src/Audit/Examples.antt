-- ===== src/Audit/Examples.antt =====
-- The theorems on audit.py at concrete tables, over a digest that shifts every code point.
use cfactory.Prelude.{
  ℕ, ◌+◌, ◌≡◌, ◌≢◌, refl, sym, true, false, if◌then◌else◌, Option, none, some, List, [], ◌∷◌, ◌++◌,
  map, arith, Text, codes, is_empty, any, not,
}
use mathlib.Core.List.{Memᴰ}
use cfactory.Prelude.Decimal.{str_int, str_int-injective}
use cfactory.Auth.{KeyStore}
use cfactory.Audit.Entry.{
  Crypto, IsCrypto, IsPlain, Fields, Row, naive, utc_wall, separator, compute_entry_hash,
}
use cfactory.Audit.Scan.{check, verify, forked, dangling, mutated}
use cfactory.Audit.Trail
use cfactory.Audit.Trail.{
  AuditStore, Entry, ChainReport, report, fresh_report, report_ttl, is_acknowledged,
}
use cfactory.Audit.Sound.{record_all, check-record_all}
use cfactory.Audit.Verdict.{verdict-verify}
use cfactory.Audit.Tamper.{IsPlainFields, edited-ne, str_int-IsPlain}
use cfactory.Audit.Edits.{edit, edit-detected}
use cfactory.Audit.Deletions.{check-delete, check-truncate}
use cfactory.Audit.Race.{
  Database, idle, holding, has_read, set_phase, row_behind, begin, read_tail, commit, Steps, start,
  then_step, check-interleaved,
}
use cfactory.Audit.Forks.{check-raced, hash_of_moved_separator}

abbrev toy : Crypto
toy = record {
  hmac = λ k m. b'h' ∷ map (λ c. c + 32) m;
  sha256 = λ m. codes "0123456789abcdef";
  strftime = str_int;
}

shift-injective : (m n : Text) → map (λ (c : ℕ). c + 32) m ≡ map (λ c. c + 32) n → m ≡ n
shift-injective [] [] e = refl
shift-injective [] (d ∷ n) e = cc
shift-injective (c ∷ m) [] e = cc
shift-injective (c ∷ m) (d ∷ n) e = ground (arith, shift-injective m n)

shift-IsPlain : (m : Text) → IsPlain (map (λ c. c + 32) m)
shift-IsPlain [] = tt
shift-IsPlain (c ∷ m) = (omega arith, shift-IsPlain m)

toy-IsCrypto : IsCrypto toy
toy-IsCrypto = record {
  collision_free = λ k m n e. shift-injective m n (cc);
  hmac-ne-nil = λ k m e. cc;
  hmac-IsPlain = λ k m. (omega arith, shift-IsPlain m);
  strftime-injective = str_int-injective;
  strftime-IsPlain = str_int-IsPlain;
}

abbrev approve : Entry
approve = record {
  actor = codes "user:ada";
  kind = codes "approve_plan";
  correlation_key = codes "42";
  target_service = codes "pfactory";
  endpoint = codes "/api/plans/42";
  status_code = 200;
  ok_flag = true;
}

abbrev secret : Text
secret = codes "s3cret"

abbrev fields_at : ℕ → Fields
fields_at wall = record {
  ts = naive wall;
  actor = codes "user:ada";
  kind = codes "approve_plan";
  correlation_key = codes "42";
  target_service = codes "pfactory";
  endpoint = codes "/api/plans/42";
  status_code = 200;
  ok_flag = true;
}

abbrev row_after : ℕ → Option Text → Row
row_after i prev = record {
  id = i;
  fields = fields_at i;
  prev_hash = prev;
  entry_hash = compute_entry_hash toy secret (fields_at i) prev;
}

abbrev row1 : Row
row1 = row_after 1 none

abbrev row2 : Row
row2 = row_after 2 (some row1.entry_hash)

abbrev row3 : Row
row3 = row_after 3 (some row2.entry_hash)

abbrev store_of : List Row → AuditStore
store_of rows = record {
  rows = rows;
  next_id = 4;
  secret = secret;
  acknowledged = 2 ∷ [];
  cached = none;
}

abbrev no_keys : KeyStore
no_keys = record { keys = []; dev_open = true }

check-record_all_example :
    check toy
      (record_all toy no_keys (store_of (row1 ∷ [])) ((5, approve) ∷ [])).secret
      (record_all toy no_keys (store_of (row1 ∷ [])) ((5, approve) ∷ [])).rows
    ≡ []
check-record_all_example =
    check-record_all toy toy-IsCrypto no_keys (store_of (row1 ∷ [])) ((5, approve) ∷ [])
      (refl, refl, tt)

abbrev denied : Fields
denied = record (fields_at 2) { ok_flag = false }

fields_at-IsPlainFields : IsPlainFields (fields_at 2)
fields_at-IsPlainFields = omega arith

denied-IsPlainFields : IsPlainFields denied
denied-IsPlainFields = omega arith

edit-detected_example :
    Memᴰ
      (record { id = 2; kind = mutated })
      (check toy secret (row1 ∷ edit row2 denied row2.prev_hash ∷ row3 ∷ []))
    × ((fresh_report toy (store_of (row1 ∷ edit row2 denied row2.prev_hash ∷ row3 ∷ [])) 9).verdict
        ≡ Trail.tampered)
edit-detected_example =
    edit-detected toy (store_of (row1 ∷ edit row2 denied row2.prev_hash ∷ row3 ∷ [])) 9 (row1 ∷ [])
      row2 (row3 ∷ []) denied row2.prev_hash toy-IsCrypto refl refl fields_at-IsPlainFields
      denied-IsPlainFields (λ same. cc (same.ok_flag))

check-delete_example : check toy secret (row1 ∷ row3 ∷ []) ≡ record { id = 3; kind = dangling } ∷ []
check-delete_example =
    check-delete toy toy-IsCrypto secret (row1 ∷ []) row2 row3 []
      (refl, refl, (refl, refl, (refl, refl, tt)))

check-truncate_example : check toy secret (row1 ∷ []) ≡ []
check-truncate_example =
    check-truncate toy toy-IsCrypto secret (row1 ∷ []) (row2 ∷ row3 ∷ [])
      (refl, refl, (refl, refl, (refl, refl, tt)))

-- The second of two appends that both read the tail `row1`.
abbrev raced : Row
raced = row_after 4 (some row1.entry_hash)

raced_differs : raced.entry_hash ≢ row2.entry_hash
unfolding utc_wall
raced_differs =
    edited-ne toy toy-IsCrypto secret raced (fields_at 2) (some row1.entry_hash) refl (omega arith)
      fields_at-IsPlainFields (λ same. omega (arith, same.ts))

row1_differs : row1.entry_hash ≢ row2.entry_hash
unfolding utc_wall
row1_differs =
    edited-ne toy toy-IsCrypto secret row1 (fields_at 2) (some row1.entry_hash) refl (omega arith)
      fields_at-IsPlainFields (λ same. omega (arith, same.ts))

row1_from_raced : row1.entry_hash ≢ raced.entry_hash
unfolding utc_wall
row1_from_raced =
    edited-ne toy toy-IsCrypto secret row1 (fields_at 4) (some row1.entry_hash) refl (omega arith)
      (omega arith) (λ same. omega (arith, same.ts))

check-raced_example :
    (check toy secret (row1 ∷ row2 ∷ raced ∷ []) ≡ record { id = 4; kind = forked } ∷ [])
    × (verify toy secret (row1 ∷ row2 ∷ raced ∷ []) ≡ [])
check-raced_example =
    check-raced toy secret (row1 ∷ []) row2 raced [] (refl, refl, (refl, refl, tt)) refl refl tt
      (
        (λ e. row1_differs (sym e), (λ e. row1_from_raced (sym e), tt)),
        ((raced_differs, tt), (tt, tt)),
      )
      (λ e. omega arith)

hash_of_moved_separator_example :
    compute_entry_hash toy secret
      (record (fields_at 1) { actor = codes "ada" ++ separator ∷ codes "x"; kind = codes "y" })
      none
    ≡ compute_entry_hash toy secret
        (record (fields_at 1) { actor = codes "ada"; kind = codes "x" ++ separator ∷ codes "y" })
        none
hash_of_moved_separator_example =
    hash_of_moved_separator toy secret (fields_at 1) (codes "ada") (codes "x") (codes "y") none

verdict-verify_example : (fresh_report toy (store_of (row1 ∷ row3 ∷ [])) 9).verdict ≡ (
    if not (is_empty (verify toy secret (row1 ∷ row3 ∷ [])))
    then Trail.tampered
    else if any (λ b. not (is_acknowledged (2 ∷ []) b)) (check toy secret (row1 ∷ row3 ∷ []))
    then Trail.forked
    else Trail.ok_verdict)
verdict-verify_example = verdict-verify toy (store_of (row1 ∷ row3 ∷ [])) 9

abbrev quiet : Database
quiet = record { rows = []; holder = none; phase = λ t. idle }

abbrev one_appended : Database
one_appended = record {
  rows = row_behind toy secret 1 (fields_at 1) none ∷ [];
  holder = none;
  phase = set_phase (set_phase (set_phase (λ t. idle) 7 holding) 7 (has_read none)) 7 idle;
}

appended : Steps toy secret quiet one_appended
appended =
    then_step (then_step (then_step start (begin 7 refl refl)) (read_tail 7 refl))
      (commit 7 1 (fields_at 1) none refl)

check-interleaved_example : check toy secret one_appended.rows ≡ []
check-interleaved_example =
    check-interleaved toy secret quiet one_appended toy-IsCrypto tt (λ t. refl) appended

-- ===== src/Auth/Decisions.antt =====
-- What `authorize` and the functions on raw headers decide.
use cfactory.Prelude.{
  ◌≡◌, ◌≢◌, refl, ◌⊎◌, inl, inr, Bool, true, false, Option, none, some, [], ◌∷◌, arith, Text,
  text_eq_sound, mem_text, Bool-cases, is_some, if◌then◌else◌,
}
use cfactory.Prelude.Results.{ok, raise, http, ◌>>=◌, >>=-eq-ok}
use cfactory.Auth.{
  Keys, Scopes, parse_api_keys, KeyStore, secret_matches, match_keys, scopes_for, decide_scope,
  authorize, authorize_headers, require_scope, extract_key, is_open, configured, preferred_key,
  write_scope, first_with,
}

-- The table has the pair.
abbrev pub Has : Text → Scopes → Keys → Type 0
Has key scopes [] = ⊥
Has key scopes ((k, s) ∷ keys) = ((key ≡ k) × (scopes ≡ s)) ⊎ Has key scopes keys

secret_matches_sound : (a b : Text) → secret_matches (some a) (some b) ≡ ok true → a ≡ b
unfolding secret_matches
secret_matches_sound a b h = text_eq_sound a b (ground arith)

match_keys_sound :
    (key : Text) (keys : Keys) (matched : Option Scopes) (scopes : Scopes)
    → match_keys key keys matched ≡ ok (some scopes)
    → (matched ≡ some scopes) ⊎ Has key scopes keys
unfolding match_keys
match_keys_sound key [] matched scopes h = inl (cc)
match_keys_sound key ((k, s) ∷ keys) matched scopes h =
    let (same, e, r) = >>=-eq-ok (secret_matches (some key) (some k)) _ h in
    match_step same e (match_keys_sound key keys _ scopes r)
  where
    match_step :
        (same : Bool)
        → secret_matches (some key) (some k) ≡ ok same
        → ((if same then some s else matched) ≡ some scopes) ⊎ Has key scopes keys
        → (matched ≡ some scopes) ⊎ (((key ≡ k) × (scopes ≡ s)) ⊎ Has key scopes keys)
    match_step _ e (inr later) = inr (inr later)
    match_step true e (inl here) = inr (inl (secret_matches_sound key k e, cc))
    match_step false e (inl here) = inl here

-- In a store with keys, a request is let through only with a key of the table whose scopes hold
-- the one that is asked for; whether the store is open for development does not matter.
pub authorize_sound :
    (store : KeyStore) (key : Option Text) (scope : Text)
    → configured store ≡ true
    → authorize store key scope ≡ ok tt
    → (k : Text) × (scopes : Scopes) × (key ≡ some k)
      × Has k scopes store.keys
      × (mem_text scope scopes ≡ true)
unfolding authorize
authorize_sound store none scope c h = ground arith
authorize_sound store (some k) scope c h =
    let (found, e, r) = >>=-eq-ok (scopes_for store (some k)) (decide_scope scope) (ground arith) in
    decided found e r
  where
    decided :
        (found : Option Scopes)
        → match_keys k store.keys none ≡ ok found
        → decide_scope scope found ≡ ok tt
        → (j : Text) × (scopes : Scopes) × (some k ≡ some j)
          × Has j scopes store.keys
          × (mem_text scope scopes ≡ true)
    decided none e r = ground arith
    decided (some scopes) e r =
        (k, scopes, refl, from_table (match_keys_sound k store.keys none scopes e), ground arith)
      where
        from_table :
            (Path (Option Scopes) none (some scopes)) ⊎ Has k scopes store.keys
            → Has k scopes store.keys
        from_table (inl e) = cc
        from_table (inr h) = h

-- An empty table without the development opt-in refuses every request with 401, whatever its
-- headers and the scope.
pub authorize_headers_closed :
    (raw : Option Text) (authorization x_api_key : Option Text) (scope : Text)
    → parse_api_keys raw ≡ []
    → authorize_headers
        (record { keys = parse_api_keys raw; dev_open = false })
        authorization
        x_api_key
        scope
      ≡ raise (http 401)
unfolding authorize_headers
authorize_headers_closed raw authorization x_api_key scope h = rw h

-- The development opt-in has no effect once a key is configured.
dev_open_ignored :
    (keys : Keys) (authorization x_api_key : Option Text) (scope : Text)
    → keys ≢ []
    → authorize_headers (record { keys = keys; dev_open = true }) authorization x_api_key scope
      ≡ authorize_headers (record { keys = keys; dev_open = false }) authorization x_api_key scope
unfolding authorize_headers
dev_open_ignored [] authorization x_api_key scope h = absurd (h refl)
dev_open_ignored (k ∷ keys) authorization x_api_key scope h = refl

-- The middleware's decision and the route dependency's agree, and the dependency passes on the
-- extracted key exactly when the store is not open.
pub require_scope-eq-authorize_headers :
    (store : KeyStore) (authorization x_api_key : Option Text) (scope : Text)
    → require_scope store scope authorization x_api_key ≡ (
        authorize_headers store authorization x_api_key scope >>= λ _.
        ok (if is_open store then none else extract_key authorization x_api_key))
unfolding require_scope authorize_headers
require_scope-eq-authorize_headers store authorization x_api_key scope = ground arith

first_with_sound :
    (required : Text) (keys : Keys) (k : Text)
    → first_with required keys ≡ some k
    → (scopes : Scopes) × Has k scopes keys × (mem_text required scopes ≡ true)
unfolding first_with
first_with_sound required [] k h = cc
first_with_sound required ((j, s) ∷ keys) k h = elim (Bool-cases (mem_text required s)) [
  | inl holds ↦ (s, inl (ground arith, refl), holds)
  | inr lacks ↦
      let (scopes, has, holds) = first_with_sound required keys k (ground arith) in
      (scopes, inr has, holds)
]

first_with_complete :
    (required : Text) (keys : Keys) (j : Text) (s : Scopes)
    → Has j s keys
    → mem_text required s ≡ true
    → is_some (first_with required keys) ≡ true
unfolding first_with
first_with_complete required [] j s h holds = absurd h
first_with_complete required ((k, t) ∷ keys) j s (inl same) holds = rw (← same.1, holds)
first_with_complete required ((k, t) ∷ keys) j s (inr later) holds =
    ground (arith, first_with_complete required keys j s later holds)

-- Where some key of the table may write, the key that is handed out is one of the table's keys
-- that may write.
pub preferred_key_writes :
    (store : KeyStore) (j : Text) (s : Scopes)
    → Has j s store.keys
    → mem_text write_scope s ≡ true
    → (k : Text) × (scopes : Scopes) × (preferred_key store ≡ some k)
      × Has k scopes store.keys
      × (mem_text write_scope scopes ≡ true)
unfolding preferred_key
preferred_key_writes store j s has holds =
    chosen (first_with write_scope store.keys) refl
      (first_with_complete write_scope store.keys j s has holds)
  where
    chosen :
        (o : Option Text)
        → first_with write_scope store.keys ≡ o
        → is_some o ≡ true
        → (k : Text) × (scopes : Scopes) × (preferred_key store ≡ some k)
          × Has k scopes store.keys
          × (mem_text write_scope scopes ≡ true)
    chosen none e h = cc
    chosen (some k) e h =
        let (scopes, has, holds) = first_with_sound write_scope store.keys k e in
        (k, scopes, rw e, has, holds)

-- ===== src/Auth/Examples.antt =====
-- The theorems on auth.py at concrete settings.
use cfactory.Prelude.{
  ◌≡◌, ◌≢◌, refl, sym, ◌∙◌, true, false, Option, none, some, [], ◌∷◌, Text, codes, mem_text,
}
use cfactory.Prelude.Results.{ok, raise, type_error, http}
use cfactory.Prelude.Strings.{strip, partition, split_on}
use cfactory.Auth.{
  Keys, Scopes, insert_key, parse_api_keys, KeyStore, scopes_for, authorize, authorize_headers,
  write_scope, read_scope,
}
use cfactory.Auth.Keys.{lookup, scopes_for-eq-lookup, scopes_for_non_ascii}
use cfactory.Auth.Decisions.{Has, authorize_sound, authorize_headers_closed}

abbrev setting : Option Text
setting = some (codes " k1 : read ; ;k2:read, write;k1:write")

parsed :
    parse_api_keys setting
    ≡ (codes "k1", codes "write" ∷ []) ∷ (codes "k2", codes "read" ∷ codes "write" ∷ []) ∷ []
unfolding parse_api_keys split_on strip partition insert_key
parsed = refl

abbrev two_keys : KeyStore
two_keys = record {
  keys = (codes "k1", codes "read" ∷ []) ∷ (codes "k2", codes "write" ∷ []) ∷ [];
  dev_open = true;
}

scopes_for-eq-lookup_example :
    scopes_for (record { keys = parse_api_keys setting; dev_open = false }) (some (codes "k2"))
    ≡ ok (lookup (codes "k2") (parse_api_keys setting))
unfolding parse_api_keys split_on strip partition insert_key
scopes_for-eq-lookup_example =
    scopes_for-eq-lookup setting false (codes "k2") (refl, (refl, tt)) refl refl

setting-ne-nil : parse_api_keys setting ≢ []
setting-ne-nil e = absurd (nonempty (sym parsed ∙ e))
  where
    nonempty : {k : Text × Scopes} {ks : Keys} → k ∷ ks ≡ [] → ⊥
    nonempty h = cc

scopes_for_non_ascii_example :
    scopes_for (record { keys = parse_api_keys setting; dev_open = false }) (some (0xe9 ∷ []))
    ≡ raise type_error
scopes_for_non_ascii_example = scopes_for_non_ascii setting false (0xe9 ∷ []) setting-ne-nil refl

authorize_sound_example :
    (k : Text) × (scopes : Scopes) × (Path (Option Text) (some (codes "k2")) (some k))
    × Has k scopes two_keys.keys
    × (mem_text write_scope scopes ≡ true)
unfolding authorize
authorize_sound_example = authorize_sound two_keys (some (codes "k2")) write_scope refl refl

authorize_headers_closed_example :
    authorize_headers
      (record { keys = parse_api_keys (some (codes " ; :read")); dev_open = false })
      (some (codes "Bearer k1"))
      none
      read_scope
    ≡ raise (http 401)
unfolding parse_api_keys split_on strip partition insert_key
authorize_headers_closed_example =
    authorize_headers_closed (some (codes " ; :read")) (some (codes "Bearer k1")) none read_scope
      refl

-- ===== src/Repositories/Gone.antt =====
-- A card whose repository was deleted: `delete_repository` and `resolve_repository` of
-- apps/backend/cfactory/cards.py.
use cfactory.Prelude.{
  ℕ, ◌+◌, ◌≡◌, refl, ◌∙◌, inl, inr, ◌&&◌, not, Option, none, some, List, [], ◌∷◌, map, ◌==◌, Text,
  any, keep_if, arith, Bool-cases,
}
use cfactory.Prelude.Results.{Result, ok, raise, resource_not_found, >>=-eq-ok}
use cfactory.Repositories.{
  Repository, Connection, is_default, first_repo, repositories, repository, marked,
  set_default_repository, promote_first, ensure_default_repository, delete_repository,
  resolve_repository,
}
use cfactory.Repositories.Defaults.{count, is_own, count_ids}

module _ (tenant : Text) where
  none_with :
      (i : ℕ) (repos : List Repository)
      → count (λ r. r.id == i) (keep_if (λ r. not (r.id == i)) repos) ≡ 0
  unfolding count
  none_with i [] = refl
  none_with i (r ∷ repos) = elim (Bool-cases (r.id == i)) [
    | inl here ↦ rw here (none_with i repos)
    | inr there ↦ rw there (rw there (let ih = none_with i repos in omega (arith, ih)))
  ]

  not_found :
      (i : ℕ) (repos : List Repository)
      → count (λ r. r.id == i) repos ≡ 0
      → first_repo (λ r. r.id == i && is_own tenant r) repos ≡ none
  unfolding count
  not_found i [] h = refl
  not_found i (r ∷ repos) h = elim (Bool-cases (r.id == i)) [
    | inl here ↦ absurd (positive _ (rw here at h))
    | inr there ↦ rw there (not_found i repos (skip (rw there at h)))
  ]
    where
      positive : (n : ℕ) → 1 + n ≡ 0 → ⊥
      positive n e = omega (arith, e)

      skip : {n : ℕ} → 0 + n ≡ 0 → n ≡ 0
      skip e = omega (arith, e)

  set_default_ids :
      (i j : ℕ) (repos repos' : List Repository)
      → set_default_repository tenant i repos ≡ ok repos'
      → count (λ r. r.id == j) repos' ≡ count (λ r. r.id == j) repos
  unfolding set_default_repository
  set_default_ids i j repos repos' h =
      let (repo, reads, done) =
        >>=-eq-ok (repository tenant i repos) (λ found. ok (map (marked tenant i) repos)) h in
      let same : map (marked tenant i) repos ≡ repos' = cc in
      rw (← same) (count_ids tenant i j repos)

  ensure_ids :
      (j : ℕ) (repos repos' : List Repository)
      → ensure_default_repository tenant repos ≡ ok repos'
      → count (λ r. r.id == j) repos' ≡ count (λ r. r.id == j) repos
  unfolding ensure_default_repository
  ensure_ids j repos repos' h = by_remaining (repositories tenant repos) h
    where
      kept :
          (◌≡◌ {A = Result (List Repository)} (ok repos) (ok repos'))
          → count (λ r. r.id == j) repos' ≡ count (λ r. r.id == j) repos
      kept e = let same : repos ≡ repos' = cc in rw (← same) refl

      by_remaining :
          (remaining : List Repository)
          → promote_first tenant remaining repos ≡ ok repos'
          → count (λ r. r.id == j) repos' ≡ count (λ r. r.id == j) repos
      by_remaining [] e = kept e
      by_remaining (r ∷ remaining) e = elim (Bool-cases (any is_default (r ∷ remaining))) [
        | inl has ↦ kept (rw has at e)
        | inr lacks ↦ set_default_ids r.id j repos repos' (rw lacks at e)
      ]

  -- A card whose repository is gone does not fall back to the default: while a card names a repository
  -- that was deleted, resolving it raises `GitResourceNotFoundError`, whatever its project is and
  -- whatever repositories are left.
  pub delete_then_resolve :
      (i : ℕ) (project : Option Text) (connections : List Connection)
      (repos repos' : List Repository)
      → delete_repository tenant i repos ≡ ok repos'
      → resolve_repository tenant (some i) project connections repos' ≡ raise resource_not_found
  unfolding delete_repository resolve_repository repository
  delete_then_resolve i project connections repos repos' h =
      let (found, reads, rest) =
        >>=-eq-ok (repository tenant i repos)
          (λ found. ensure_default_repository tenant (keep_if (λ r. not (r.id == i)) repos)) h in
      let gone =
        not_found i repos'
          (ensure_ids i (keep_if (λ r. not (r.id == i)) repos) repos' rest ∙ none_with i repos) in
      rw gone refl

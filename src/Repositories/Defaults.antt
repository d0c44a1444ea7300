-- ===== src/Repositories/Defaults.antt =====
-- The one default repository of a tenant, over the writes of apps/backend/cfactory/cards.py.
use cfactory.Prelude.{
  ℕ, ◌+◌, ◌≤◌, ◌<◌, ◌≡◌, refl, sym, ◌∙◌, inl, inr, Bool, true, false, ◌&&◌, none, some, List, [],
  ◌∷◌, ◌++◌, map, ◌==◌, if◌then◌else◌, if_intro, Text, text_eq, option_eq, option_eq_iff, any,
  keep_if, arith, All, Bool-cases, Option-cases,
}
use cfactory.Prelude.Results.{Result, ok, >>=-eq-ok}
use cfactory.Repositories.{
  Repository, is_default, first_repo, or_not_found, repository, marked, set_default_repository,
}

-- How many rows pass the test
unfoldable pub count : (Repository → Bool) → List Repository → ℕ
count test [] = 0
count test (r ∷ repos) = (if test r then 1 else 0) + count test repos

pub count-append :
    (test : Repository → Bool) (xs ys : List Repository)
    → count test (xs ++ ys) ≡ count test xs + count test ys
unfolding count
count-append test [] ys = omega arith
count-append test (x ∷ xs) ys = let ih = count-append test xs ys in omega (arith, ih)

pub count_kept :
    (test keep : Repository → Bool) (repos : List Repository)
    → count test (keep_if keep repos) ≤ count test repos
unfolding count
count_kept test keep [] = omega arith
count_kept test keep (r ∷ repos) = let ih = count_kept test keep repos in ground (arith, ih)

pub count-any :
    (test : Repository → Bool) (repos : List Repository)
    → any test repos ≡ true
    → 0 < count test repos
unfolding count
count-any test [] h = absurd cc
count-any test (r ∷ repos) h = let ih = count-any test repos in ground (arith, ih, h)

pub count_none :
    (test : Repository → Bool) (repos : List Repository)
    → any test repos ≡ false
    → count test repos ≡ 0
unfolding count
count_none test [] h = refl
count_none test (r ∷ repos) h = let ih = count_none test repos in ground (arith, ih, h)

pub first_repo-any :
    (test : Repository → Bool) (repos : List Repository) (r : Repository)
    → first_repo test repos ≡ some r
    → any test repos ≡ true
first_repo-any test [] r h = absurd cc
first_repo-any test (x ∷ repos) r h = elim (Bool-cases (test x)) [
  | inl here ↦ rw here refl
  | inr there ↦ rw there (first_repo-any test repos r (rw there at h))
]

module _ (tenant : Text) where
  abbrev pub is_own : Repository → Bool
  is_own r = text_eq r.tenant_id tenant

  -- The rows that the default of the tenant is looked up among
  abbrev pub is_marked : Repository → Bool
  is_marked r = option_eq r.default_for_tenant (some tenant)

  -- A mark stands on a row of its tenant, which has no other mark.
  abbrev pub OwnMarks : Repository → Type 0
  OwnMarks r =
      (is_marked r ≡ true → is_own r ≡ true) × (is_own r ≡ true → is_default r ≡ is_marked r)

  -- No two rows have one id, marks are the tenant's own, and a tenant with repositories has one default.
  pub record IsServed (repos : List Repository) : Type 0 where
    pub unique : (i : ℕ) → count (λ r. r.id == i) repos ≤ 1
    pub own : All OwnMarks repos
    pub one : any is_own repos ≡ true → count is_marked repos ≡ 1

  marked_iff : (i : ℕ) (r : Repository) → is_marked (marked tenant i r) ≡ (r.id == i)
  unfolding marked
  marked_iff i r = elim (Bool-cases (r.id == i)) [
    | inl here ↦ rw here ((option_eq_iff (some tenant) (some tenant)).1 refl)
    | inr there ↦
        rw there
          (if_intro (λ (x : Repository). is_marked x ≡ false) (is_marked r) (λ e. refl) (λ e. e))
  ]

  marked_id : (i : ℕ) (r : Repository) → (marked tenant i r).id ≡ r.id
  unfolding marked
  marked_id i r =
      if_intro (λ (x : Repository). x.id ≡ r.id) (r.id == i) (λ e. refl)
        (λ e. if_intro (λ (x : Repository). x.id ≡ r.id) (is_marked r) (λ m. refl) (λ m. refl))

  marked_own : (i : ℕ) (r : Repository) → is_own (marked tenant i r) ≡ is_own r
  unfolding marked
  marked_own i r =
      if_intro (λ (x : Repository). is_own x ≡ is_own r) (r.id == i) (λ e. refl)
        (λ e.
          if_intro (λ (x : Repository). is_own x ≡ is_own r) (is_marked r) (λ m. refl) (λ m. refl))

  count-marked :
      (i : ℕ) (repos : List Repository)
      → count is_marked (map (marked tenant i) repos) ≡ count (λ r. r.id == i) repos
  unfolding count
  count-marked i [] = refl
  count-marked i (r ∷ repos) = rw (marked_iff i r) (rw (count-marked i repos) refl)

  pub count_ids :
      (i j : ℕ) (repos : List Repository)
      → count (λ r. r.id == j) (map (marked tenant i) repos) ≡ count (λ r. r.id == j) repos
  unfolding count
  count_ids i j [] = refl
  count_ids i j (r ∷ repos) = rw (marked_id i r) (rw (count_ids i j repos) refl)

  -- The rows with the id are the tenant's.
  abbrev OwnById : ℕ → List Repository → Type 0
  OwnById i = All (λ r. (r.id == i) ≡ true → is_own r ≡ true)

  none_by_id :
      (i : ℕ) (repos : List Repository) → count (λ r. r.id == i) repos ≤ 0 → OwnById i repos
  unfolding count
  none_by_id i [] h = tt
  none_by_id i (r ∷ repos) h =
      (λ e. absurd (ground (arith, h, e)), none_by_id i repos (omega (arith, h)))

  any_by_id :
      (i : ℕ) (repos : List Repository)
      → any (λ r. r.id == i && is_own r) repos ≡ true
      → any (λ r. r.id == i) repos ≡ true
  any_by_id i [] h = absurd cc
  any_by_id i (r ∷ repos) h = let ih = any_by_id i repos in ground (arith, ih, h)

  own_by_id :
      (i : ℕ) (repos : List Repository)
      → count (λ r. r.id == i) repos ≤ 1
      → any (λ r. r.id == i && is_own r) repos ≡ true
      → OwnById i repos
  unfolding count
  own_by_id i [] h found = tt
  own_by_id i (r ∷ repos) h found = elim (Bool-cases (r.id == i)) [
    | inr other ↦ (
      λ e. absurd (clash (sym other ∙ e)),
      own_by_id i repos (skip (rw other at h)) (rw other at found),
    )
    | inl here ↦ elim (Bool-cases (is_own r)) [
      | inl own ↦ (λ e. own, none_by_id i repos (last (rw here at h)))
      | inr foreign ↦ absurd (
          twice (rw here at h) (
            count-any (λ x. x.id == i) repos
              (any_by_id i repos (rw foreign at (rw here at found)))))
    ]
  ]
    where
      clash : false ≡ true → ⊥
      clash e = cc

      skip : {n : ℕ} → 0 + n ≤ 1 → n ≤ 1
      skip k = omega (arith, k)

      last : {n : ℕ} → 1 + n ≤ 1 → n ≤ 0
      last k = omega (arith, k)

      twice : {n : ℕ} → 1 + n ≤ 1 → 0 < n → ⊥
      twice k m = omega (arith, k, m)

  OwnMarks-marked :
      (i : ℕ) (repos : List Repository)
      → OwnById i repos
      → All OwnMarks repos
      → All OwnMarks (map (marked tenant i) repos)
  unfolding marked
  OwnMarks-marked i [] by_id own = tt
  OwnMarks-marked i (r ∷ repos) by_id own = (
    if_intro OwnMarks (r.id == i)
        (λ e. (λ m. by_id.0 e, λ o. sym ((option_eq_iff (some tenant) (some tenant)).1 refl)))
        (λ e. if_intro OwnMarks (is_marked r) (λ m. (λ n. own.0.0 m, λ o. refl)) (λ m. own.0)),
    OwnMarks-marked i repos by_id.1 own.1,
  )

  pub set_default-IsServed :
      (i : ℕ) (repos repos' : List Repository)
      → ((j : ℕ) → count (λ r. r.id == j) repos ≤ 1)
      → All OwnMarks repos
      → set_default_repository tenant i repos ≡ ok repos'
      → IsServed repos'
  unfolding set_default_repository repository
  set_default-IsServed i repos repos' unique own h =
      let (repo, reads, done) =
        >>=-eq-ok (repository tenant i repos) (λ found. ok (map (marked tenant i) repos)) h in
      let same : map (marked tenant i) repos ≡ repos' = cc in
      rw (← same) (served (found repo reads))
    where
      found :
          (repo : Repository)
          → or_not_found (first_repo (λ r. r.id == i && is_own r) repos) ≡ ok repo
          → any (λ r. r.id == i && is_own r) repos ≡ true
      found repo reads = elim (Option-cases (first_repo (λ r. r.id == i && is_own r) repos)) [
        | inr (r, there) ↦ first_repo-any (λ r. r.id == i && is_own r) repos r there
        | inl nowhere ↦ absurd (missing (rw nowhere at reads))
      ]
        where
          missing : (◌≡◌ {A = Result Repository} (or_not_found none) (ok repo)) → ⊥
          missing e = cc

      served :
          any (λ r. r.id == i && is_own r) repos ≡ true → IsServed (map (marked tenant i) repos)
      served there = record {
        unique = λ j. rw (count_ids i j repos) (unique j);
        own = OwnMarks-marked i repos (own_by_id i repos (unique i) there) own;
        one = λ some_own.
            single (unique i) (count-any (λ x. x.id == i) repos (any_by_id i repos there));
      }
        where
          single :
              count (λ r. r.id == i) repos ≤ 1
              → 0 < count (λ r. r.id == i) repos
              → count is_marked (map (marked tenant i) repos) ≡ 1
          single k m = rw (count-marked i repos) (omega (arith, k, m))

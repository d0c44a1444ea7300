-- ===== src/Repositories/Served.antt =====
-- The writes of apps/backend/cfactory/cards.py that remove repositories, and the one default.
use cfactory.Prelude.{
  ℕ, ◌≤◌, ◌<◌, ◌≡◌, refl, sym, ap, ◌∙◌, inl, inr, Bool, true, false, ◌||◌, not, List, [], ◌∷◌, ◌==◌,
  if_intro, Text, any, keep_if, arith, All, Bool-cases,
}
use cfactory.Prelude.Results.{Result, ok, ◌>>=◌, >>=-eq-ok}
use cfactory.Repositories.{
  Repository, Connection, is_default, or_not_found, repositories, repository, connection_or_none,
  promote_first, ensure_default_repository, delete_repository, delete_connection,
}
use cfactory.Repositories.Defaults.{
  count, count_kept, count-any, count_none, is_own, is_marked, OwnMarks, IsServed,
  set_default-IsServed,
}

module _ (tenant : Text) where
  OwnMarks-kept :
      (keep : Repository → Bool) (repos : List Repository)
      → All (OwnMarks tenant) repos
      → All (OwnMarks tenant) (keep_if keep repos)
  OwnMarks-kept keep [] own = tt
  OwnMarks-kept keep (r ∷ repos) own =
      if_intro (All (OwnMarks tenant)) (keep r) (λ e. (own.0, OwnMarks-kept keep repos own.1))
        (λ e. OwnMarks-kept keep repos own.1)

  -- A default among the tenant's rows is a mark.
  default_is_mark :
      (repos : List Repository)
      → All (OwnMarks tenant) repos
      → any is_default (keep_if (is_own tenant) repos) ≡ true
      → any (is_marked tenant) repos ≡ true
  default_is_mark [] own h = absurd cc
  default_is_mark (r ∷ repos) own h = elim (Bool-cases (is_own tenant r)) [
    | inr foreign ↦ later (is_marked tenant r) (default_is_mark repos own.1 (rw foreign at h))
    | inl mine ↦
        first (is_default r) (is_marked tenant r) (own.0.1 mine) (default_is_mark repos own.1)
          (rw mine at h)
  ]
    where
      later :
          (b : Bool)
          → any (is_marked tenant) repos ≡ true
          → b || any (is_marked tenant) repos ≡ true
      later b e = ground (arith, e)

      first :
          (d m : Bool)
          → d ≡ m
          → (any is_default (keep_if (is_own tenant) repos) ≡ true
              → any (is_marked tenant) repos ≡ true)
          → d || any is_default (keep_if (is_own tenant) repos) ≡ true
          → m || any (is_marked tenant) repos ≡ true
      first d m same ih e = ground (arith, same, ih, e)

  none_own :
      (repos : List Repository)
      → keep_if (is_own tenant) repos ≡ []
      → any (is_own tenant) repos ≡ false
  none_own [] h = refl
  none_own (r ∷ repos) h = elim (Bool-cases (is_own tenant r)) [
    | inl mine ↦ absurd (filled (rw mine at h))
    | inr foreign ↦ rw foreign (none_own repos (rw foreign at h))
  ]
    where
      filled : r ∷ keep_if (is_own tenant) repos ≡ [] → ⊥
      filled e = cc

  -- After `_ensure_default_repository` there is one default, if there was no more than one before.
  ensure-IsServed :
      (repos repos' : List Repository)
      → ((j : ℕ) → count (λ r. r.id == j) repos ≤ 1)
      → All (OwnMarks tenant) repos
      → count (is_marked tenant) repos ≤ 1
      → ensure_default_repository tenant repos ≡ ok repos'
      → IsServed tenant repos'
  unfolding ensure_default_repository repositories
  ensure-IsServed repos repos' unique own few h =
      by_remaining (keep_if (is_own tenant) repos) refl h
    where
      kept :
          {x : List Repository}
          → (any (is_own tenant) x ≡ true → count (is_marked tenant) x ≡ 1)
          → (◌≡◌ {A = Result (List Repository)} (ok repos) (ok repos'))
          → x ≡ repos
          → IsServed tenant repos'
      kept {x = x} one e at_repos =
          let same : repos ≡ repos' = cc in
          rw (← same) (record { unique = unique; own = own; one = rw at_repos at one })

      by_remaining :
          (remaining : List Repository)
          → keep_if (is_own tenant) repos ≡ remaining
          → promote_first tenant remaining repos ≡ ok repos'
          → IsServed tenant repos'
      by_remaining [] e done =
          kept (λ some_own. absurd (clash (sym (none_own repos e) ∙ some_own))) done refl
        where
          clash : false ≡ true → ⊥
          clash e = cc
      by_remaining (r ∷ remaining) e done = elim (Bool-cases (any is_default (r ∷ remaining))) [
        | inl has ↦
            kept
              (λ some_own.
                exactly (count-any (is_marked tenant) repos (default_is_mark repos own (rw e has)))
                  few)
              (rw has at done) refl
        | inr lacks ↦ set_default-IsServed tenant r.id repos repos' unique own (rw lacks at done)
      ]
        where
          exactly : {n : ℕ} → 0 < n → n ≤ 1 → n ≡ 1
          exactly k m = omega (arith, k, m)

  marks_need_own :
      (repos : List Repository)
      → All (OwnMarks tenant) repos
      → any (is_own tenant) repos ≡ false
      → any (is_marked tenant) repos ≡ false
  marks_need_own [] own h = refl
  marks_need_own (r ∷ repos) own h =
      let ih = marks_need_own repos own.1 in let only = own.0.0 in ground (arith, ih, only, h)

  pub few_marks :
      (repos : List Repository) → IsServed tenant repos → count (is_marked tenant) repos ≤ 1
  few_marks repos s = elim (Bool-cases (any (is_own tenant) repos)) [
    | inl some_own ↦ let one = s.one some_own in omega (arith, one)
    | inr none_left ↦
        let zero_marks =
          count_none (is_marked tenant) repos (marks_need_own repos s.own none_left) in
        omega (arith, zero_marks)
  ]

  -- Rows are deleted, and the default is ensured.
  removal-IsServed :
      (keep : Repository → Bool) (repos repos' : List Repository)
      → IsServed tenant repos
      → ensure_default_repository tenant (keep_if keep repos) ≡ ok repos'
      → IsServed tenant repos'
  removal-IsServed keep repos repos' s h =
      ensure-IsServed (keep_if keep repos) repos'
        (λ j.
          let fewer = count_kept (λ r. r.id == j) keep repos in
          let unique = s.unique j in omega (arith, fewer, unique))
        (OwnMarks-kept keep repos s.own)
        (let fewer = count_kept (is_marked tenant) keep repos in
          let few = few_marks repos s in omega (arith, fewer, few))
        h

  pub delete_repository-IsServed :
      (i : ℕ) (repos repos' : List Repository)
      → IsServed tenant repos
      → delete_repository tenant i repos ≡ ok repos'
      → IsServed tenant repos'
  unfolding delete_repository
  delete_repository-IsServed i repos repos' s h =
      let (found, reads, rest) =
        >>=-eq-ok (repository tenant i repos)
          (λ found. ensure_default_repository tenant (keep_if (λ r. not (r.id == i)) repos)) h in
      removal-IsServed (λ r. not (r.id == i)) repos repos' s rest

  pub delete_connection-IsServed :
      (i : ℕ) (connections connections' : List Connection) (repos repos' : List Repository)
      → IsServed tenant repos
      → delete_connection tenant i connections repos ≡ ok (connections', repos')
      → IsServed tenant repos'
  unfolding delete_connection
  delete_connection-IsServed i connections connections' repos repos' s h =
      let (found, reads, rest) =
        >>=-eq-ok (or_not_found (connection_or_none tenant i connections)) removal h in
      let (left, ensured, done) =
        >>=-eq-ok
          (ensure_default_repository tenant (keep_if (λ r. not (r.connection_id == i)) repos))
          answer rest in
      let same : left ≡ repos' = cc in
      removal-IsServed (λ r. not (r.connection_id == i)) repos repos' s (ensured ∙ ap ok same)
    where
      answer : List Repository → Result (List Connection × List Repository)
      answer left = ok (keep_if (λ c. not (c.id == i)) connections, left)

      removal : Connection → Result (List Connection × List Repository)
      removal found = (do
        left ← ensure_default_repository tenant (keep_if (λ r. not (r.connection_id == i)) repos)
        answer left)

-- ===== src/Repositories.antt =====
-- The git repositories of a tenant: the methods of `CardStore` in apps/backend/cfactory/cards.py that write
-- them, and the resolution of a repository. The rows are those of
-- apps/backend/cfactory/git_connections.py, in the order of their ids; the validation of the fields is
-- left to the caller, so a request brings them as they are stored.
pub mod Defaults
pub mod Served
pub mod Steps
pub mod Gone
mod Examples
use cfactory.Prelude.{
  ℕ, ◌+◌, Bool, true, false, ◌&&◌, ◌||◌, not, Option, none, some, List, [], ◌∷◌, ◌++◌, map, ◌==◌,
  if◌then◌else◌, Text, text_eq, option_eq, is_some, any, keep_if, is_empty,
}
use cfactory.Prelude.Results.{Result, ok, raise, resource_not_found, value_error, ◌>>=◌}
use cfactory.Prelude.Strings.{strip}

-- `GitRepositoryRow`
pub record Repository : Type 0 where
  pub id : ℕ
  pub tenant_id : Text
  pub connection_id : ℕ
  pub project : Text
  pub intake_project : Option Text
  pub aifactory_project_id : Option Text
  pub default_labels : List Text
  pub default_for_tenant : Option Text

-- `GitConnectionRow`, as far as it is read here
pub record Connection : Type 0 where
  pub id : ℕ
  pub tenant_id : Text

-- What `repository_fields` returns
pub record Fields : Type 0 where
  pub project : Text
  pub intake_project : Option Text
  pub aifactory_project_id : Option Text
  pub default_labels : List Text

-- `is_default`
abbrev pub is_default : Repository → Bool
is_default repo = is_some repo.default_for_tenant

abbrev pub first_repo : (Repository → Bool) → List Repository → Option Repository
first_repo test [] = none
first_repo test (r ∷ repos) = let rest = first_repo test repos in if test r then some r else rest

abbrev pub first_connection : (Connection → Bool) → List Connection → Option Connection
first_connection test [] = none
first_connection test (c ∷ connections) =
    let rest = first_connection test connections in if test c then some c else rest

abbrev pub or_not_found {ℓ} : {A : Type ℓ} → Option A → Result A
or_not_found none = raise resource_not_found
or_not_found (some a) = ok a

module _ (tenant : Text) where
  -- `repositories`
  unfoldable pub repositories : List Repository → List Repository
  repositories repos = keep_if (λ r. text_eq r.tenant_id tenant) repos

  -- `repository`
  unfoldable pub repository : ℕ → List Repository → Result Repository
  repository repository_id repos =
      or_not_found (first_repo (λ r. r.id == repository_id && text_eq r.tenant_id tenant) repos)

  -- `_connection_or_none`, and `connection`
  abbrev pub connection_or_none : ℕ → List Connection → Option Connection
  connection_or_none connection_id connections =
      first_connection (λ c. c.id == connection_id && text_eq c.tenant_id tenant) connections

  -- The rows after `set_default_repository` has cleared one default and set the other
  unfoldable pub marked : ℕ → Repository → Repository
  marked repository_id r =
      if r.id == repository_id
      then record r { default_for_tenant = some tenant }
      else (if option_eq r.default_for_tenant (some tenant)
          then record r { default_for_tenant = none }
          else r)

  -- `set_default_repository`
  unfoldable pub set_default_repository : ℕ → List Repository → Result (List Repository)
  unfolding repository marked
  set_default_repository repository_id repos = do
    found ← repository repository_id repos
    ok (map (marked repository_id) repos)

  abbrev pub promote_first : List Repository → List Repository → Result (List Repository)
  promote_first [] repos = ok repos
  promote_first (r ∷ remaining) repos =
      if any is_default (r ∷ remaining) then ok repos else set_default_repository r.id repos

  -- `_ensure_default_repository`
  unfoldable pub ensure_default_repository : List Repository → Result (List Repository)
  unfolding repositories set_default_repository
  ensure_default_repository repos = promote_first (repositories repos) repos

  -- `default_repository`, with its connection
  unfoldable pub default_repository :
      List Connection → List Repository → Option (Connection × Repository)
  default_repository connections repos =
      elim (first_repo (λ r. option_eq r.default_for_tenant (some tenant)) repos) [
        | none ↦ none
        | some repo ↦ elim (connection_or_none repo.connection_id connections) [
          | none ↦ none
          | some connection ↦ some (connection, repo)
        ]
      ]

  -- `GitRepositoryRow(...)`, with the id that the database gives it
  abbrev pub new_repository : ℕ → ℕ → Fields → Repository
  new_repository id connection_id fields = record {
    id = id;
    tenant_id = tenant;
    connection_id = connection_id;
    project = fields.project;
    intake_project = fields.intake_project;
    aifactory_project_id = fields.aifactory_project_id;
    default_labels = fields.default_labels;
    default_for_tenant = none;
  }

  -- The index on `connection_id` and `project`
  abbrev pub is_repeated : ℕ → Text → List Repository → Bool
  is_repeated connection_id project repos =
      any (λ r. r.connection_id == connection_id && text_eq r.project project) repos

  abbrev pub make_first : Bool → ℕ → List Repository → Result (List Repository)
  make_first false id repos = ok repos
  make_first true id repos = set_default_repository id repos

  -- `create_repository`. `GitConfigError` is a `ValueError`.
  unfoldable pub create_repository :
      ℕ → ℕ → Fields → Bool → List Connection → List Repository → Result (List Repository)
  unfolding default_repository set_default_repository
  create_repository id connection_id fields make_default connections repos = do
    connection ← or_not_found (connection_or_none connection_id connections)
    (if is_repeated connection_id fields.project repos
        then raise value_error
        else make_first (make_default || not (is_some (default_repository connections repos))) id
            (repos ++ new_repository id connection_id fields ∷ []))

  -- `delete_repository`
  unfoldable pub delete_repository : ℕ → List Repository → Result (List Repository)
  unfolding repository ensure_default_repository
  delete_repository repository_id repos = do
    found ← repository repository_id repos
    ensure_default_repository (keep_if (λ r. not (r.id == repository_id)) repos)

  -- `delete_connection`, of these two tables; the credential and the installs that go with it are not modelled
  unfoldable pub delete_connection :
      ℕ → List Connection → List Repository → Result (List Connection × List Repository)
  unfolding ensure_default_repository
  delete_connection connection_id connections repos = do
    found ← or_not_found (connection_or_none connection_id connections)
    left ← ensure_default_repository (keep_if (λ r. not (r.connection_id == connection_id)) repos)
    ok (keep_if (λ c. not (c.id == connection_id)) connections, left)

  abbrev pub preferred : List Repository → Option Repository
  preferred matches = elim (first_repo is_default matches) [
    | some repo ↦ some repo
    | none ↦ first_repo (λ r. true) matches
  ]

  abbrev pub reached : Option Repository → List Connection → Option (Connection × Repository)
  reached none connections = none
  reached (some repo) connections = elim (connection_or_none repo.connection_id connections) [
    | none ↦ none
    | some connection ↦ some (connection, repo)
  ]

  abbrev pub or_resolved :
      Option (Connection × Repository)
      → Option (Connection × Repository)
      → Option (Connection × Repository)
  or_resolved none rest = rest
  or_resolved (some found) rest = some found

  abbrev pub text_of : Option Text → Text
  text_of none = []
  text_of (some s) = s

  -- The match by `project`, and the default
  unfoldable pub resolve_project :
      Option Text → List Connection → List Repository → Option (Connection × Repository)
  unfolding repositories default_repository strip
  resolve_project project connections repos =
      let wanted = strip (text_of project) in
      if is_empty wanted
      then default_repository connections repos
      else or_resolved
          (reached (preferred (keep_if (λ r. text_eq r.project wanted) (repositories repos)))
            connections)
          (default_repository connections repos)

  -- `resolve_repository`
  unfoldable pub resolve_repository :
      Option ℕ
      → Option Text
      → List Connection
      → List Repository
      → Result (Option (Connection × Repository))
  unfolding repository resolve_project
  resolve_repository none project connections repos = ok (resolve_project project connections repos)
  resolve_repository (some id) project connections repos = do
    repo ← repository id repos
    ok (or_resolved (reached (some repo) connections) (resolve_project project connections repos))

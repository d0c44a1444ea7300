-- ===== src/Repositories/Steps.antt =====
-- Every write of the repositories in apps/backend/cfactory/cards.py, and the one default.
use cfactory.Prelude.{ℕ, ◌≡◌, Bool, false, List, ◌==◌, Text, any}
use cfactory.Prelude.Results.{ok}
use cfactory.Repositories.{
  Repository, Connection, Fields, set_default_repository, create_repository, delete_repository,
  delete_connection,
}

module _ (tenant : Text) where
  -- The calls that write repositories, each where it returned. The database gives a new row an id that no
  -- row has.
  pub data RepositoryStep (repos : List Repository) : List Repository → Type 0 where
    created :
        {repos' : List Repository} (i c : ℕ) (fields : Fields) (make_default : Bool)
        (connections : List Connection)
        → any (λ r. r.id == i) repos ≡ false
        → create_repository tenant i c fields make_default connections repos ≡ ok repos'
        → RepositoryStep repos repos'
    deleted :
        {repos' : List Repository} (i : ℕ)
        → delete_repository tenant i repos ≡ ok repos'
        → RepositoryStep repos repos'
    chosen :
        {repos' : List Repository} (i : ℕ)
        → set_default_repository tenant i repos ≡ ok repos'
        → RepositoryStep repos repos'
    disconnected :
        {repos' : List Repository} (i : ℕ) (connections connections' : List Connection)
        → delete_connection tenant i connections repos ≡ ok (connections', repos')
        → RepositoryStep repos repos'

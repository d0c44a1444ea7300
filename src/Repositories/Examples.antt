-- ===== src/Repositories/Examples.antt =====
-- The theorems on the repositories of cards.py at a tenant with two of them.
use cfactory.Prelude.{◌≡◌, refl, none, some, List, [], ◌∷◌, Text, codes}
use cfactory.Prelude.Results.{raise, resource_not_found}
use cfactory.Repositories.{Repository, delete_repository, resolve_repository}
use cfactory.Repositories.Gone.{delete_then_resolve}

abbrev team : Text
team = codes "acme"

abbrev app : Repository
app = record {
  id = 1;
  tenant_id = team;
  connection_id = 5;
  project = codes "org/app";
  intake_project = none;
  aifactory_project_id = none;
  default_labels = [];
  default_for_tenant = some team;
}

abbrev site : Repository
site = record app { id = 2; project = codes "org/site"; default_for_tenant = none }

abbrev both : List Repository
both = app ∷ site ∷ []

-- What is left without the first: the other, which is the default now
abbrev rest : List Repository
rest = record site { default_for_tenant = some team } ∷ []

delete_then_resolve_example :
    resolve_repository team (some 1) none [] rest ≡ raise resource_not_found
unfolding delete_repository
delete_then_resolve_example = delete_then_resolve team 1 none [] both rest refl

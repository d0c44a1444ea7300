-- ===== src/Actions/Examples.antt =====
-- The theorem on actions.py at a merge of two steps.
use cfactory.Prelude.{◌⊎◌, true, some, [], ◌∷◌, Text, codes}
use cfactory.Prelude.Results.{ok}
use cfactory.Actions.{PreparedAction, Settings, Web, object, boolean, execute_action}
use cfactory.Actions.Chain.{Quiet, Confirmed, execute_action_sends}

abbrev local : Settings
local = record {
  pfactory_api_url = codes "http://pfactory";
  aifactory_api_url = codes "http://aifactory";
  tfactory_api_url = codes "http://tfactory";
  upstream_token = some (codes "secret");
}

abbrev accepts : Web Text
accepts = record {
  urlsplit = λ s. ok ([], []);
  answer = λ sent request. ok (record {
    status_code = 200;
    json = some (object ((codes "success", boolean true) ∷ []));
    text = [];
  });
}

abbrev merge : PreparedAction Text
merge = record {
  correlation_key = codes "org/app#7";
  target_service = codes "aifactory";
  step = record {
    method = codes "POST";
    endpoint = codes "/api/tasks/t1/worktree/create-pr";
    payload = [];
  };
  follow_ups =
      record {
        method = codes "POST";
        endpoint = codes "/api/tasks/t1/worktree/merge";
        payload = [];
      }
      ∷ [];
}

execute_action_sends_example :
    Quiet accepts [] (execute_action accepts local merge [])
    ⊎ Confirmed accepts local merge [] (execute_action accepts local merge [])
execute_action_sends_example = execute_action_sends accepts local merge []

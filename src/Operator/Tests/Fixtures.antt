-- ===== src/Operator/Tests/Fixtures.antt =====
-- A cluster for the tests of the operator: it has the server's Secret, a group and two Routes.
use ogo.Base.{true, false, none, List, [], ◌∷◌, ◌==◌, contains, append_one, if◌then◌else◌}
use ogo.Base.Result.{ok, err}
use ogo.Controller.{Gateway, ApiError}
use ogo.Controller.Tests.Fixtures
use ogo.Operator.{finalizer_name}
use ogo.Operator.Kube.{Api, Key, Object, Run, fresh}
use ogo.Pki.Tests.{packages}
use ogo.Operator.Value.{end}
use ogo.Operator.Routes.{new_route, gateway_route, envoy_route}

abbrev pub gateway : Gateway
gateway = record Fixtures.gateway { finalizers = finalizer_name ∷ [] }

abbrev pub start : Run
start = record { trace = []; conditions = [] }

abbrev pub missing : ApiError
missing = record {
  not_found = true;
  already_exists = false;
  no_match = false;
  message = "not found";
}

abbrev server_secret : Key → Object
server_secret key = record (fresh key) { contents = ("ca.crt", "CA") ∷ [] }

abbrev pub routes : List Object
routes =
    new_route gateway (gateway_route gateway) end ∷ new_route gateway (envoy_route gateway) end ∷ []

abbrev pub cluster : Api
cluster = record {
  get = λ t key. if key.kind == "Secret" then ok (server_secret key) else err missing;
  list = λ t q. if q.kind == "Route" then ok routes else ok [];
  create = λ t o. none;
  update = λ t o. none;
  delete = λ t key. none;
  find = λ t key. ok none;
  ensure = λ t before o. none;
  is_served = λ t version. true;
  get_gateway = λ t. ok gateway;
  list_gateways = λ t. ok (gateway ∷ []);
  write_finalizers = λ t fs. none;
  write_status = λ t s. none;
  contains_finalizer = λ fs f. contains f fs;
  add_finalizer = λ fs f. append_one fs f;
  remove_finalizer = λ fs f. [];
  set_condition = λ cs c. c ∷ cs;
  find_condition = λ cs kind. none;
  remove_condition = λ cs kind. cs;
  deep_equal = λ v w. true;
  random_hex = λ t. "00";
  go = packages;
  moment = λ t. 0;
  config_hash = λ s. "hash";
  quote = λ s. s;
  show = λ n. "n";
  show_list = λ ss. "list";
  manifest = λ name. ok [];
  decode = λ s. err missing;
  has_text = λ s sub. false;
  sort_by_name = λ os. os;
}

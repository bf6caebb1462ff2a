-- ===== src/AuthBridge/OpenShift.antt =====
-- internal/authbridge/openshift.go: the client of OpenShift's OAuth server and of the Kubernetes
-- API. HTTP, JSON, base64, URL escaping, files and the environment are the record `Platform`; one
-- value of it answers one request of the bridge.
pub mod Groups
pub mod Identity
use Prim.Native.String.{◌++◌}
use mathlib.Core.List
use ogo.Base.{
  ℕ, String, Bool, true, false, Option, none, some, List, [], ◌∷◌, ◌==◌, starts_with, ◌&&◌, ◌||◌,
  not, if◌then◌else◌, nat_eq, contains,
}
use ogo.Base.Result.{Result, ok, err, ◌>>=◌, or_err}
use ogo.Text.{trim_space, trim_right_slash, trim_prefix}
use ogo.AuthBridge.{UserInfo}

pub record HttpRequest : Type 0 where
  pub method : String
  pub url : String
  pub headers : List (String × String)
  pub basic_auth : Option (String × String)
  pub body : String

pub data HttpReply : Type 0 where
  invalid_request : HttpReply  -- `http.NewRequestWithContext` failed
  failed : HttpReply  -- `Do` failed
  response : ℕ → String → HttpReply  -- the status code and the body

pub record TokenResponse : Type 0 where
  pub access_token : String
  pub token_type : String
  pub expires_in : ℕ
  pub refresh_token : String

pub record TokenReview : Type 0 where
  pub authenticated : Bool
  pub uid : String

pub record Platform : Type 0 where
  pub do_http : HttpRequest → HttpReply
  pub do_sa : HttpRequest → HttpReply  -- the client that follows no redirect
  pub read_file : String → Option String
  pub getenv : String → String
  pub encode_form : List (String × String) → String
  pub path_escape : String → String
  pub decode_token : String → Option TokenResponse
  pub decode_user : String → Option UserInfo
  pub decode_review : String → Option TokenReview
  pub decode_group_users : String → Option (List String)
  pub marshal_review : String → Option String
  pub base64_std : String → Option String
  pub base64_raw : String → Option String

pub data ApiError : Type 0 where
  bad_request request_failed bad_body no_sa_token empty_sa_token : ApiError
  bad_status : ℕ → ApiError
  not_authenticated no_uid : ApiError

pub record OpenShiftClient : Type 0 where
  pub oauth_server_url : String
  pub client_id : String
  pub client_secret : String
  pub sa_token_path : String

abbrev pub default_sa_token_path : String
default_sa_token_path = "/var/run/secrets/kubernetes.io/serviceaccount/token"

unfoldable pub new_openshift_client : String → String → String → OpenShiftClient
new_openshift_client oauth_server_url client_id client_secret = record {
  oauth_server_url = trim_right_slash oauth_server_url;
  client_id = client_id;
  client_secret = client_secret;
  sa_token_path = default_sa_token_path;
}

unfoldable pub authorization_url : OpenShiftClient → String
authorization_url c = c.oauth_server_url ++ "/oauth/authorize"

unfoldable pub token_url : OpenShiftClient → String
token_url c = c.oauth_server_url ++ "/oauth/token"

-- The status and the body of an answer, or the error of the request.
abbrev pub answered : HttpReply → Result ApiError (ℕ × String)
answered invalid_request = err bad_request
answered failed = err request_failed
answered (response status body) = ok (status, body)

abbrev pub expect : Bool → ApiError → Result ApiError (Unit {0})
expect true e = ok tt
expect false e = err e

abbrev pub bearer : String → String × String
bearer token = ("Authorization", "Bearer " ++ token)

-- the loop that adds the extra groups; `seen` is filled before it
unfoldable pub append_unseen : List String → List String → List String → List String
append_unseen seen [] groups = groups
append_unseen seen (g ∷ gs) groups =
    append_unseen seen gs (if contains g seen then groups else List.◌++◌ groups (g ∷ []))

-- the last tests of `tokenReviewUID`
unfoldable pub accept_review : TokenReview → Result ApiError String
accept_review review =
    if not review.authenticated
    then err not_authenticated
    else if review.uid == ""
    then err no_uid
    else ok review.uid

module _ (p : Platform) where
  unfoldable pub kube_api_url : String
  kube_api_url =
      let api_url = p.getenv "KUBERNETES_API_URL" in
      trim_right_slash (if api_url == "" then "https://kubernetes.default.svc:443" else api_url)

  unfoldable pub exchange_code : OpenShiftClient → String → String → Result ApiError TokenResponse
  exchange_code c code redirect_uri = do
    (status, body) ← answered (
        p.do_http (record {
          method = "POST";
          url = token_url c;
          headers = ("Content-Type", "application/x-www-form-urlencoded") ∷ [];
          basic_auth = some (c.client_id, c.client_secret);
          body = p.encode_form (
              ("grant_type", "authorization_code")
              ∷ ("code", code)
              ∷ ("redirect_uri", redirect_uri)
              ∷ []);
        }))
    _ ← expect (nat_eq status 200) (bad_status status)
    or_err bad_body (p.decode_token body)

  -- the service account's own token: the first lines of both lookups below
  unfoldable pub sa_token : OpenShiftClient → Result ApiError String
  sa_token c = do
    raw ← or_err no_sa_token (p.read_file c.sa_token_path)
    let token = trim_space raw
    if token == "" then err empty_sa_token else ok token

  unfoldable pub review_request : String → String → HttpRequest
  review_request own_token req_body = record {
    method = "POST";
    url = kube_api_url ++ "/apis/authentication.k8s.io/v1/tokenreviews";
    headers = bearer own_token ∷ ("Content-Type", "application/json") ∷ [];
    basic_auth = none;
    body = req_body;
  }

  unfoldable pub token_review_uid : OpenShiftClient → String → Result ApiError String
  token_review_uid c token = do
    own_token ← sa_token c
    req_body ← or_err bad_request (p.marshal_review token)
    (status, body) ← answered (p.do_sa (review_request own_token req_body))
    _ ← expect (nat_eq status 201 || nat_eq status 200) (bad_status status)
    review ← or_err bad_body (p.decode_review body)
    accept_review review

  -- the name that an entry of a group stands for; `none` is an entry that does not decode
  unfoldable pub candidate : String → Option String
  candidate u =
      if starts_with u "b64:"
      then elim (p.base64_std (trim_prefix u "b64:")) [
        | some decoded ↦ some decoded
        | none ↦ p.base64_raw (trim_prefix u "b64:")
      ]
      else some u

  -- the loop over one group's users, true at its `break`
  unfoldable pub lists_user : String → List String → Bool
  unfolding candidate
  lists_user username [] = false
  lists_user username (u ∷ users) =
      let later = lists_user username users in
      elim (candidate u) [ none ↦ later | some name ↦ if name == username then true else later ]

  unfoldable pub group_request : String → String → HttpRequest
  group_request own_token group_name = record {
    method = "GET";
    url = kube_api_url ++ ("/apis/user.openshift.io/v1/groups/" ++ p.path_escape group_name);
    headers = bearer own_token ∷ [];
    basic_auth = none;
    body = "";
  }

  -- one lookup of a Group: whether it holds the user; a group that does not exist does not
  unfoldable pub group_has : OpenShiftClient → String → String → String → Result ApiError Bool
  group_has c own_token username group_name = do
    (status, body) ← answered (p.do_sa (group_request own_token group_name))
    if nat_eq status 404 then ok false else do
      _ ← expect (nat_eq status 200) (bad_status status)
      users ← or_err bad_body (p.decode_group_users body)
      ok (lists_user username users)

  -- the loop over the group names, with what it has matched
  unfoldable pub check_groups :
      OpenShiftClient → String → String → List String → List String → Result ApiError (List String)
  check_groups c own_token username [] matched = ok matched
  check_groups c own_token username (g ∷ gs) matched = do
    found ← if g == "" then ok false else group_has c own_token username g
    check_groups c own_token username gs (if found then List.◌++◌ matched (g ∷ []) else matched)

  unfoldable pub check_group_memberships :
      OpenShiftClient → String → List String → Result ApiError (List String)
  check_group_memberships c username group_names = do
    own_token ← sa_token c
    check_groups c own_token username group_names []

  -- what `GetUserInfo` adds for a service account
  unfoldable pub complete_service_account :
      OpenShiftClient → String → List String → UserInfo → Result ApiError UserInfo
  complete_service_account c access_token group_names info = do
    groups ← elim group_names [
      | [] ↦ ok info.groups
      | g ∷ gs ↦ do
        extra ← check_group_memberships c info.name (g ∷ gs)
        ok (append_unseen info.groups extra info.groups)
    ]
    uid ← if info.uid == "" then token_review_uid c access_token else ok info.uid
    ok (record info { groups = groups; uid = uid })

  unfoldable pub user_request : String → HttpRequest
  user_request access_token = record {
    method = "GET";
    url = kube_api_url ++ "/apis/user.openshift.io/v1/users/~";
    headers = bearer access_token ∷ [];
    basic_auth = none;
    body = "";
  }

  unfoldable pub get_user_info : OpenShiftClient → String → List String → Result ApiError UserInfo
  get_user_info c access_token group_names = do
    (status, body) ← answered (p.do_http (user_request access_token))
    _ ← expect (nat_eq status 200) (bad_status status)
    info ← or_err bad_body (p.decode_user body)
    if starts_with info.name "system:serviceaccount:"
        then complete_service_account c access_token group_names info
        else ok info

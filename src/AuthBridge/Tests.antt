-- ===== src/AuthBridge/Tests.antt =====
-- The theorems about internal/authbridge at concrete inputs.
pub mod Fixtures
mod Serving
mod Discovery
use ogo.Base.{
  ℕ, ◌+◌, ◌*◌, String, ◌≡◌, ◌≢◌, ◌↔◌, ◌⊎◌, inl, inr, refl, true, false, none, some, List, [], ◌∷◌,
  ◌++◌, arith, contains,
}
use ogo.Base.Result.{ok, err}
use ogo.AuthBridge.{UserInfo}
use ogo.AuthBridge.Access.{
  is_authorized, is_authorized_iff, IsAmong, IsAdmin, map_roles, map_roles_cases, role_user,
  role_admin,
}
use ogo.AuthBridge.Redirect.{is_allowed_redirect_uri, IsAllowed, is_allowed_redirect_uri_iff}
use ogo.AuthBridge.ClientState.{
  split_state, combined_state, NoColon, split_state-combined_state, split_state_cases,
}
use ogo.AuthBridge.OpenShift.{
  get_user_info, sa_token, check_group_memberships, check_groups, group_has,
  complete_service_account, token_review_uid, accept_review, lists_user, candidate, append_unseen,
}
use ogo.AuthBridge.OpenShift.Groups.{HoldsUser, check_group_memberships_iff}
use ogo.AuthBridge.OpenShift.Identity.{
  Answered, Completed, get_user_info_plain, get_user_info_service_account,
}
use ogo.Text.{trim_space, trim_prefix}
use Fixtures.{config, urls, client_uri, client, alice, bot, platform}

is_allowed_redirect_uri_iff_example :
    (is_allowed_redirect_uri urls.parse config client_uri ≡ true)
    ↔ IsAllowed urls.parse config client_uri
is_allowed_redirect_uri_iff_example = is_allowed_redirect_uri_iff urls.parse config client_uri

split_state-combined_state_example :
    split_state (combined_state "ab" "x:y") ≡ record { bridge = "ab"; client = "x:y" }
split_state-combined_state_example = split_state-combined_state "ab" "x:y" (refl, (refl, tt))

get_user_info_service_account_example :
    (raw : UserInfo) × Answered (platform bot) client "t" ("users" ∷ []) raw
    × Completed
        (platform bot)
        client
        "t"
        ("users" ∷ [])
        raw
        (record bot { uid = "u9"; groups = "users" ∷ [] })
unfolding get_user_info complete_service_account check_group_memberships sa_token check_groups
    group_has lists_user candidate append_unseen token_review_uid accept_review trim_space
    trim_prefix contains
get_user_info_service_account_example =
    get_user_info_service_account (platform bot) client "t" ("users" ∷ [])
      (record bot { uid = "u9"; groups = "users" ∷ [] }) refl refl

-- ===== src/Operator/Routes/OauthClient.antt =====
-- internal/controller/openshellgateway_controller.go, reconcileOAuthClient: the secret of the
-- bridge's OAuth client, and the OAuthClient of the cluster that has it.
pub mod Synced
use Prim.Native.String.{◌++◌}
use ogo.Base.{String, Bool, false, Option, none, some, List, [], ◌∷◌, ◌==◌, ◌&&◌, if◌then◌else◌}
use ogo.Base.Result.{Result, ok, err}
use ogo.Controller.{Gateway, gateway_namespace, secret_data}
use ogo.Operator.{gateway_labels, auth_bridge_external_url}
use ogo.Operator.Value.{Value, text, text_list, item, end, field, set_field, texts_of}
use ogo.Operator.Kube.{
  Key, key_of, Object, fresh, Api, K, ◌>>=◌, ◌>>◌, give, done, fail_with, wrap, create, update,
  drawn,
}
use ogo.Operator.Trust.{get_optional}

abbrev pub oauth_secret_key : Gateway → Key
oauth_secret_key gw = key_of "Secret" (gateway_namespace gw) (gw.name ++ "-oauth-client")

abbrev pub oauth_client_key : Key
oauth_client_key = key_of "OAuthClient" "" "openshell"

unfoldable pub oauth_secret : Gateway → (secret : String) → Object
oauth_secret gw secret = record (fresh (oauth_secret_key gw)) {
  labels = gateway_labels gw;
  contents = ("secret", secret) ∷ [];
  body = texts_of (("type", "Opaque") ∷ []);
}

unfoldable pub callback_url : Gateway → String
callback_url gw = auth_bridge_external_url gw ++ "/callback"

-- the three fields that are kept as they should be
unfoldable pub fill_oauth_client : Gateway → (secret : String) → Object → Object
fill_oauth_client gw secret o = record o {
  body = set_field "secret" (text secret) (
      set_field "redirectURIs" (text_list (callback_url gw ∷ []))
        (set_field "grantMethod" (text "auto") o.body));
}

unfoldable pub new_oauth_client : Gateway → (secret : String) → Object
new_oauth_client gw secret =
    let labelled = record (fresh oauth_client_key) { labels = gateway_labels gw } in
    fill_oauth_client gw secret labelled

-- `NestedString` of a field: an error where it is not a text, "" where it is missing
unfoldable pub as_string : (k : String) → Option Value → Result String String
as_string k none = ok ""
as_string k (some (text s)) = ok s
as_string k (some _) = err (k ++ " accessor error")

unfoldable pub string_field : String → Value → Result String String
unfolding as_string
string_field k v = as_string k (field k v)

-- `NestedStringSlice` of a field
abbrev texts : Value → Option (List String)
texts end = some []
texts (item (text s) v) = elim (texts v) [ none ↦ none | some ss ↦ some (s ∷ ss) ]
texts _ = none

unfoldable pub as_strings : (k : String) → Option Value → Result String (List String)
as_strings k none = ok []
as_strings k (some w) = elim (texts w) [ none ↦ err (k ++ " accessor error") | some ss ↦ ok ss ]

unfoldable pub texts_field : String → Value → Result String (List String)
unfolding as_strings
texts_field k v = as_strings k (field k v)

-- `slices.Equal(xs, []string{x})`
unfoldable pub is_only : String → List String → Bool
is_only x (y ∷ []) = y == x
is_only x _ = false

-- a field that was read, or the error of reading it
abbrev reading : {A : Type 0} → (what : String) → Result String A → K A
reading what (err message) =
    fail_with ("reading existing OAuthClient " ++ (what ++ (": " ++ message)))
reading what (ok a) = give a

module _ (api : Api) where
  -- the secret there is, or a new one
  unfoldable pub obtain_secret : Gateway → Option Object → K String
  obtain_secret gw (some o) = give (secret_data "secret" o.contents)
  obtain_secret gw none = do
    secret ← drawn api (λ t. ok (api.random_hex t))
    wrap "creating OAuth client secret: " (create api (oauth_secret gw secret))
    give secret

  unfoldable pub write_unless :
      Gateway → (secret : String) → Object → (in_sync : Bool) → K (Unit {0})
  write_unless gw secret existing in_sync =
      if in_sync then done else update api (fill_oauth_client gw secret existing)

  unfoldable pub sync_oauth_client : Gateway → (secret : String) → Option Object → K (Unit {0})
  sync_oauth_client gw secret none = create api (new_oauth_client gw secret)
  sync_oauth_client gw secret (some existing) = do
    old_secret ← reading "secret" (string_field "secret" existing.body)
    uris ← reading "redirectURIs" (texts_field "redirectURIs" existing.body)
    method ← reading "grantMethod" (string_field "grantMethod" existing.body)
    write_unless gw secret existing
        (old_secret == secret && (is_only (callback_url gw) uris && method == "auto"))

  unfoldable pub reconcile_oauth_client : Gateway → K (Unit {0})
  reconcile_oauth_client gw = do
    stored ← get_optional api (oauth_secret_key gw)
    secret ← obtain_secret gw stored
    existing ← get_optional api oauth_client_key
    sync_oauth_client gw secret existing

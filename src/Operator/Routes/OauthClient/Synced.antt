-- ===== src/Operator/Routes/OauthClient/Synced.antt =====
-- internal/controller/openshellgateway_controller.go, reconcileOAuthClient: the OAuthClient that a
-- sync leaves.
use ogo.Base.{
  String, ◌≡◌, ◌⊎◌, refl, ap, ◌∙◌, true, Option, none, some, List, [], ◌∷◌, ◌==◌, ◌&&◌, arith,
  eq_iff, Bool-cases, inl, inr, if◌then◌else◌,
}
use ogo.Base.Result.{ok, Result-cases}
use ogo.Controller.{Gateway, ApiError}
use ogo.Operator.Kube.{Object, created, updated, Run, Api, saw, create, update, unless_error}
use ogo.Operator.Value.{text, text_list, set_field}
use ogo.Operator.Value.Fields.{field-set_field, field-set_other}
use ogo.Operator.Routes.OauthClient.{
  callback_url, fill_oauth_client, new_oauth_client, string_field, texts_field, write_unless,
  is_only, as_string, as_strings, sync_oauth_client,
}

-- the three fields are as they should be
abbrev pub IsSynced : Gateway → (secret : String) → Object → Type 0
IsSynced gw secret o =
    (string_field "secret" o.body ≡ ok secret)
    × (texts_field "redirectURIs" o.body ≡ ok (callback_url gw ∷ []))
    × (string_field "grantMethod" o.body ≡ ok "auto")

fill_oauth_client-IsSynced :
    (gw : Gateway) (secret : String) (o : Object)
    → IsSynced gw secret (fill_oauth_client gw secret o)
unfolding fill_oauth_client string_field texts_field as_string as_strings
fill_oauth_client-IsSynced gw secret o =
    let grant = set_field "grantMethod" (text "auto") o.body in
    let uris = set_field "redirectURIs" (text_list (callback_url gw ∷ [])) grant in
    (
      ap (as_string "secret") (field-set_field "secret" (text secret) uris),
      ap (as_strings "redirectURIs") (
          field-set_other "redirectURIs" "secret" (text secret) uris refl
          ∙ field-set_field "redirectURIs" (text_list (callback_url gw ∷ [])) grant),
      ap (as_string "grantMethod") (
          field-set_other "grantMethod" "secret" (text secret) uris refl
          ∙ (field-set_other "grantMethod" "redirectURIs" (text_list (callback_url gw ∷ [])) grant
                refl
              ∙ field-set_field "grantMethod" (text "auto") o.body)),
    )

is_only-eq : (x : String) (xs : List String) → is_only x xs ≡ true → xs ≡ x ∷ []
unfolding is_only
is_only-eq x [] h = cc
is_only-eq x (y ∷ []) h = ap (λ z. z ∷ []) ((eq_iff y x).0 h)
is_only-eq x (y ∷ z ∷ zs) h = cc

module _ (api : Api) (gw : Gateway) (secret : String) where
  -- the cluster has an OAuthClient in that state: the one that was read, or the one just written
  abbrev pub Leaves : Option Object → Run → Run → Type 0
  Leaves existing r r' =
      (o : Object) × IsSynced gw secret o
      × (((existing ≡ some o) × (r' ≡ r))
          ⊎ ((r' ≡ saw (created o none) r) ⊎ (r' ≡ saw (updated o none) r)))

  created-Leaves :
      (o : Object) (e : Option ApiError) (r : Run) (x : Option Object)
      → IsSynced gw secret o
      → unless_error e ≡ ok tt
      → Leaves x r (saw (created o e) r)
  created-Leaves o none r x s h = (o, s, inr (inl refl))
  created-Leaves o (some e) r x s h = cc

  updated-Leaves :
      (o : Object) (e : Option ApiError) (r : Run) (x : Option Object)
      → IsSynced gw secret o
      → unless_error e ≡ ok tt
      → Leaves x r (saw (updated o e) r)
  updated-Leaves o none r x s h = (o, s, inr (inr refl))
  updated-Leaves o (some e) r x s h = cc

  keep_or_update :
      (o : Object) (r : Run) (s g : String) (us : List String)
      → string_field "secret" o.body ≡ ok s
      → texts_field "redirectURIs" o.body ≡ ok us
      → string_field "grantMethod" o.body ≡ ok g
      → (write_unless api gw secret o
          (s == secret && (is_only (callback_url gw) us && g == "auto"))
          r).0
        ≡ ok tt
      → Leaves
          (some o)
          r
          (write_unless api gw secret o
            (s == secret && (is_only (callback_url gw) us && g == "auto"))
            r).1
  unfolding write_unless update
  keep_or_update o r s g us e1 e2 e3 =
      elim (Bool-cases (s == secret && (is_only (callback_url gw) us && g == "auto"))) [
        | inl same ↦
            let same1 : s == secret ≡ true = ground arith in
            let same2 : is_only (callback_url gw) us ≡ true = ground arith in
            let same3 : g == "auto" ≡ true = ground arith in
            rw (same, if◌then◌else◌)
              (λ _. (
                o,
                (
                  e1 ∙ ap ok ((eq_iff s secret).0 same1),
                  e2 ∙ ap ok (is_only-eq (callback_url gw) us same2),
                  e3 ∙ ap ok ((eq_iff g "auto").0 same3),
                ),
                inl (refl, refl),
              ))
        | inr differs ↦
            rw (differs, if◌then◌else◌)
              (updated-Leaves (fill_oauth_client gw secret o)
                (api.update r.trace (fill_oauth_client gw secret o)) r (some o)
                (fill_oauth_client-IsSynced gw secret o))
      ]

  -- If a sync of the OAuthClient succeeds, the object that the cluster has then, which is the one
  -- that was read, or the one that was created or updated without an error as the only request,
  -- has the secret, exactly the one redirect URI, and the grant method auto.
  pub sync_oauth_client-Leaves :
      (existing : Option Object) (r : Run)
      → (sync_oauth_client api gw secret existing r).0 ≡ ok tt
      → Leaves existing r (sync_oauth_client api gw secret existing r).1
  unfolding sync_oauth_client create new_oauth_client
  sync_oauth_client-Leaves none r =
      created-Leaves (new_oauth_client gw secret) (api.create r.trace (new_oauth_client gw secret))
        r none (fill_oauth_client-IsSynced gw secret _)
  sync_oauth_client-Leaves (some o) r = elim (Result-cases (string_field "secret" o.body)) [
    | inr (e, e1) ↦ rw e1 (λ h. cc)
    | inl (s, e1) ↦ elim (Result-cases (texts_field "redirectURIs" o.body)) [
      | inr (e, e2) ↦ rw (e1, e2) (λ h. cc)
      | inl (us, e2) ↦ elim (Result-cases (string_field "grantMethod" o.body)) [
        | inr (e, e3) ↦ rw (e1, e2, e3) (λ h. cc)
        | inl (g, e3) ↦ rw (e1, e2, e3) (keep_or_update o r s g us e1 e2 e3)
      ]
    ]
  ]

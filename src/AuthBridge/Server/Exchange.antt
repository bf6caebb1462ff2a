-- ===== src/AuthBridge/Server/Exchange.antt =====
-- The token exchange of internal/authbridge/server.go, handleTokenExchange.
use ogo.Base.{
  ℕ, String, ◌≡◌, refl, true, inl, inr, arith, ◌==◌, eq_iff, Bool-cases, starts_with, ◌+◌,
}
use ogo.Base.Result.{Result, Result-cases, ok, err}
use ogo.AuthBridge.{UserInfo}
use ogo.Text.{trim_prefix}
use ogo.AuthBridge.Access.{is_authorized}
use ogo.AuthBridge.Jwt.{unix}
use ogo.AuthBridge.OpenShift.{Platform, get_user_info, ApiError}
use ogo.AuthBridge.Server.{
  Bridge, exchanged, ExchangeGrant, handle_token_exchange, exchange_user, mint_for, group_names,
}

module _ (b : Bridge) (p : Platform) (m n : ℕ) where
  -- The grant is that of this user: authorized, with a token minted at the first moment, and the
  -- end of its life counted from the second.
  pub record IsGrantFor (user : UserInfo) (g : ExchangeGrant) : Type 0 where
    pub authorized : is_authorized b.config user.name user.groups ≡ true
    pub minted : mint_for b m user ≡ ok g.access_token
    pub expires : g.expires_at ≡ unix (n + b.config.token_ttl)

  exchange_user-IsGrantFor :
      (r : Result ApiError UserInfo) (g : ExchangeGrant)
      → exchange_user b m n r ≡ exchanged g
      → (user : UserInfo) × (r ≡ ok user) × IsGrantFor user g
  unfolding exchange_user
  exchange_user-IsGrantFor (err _) g h = cc
  exchange_user-IsGrantFor (ok user) g h =
      elim (Bool-cases (is_authorized b.config user.name user.groups)) [
        | inr refused ↦ absurd (ground (arith, refused))
        | inl authorized ↦ elim (Result-cases (mint_for b m user)) [
          | inl (jwt, minted) ↦ (
            user,
            refl,
            record {
              authorized = authorized;
              minted = ground (arith, authorized, minted);
              expires = ground (arith, authorized, minted);
            },
          )
          | inr (x, failed) ↦ absurd (ground (arith, authorized, failed))
        ]
      ]

  -- If the token exchange answers a token, then the request was a POST with a bearer token,
  -- OpenShift, as it answers in this request, vouched for the user of that bearer token, the user
  -- is authorized, the token is the one minted for this user, and the end of its life is that of
  -- the configuration.
  pub exchanged_token-IsIssued :
      (method authorization : String) (g : ExchangeGrant)
      → handle_token_exchange b p method authorization m n ≡ exchanged g
      → (method ≡ "POST")
        × (starts_with authorization "Bearer " ≡ true)
        × ((user : UserInfo) × (get_user_info p b.osc
                (trim_prefix authorization "Bearer ")
                (group_names b)
              ≡ ok user)
            × IsGrantFor user g)
  unfolding handle_token_exchange
  exchanged_token-IsIssued method authorization g h = elim (Bool-cases (method == "POST")) [
    | inr other ↦ absurd (ground (arith, other))
    | inl post ↦ elim (Bool-cases (starts_with authorization "Bearer ")) [
      | inr other ↦ absurd (ground (arith, post, other))
      | inl bears ↦ (
        (eq_iff method "POST").0 post,
        bears,
        exchange_user-IsGrantFor _ g (rw (post, bears) at h),
      )
    ]
  ]

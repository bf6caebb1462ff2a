-- ===== src/Controller/Grpc/Quiet.antt =====
-- internal/controller/openshell_grpc.go: choosing a gateway and connecting to it only reads
-- and dials: it writes nothing and calls nothing.
use ogo.Base.{String, Option, none, some, ◌∷◌, inl, inr, Bool-cases, Option-cases}
use ogo.Base.Result.{Result, ok, err}
use ogo.Controller.{Gateway}
use ogo.Controller.Cluster.{
  World, History, Event, read, updated, status_updated, dialed, called, Credentials,
}
use ogo.Controller.Grpc.{
  resolve_gateway, dial_credentials, connect, target, tls_on, mint_admin_token, dial_connect_client,
  with_token, minted, gateway_client,
}

module _ {S : Type 0} where
  -- Neither the object nor its status is written, and the gateway is not called.
  abbrev pub IsQuietEvent : Event S → Type 0
  IsQuietEvent (updated _ _) = ⊥
  IsQuietEvent (status_updated _ _) = ⊥
  IsQuietEvent (called _ _ _) = ⊥
  IsQuietEvent _ = Unit

  -- The second history continues the first by events that write nothing and call nothing.
  pub data Quiet (h : History S) : History S → Type 0 where
    same : Quiet h h
    more : {k : History S} (e : Event S) → IsQuietEvent e → Quiet h k → Quiet h (e ∷ k)

  module _ (w : World S) where
    pub resolve_gateway-Quiet : (h k : History S) → Quiet h k → Quiet h (resolve_gateway w k).1
    unfolding resolve_gateway
    resolve_gateway-Quiet h k q = more read tt q

    dial_credentials-Quiet :
        (gw : Gateway) (h k : History S) → Quiet h k → Quiet h (dial_credentials w gw k).1
    unfolding dial_credentials
    dial_credentials-Quiet gw h k q = elim (Bool-cases (tls_on w gw.tls_enabled)) [
      | inl on ↦ rw on (more read tt q)
      | inr off ↦ rw off q
    ]

    connect-Quiet :
        (gw : Gateway) (h : History S) (r : Result String Credentials × History S)
        → Quiet h r.1
        → Quiet h (connect w gw r).1
    unfolding connect
    connect-Quiet gw h (err e, k) q = q
    connect-Quiet gw h (ok creds, k) q = elim (Option-cases (w.new_client k (target w gw) creds)) [
      | inl dialled ↦ rw (dialled, connect) (more dialed tt q)
      | inr (e, failed) ↦ rw (failed, connect) (more dialed tt q)
    ]

    with_token-Quiet :
        (token : String) (h : History S) (r : Option String × History S)
        → Quiet h r.1
        → Quiet h (with_token w token r).1
    with_token-Quiet token h (none, k) q = q
    with_token-Quiet token h (some e, k) q = q

    minted-Quiet :
        (gw : Gateway) (h : History S) (r : Result String String × History S)
        → Quiet h r.1
        → Quiet h (minted w gw r).1
    unfolding minted dial_connect_client
    minted-Quiet gw h (err e, k) q = q
    minted-Quiet gw h (ok token, k) q =
        with_token-Quiet token h (dial_connect_client w gw k)
          (connect-Quiet gw h (dial_credentials w gw k) (dial_credentials-Quiet gw h k q))

    pub gateway_client-Quiet :
        (gw : Gateway) (h k : History S) → Quiet h k → Quiet h (gateway_client w gw k).1
    unfolding gateway_client
    gateway_client-Quiet gw h k q = minted-Quiet gw h (mint_admin_token w gw k) (more read tt q)

-- ===== src/Controller/Policy/Singleton.antt =====
-- Which policy reaches the gateway at internal/controller/openshellpolicy_controller.go, and what
-- the deletion of a policy takes back.
use Prim.Native.String.{◌++◌}
use ogo.Base.{
  Bool, true, false, if◌then◌else◌, String, ◌≡◌, ◌≢◌, refl, Option, none, some, List, [], ◌∷◌, ◌==◌,
  not, inl, inr, ◌⊎◌, Bool-cases, arith, eq_iff,
}
use ogo.Base.Result.{Result, ok, err}
use ogo.Controller.{
  Gateway, ApiError, Condition, Outcome, after, fail, with_error, requeue_interval,
  gateway_retry_interval,
}
use ogo.Controller.Singleton.{
  oldest_by_creation_timestamp, IsOldest, oldest_by_creation_timestamp-IsOldest,
}
use ogo.Controller.Cluster.{
  read, status_updated, called, update_config, Code, invalid_argument, RpcError,
}
use ogo.Controller.Grpc.{resolve_gateway, gateway_client, rpc}
use ogo.Controller.Grpc.Quiet.{Quiet, same, more, resolve_gateway-Quiet, gateway_client-Quiet}
use ogo.Controller.Policy.{
  PolicyHistory, Policy, PolicyWorld, build_sandbox_policy, resolve_active_policy, pick_policy,
  set_not_ready,
}
use ogo.Controller.Policy.Sync.{
  applied_status, superseded_status, is_invalid_argument, finish_push, push, push_to, sync_active,
  reconcile_sync, write_status,
}

module _ (w : PolicyWorld) (p : Policy) (h : PolicyHistory) where
  -- The policy that is active according to the list of all policies.
  pub record Active (active : Policy) : Type 0 where
    pub items : List Policy
    pub listed : w.list_policies h ≡ ok items
    pub oldest : IsOldest (λ q. q.created_at) items active

  -- Without a call of the gateway it was found out that there is none, or that it cannot be
  -- reached.
  pub data Unavailable : (reason : String) → PolicyHistory → Type 0 where
    not_found :
        {k : PolicyHistory} (e : String)
        → Quiet h k
        → resolve_gateway w.world (read ∷ h) ≡ (err e, k)
        → Unavailable "GatewayNotFound" k
    unreachable :
        {k' k : PolicyHistory} (gw : Gateway) (e : String)
        → Quiet h k
        → resolve_gateway w.world (read ∷ h) ≡ (ok gw, k')
        → gateway_client w.world gw k' ≡ (err e, k)
        → Unavailable "GatewayUnreachable" k

  -- The gateway was reached with this token, and not called so far.
  pub record Reached (token : String) (k : PolicyHistory) : Type 0 where
    pub quiet : Quiet h k
    pub gateway : Gateway
    pub resolved : PolicyHistory
    pub found : resolve_gateway w.world (read ∷ h) ≡ (ok gateway, resolved)
    pub connected : gateway_client w.world gateway resolved ≡ (ok token, k)

  abbrev pub synced : (holds : Bool) → (reason message : String) → Condition
  synced holds reason message = record {
    kind = "Synced";
    holds = holds;
    reason = reason;
    message = message;
  }

  -- The status says Failed, with the reason in its condition and all else as it was; it is tried
  -- again in 30 seconds, unless the status could not be written.
  abbrev pub Failed : (reason : String) → PolicyHistory → Outcome × PolicyHistory → Type 0
  Failed reason k (o, k') =
      (message : String) × (answer : Option ApiError) × (k'
        ≡ status_updated
            (record p.status {
              conditions =
                  w.world.set_status_condition p.status.conditions (synced false reason message);
              phase = "Failed";
              observed_generation = p.generation;
            })
            answer
          ∷ k)
      × (((answer ≡ none) × (o ≡ after gateway_retry_interval))
          ⊎ ((e : ApiError) × (answer ≡ some e) × (o ≡ fail e.message)))

  -- The status says the phase and whether the policy is applied, and has the condition.
  abbrev pub Wrote :
      (phase : String)
      → (applied holds : Bool) → (reason : String) → PolicyHistory
      → Outcome × PolicyHistory
      → Type 0
  Wrote phase applied holds reason k x =
      (message : String) × (answer : Option ApiError) × (x ≡ (
        with_error (after requeue_interval) answer,
        status_updated
              (record {
                conditions =
                    w.world.set_status_condition p.status.conditions (synced holds reason message);
                phase = phase;
                applied_to_gateway = applied;
                observed_generation = p.generation;
              })
              answer
            ∷ k,
      ))

  abbrev pub refusal : Code → String
  refusal invalid_argument = "InvalidPolicySpec"
  refusal _ = "GatewayUnreachable"

  abbrev pub sent : String → Option RpcError → PolicyHistory → PolicyHistory
  sent token answer k = called token (update_config (build_sandbox_policy p.spec)) answer ∷ k

  -- What reconciling a policy that is not being deleted does.
  pub data Synchronization : Outcome × PolicyHistory → Type 0 where
    unlisted :
        {x : Outcome × PolicyHistory}
        → ((e : ApiError) × (w.list_policies h ≡ err e)) ⊎ (w.list_policies h ≡ ok [])
        → Failed "PolicyListFailed" (read ∷ h) x
        → Synchronization x
    superseded :
        {x : Outcome × PolicyHistory} (active : Policy)
        → Active active
        → active.uid ≢ p.uid
        → Wrote "Superseded" false false "AnotherPolicyActive" (read ∷ h) x
        → Synchronization x
    unavailable :
        {x : Outcome × PolicyHistory} {k : PolicyHistory} (reason : String) (active : Policy)
        → Active active
        → active.uid ≡ p.uid
        → Unavailable reason k
        → Failed reason k x
        → Synchronization x
    rejected :
        {x : Outcome × PolicyHistory} {k : PolicyHistory} (active : Policy)
        → Active active
        → active.uid ≡ p.uid
        → (token : String) (e : RpcError) → Reached token k
        → w.world.call k token (update_config (build_sandbox_policy p.spec)) ≡ some e
        → Failed (refusal e.code) (sent token (some e) k) x
        → Synchronization x
    applied :
        {x : Outcome × PolicyHistory} {k : PolicyHistory} (active : Policy)
        → Active active
        → active.uid ≡ p.uid
        → (token : String) → Reached token k
        → w.world.call k token (update_config (build_sandbox_policy p.spec)) ≡ none
        → Wrote "Synced" true true "Ready" (sent token none k) x
        → Synchronization x

  set_not_ready-Failed :
      (reason cause : String) (k : PolicyHistory)
      → Failed reason k (set_not_ready w p reason cause k)
  unfolding set_not_ready
  set_not_ready-Failed reason cause k = (_, _, refl, next (w.world.update_status k _))
    where
      next :
          (answer : Option ApiError)
          → ((answer ≡ none)
              × ((elim answer [ none ↦ after gateway_retry_interval | some e ↦ fail e.message ])
                  ≡ after gateway_retry_interval))
            ⊎ ((e : ApiError) × (answer ≡ some e)
                × ((elim answer [ none ↦ after gateway_retry_interval | some e ↦ fail e.message ])
                    ≡ fail e.message))
      next none = inl (refl, refl)
      next (some e) = inr (e, refl, refl)

  finish_push-Synchronization :
      {k : PolicyHistory} (active : Policy) (token : String) (answer : Option RpcError)
      → Active active
      → active.uid ≡ p.uid
      → Reached token k
      → w.world.call k token (update_config (build_sandbox_policy p.spec)) ≡ answer
      → Synchronization (finish_push w p (answer, sent token answer k))
  unfolding finish_push applied_status write_status
  finish_push-Synchronization active token none a own reached said =
      applied active a own token reached said (_, _, refl)
  finish_push-Synchronization {k} active token (some e) a own reached said =
      rejected active a own token e reached said (report e.code)
    where
      report :
          (code : Code)
          → Failed (refusal code) (sent token (some e) k) (
              if is_invalid_argument code
              then set_not_ready w p "InvalidPolicySpec" e.message (sent token (some e) k)
              else set_not_ready w p "GatewayUnreachable"
                  ("UpdateConfig: " ++ e.message)
                  (sent token (some e) k))
      report invalid_argument = set_not_ready-Failed "InvalidPolicySpec" _ _
      report _ = set_not_ready-Failed "GatewayUnreachable" _ _

  push-Synchronization :
      (active : Policy) (gw : Gateway) (k : PolicyHistory)
      (r : Result String String × PolicyHistory)
      → Active active
      → active.uid ≡ p.uid
      → Quiet h r.1
      → resolve_gateway w.world (read ∷ h) ≡ (ok gw, k)
      → gateway_client w.world gw k ≡ r
      → Synchronization (push w p r)
  unfolding push rpc
  push-Synchronization active gw k (err e, k') a own q found connected =
      unavailable "GatewayUnreachable" active a own (unreachable gw e q found connected)
        (set_not_ready-Failed "GatewayUnreachable" _ k')
  push-Synchronization active gw k (ok token, k') a own q found connected =
      finish_push-Synchronization active token _ a own
        (record { quiet = q; gateway = gw; resolved = k; found = found; connected = connected })
        refl

  push_to-Synchronization :
      (active : Policy) (r : Result String Gateway × PolicyHistory)
      → Active active
      → active.uid ≡ p.uid
      → Quiet h r.1
      → resolve_gateway w.world (read ∷ h) ≡ r
      → Synchronization (push_to w p r)
  unfolding push_to
  push_to-Synchronization active (err e, k) a own q found =
      unavailable "GatewayNotFound" active a own (not_found e q found)
        (set_not_ready-Failed "GatewayNotFound" e k)
  push_to-Synchronization active (ok gw, k) a own q found =
      push-Synchronization active gw k (gateway_client w.world gw k) a own
        (gateway_client-Quiet w.world gw h k q) found refl

  pick_policy-Active :
      (active : Policy) (r : Result ApiError (List Policy))
      → w.list_policies h ≡ r
      → pick_policy r ≡ ok active
      → Active active
  unfolding pick_policy oldest_by_creation_timestamp
  pick_policy-Active active (err e) listed picked = cc
  pick_policy-Active active (ok []) listed picked = cc
  pick_policy-Active active (ok (item ∷ items)) listed picked =
      let (o, first, oldest) =
        oldest_by_creation_timestamp-IsOldest (λ q. q.created_at) item items in
      let is_active : o ≡ active = cc in
      record { items = item ∷ items; listed = listed; oldest = rw (← is_active) oldest }

  pick_policy-failed :
      (e : String) (r : Result ApiError (List Policy))
      → pick_policy r ≡ err e
      → ((x : ApiError) × (r ≡ err x)) ⊎ (r ≡ ok [])
  unfolding pick_policy oldest_by_creation_timestamp
  pick_policy-failed e (err x) failed = inl (x, refl)
  pick_policy-failed e (ok []) failed = inr refl
  pick_policy-failed e (ok (item ∷ items)) failed =
      let (o, first, oldest) =
        oldest_by_creation_timestamp-IsOldest (λ (q : Policy). q.created_at) item items in
      cc

  sync_active-Synchronization :
      (r : Result String Policy)
      → (resolve_active_policy w h).0 ≡ r
      → Synchronization (sync_active w p (r, read ∷ h))
  unfolding sync_active resolve_active_policy write_status superseded_status
  sync_active-Synchronization (err e) picked =
      unlisted (pick_policy-failed e (w.list_policies h) picked)
        (set_not_ready-Failed "PolicyListFailed" e (read ∷ h))
  sync_active-Synchronization (ok active) picked = elim (Bool-cases (not (active.uid == p.uid))) [
    | inl other ↦
        rw (other, if◌then◌else◌)
          (superseded active (pick_policy-Active active (w.list_policies h) refl picked)
            (λ e. absurd (ground (arith, eq_iff active.uid p.uid))) (_, _, refl))
    | inr own ↦
        rw (own, if◌then◌else◌)
          (push_to-Synchronization active (resolve_gateway w.world (read ∷ h))
            (pick_policy-Active active (w.list_policies h) refl picked)
            (ground (arith, eq_iff active.uid p.uid))
            (resolve_gateway-Quiet w.world h (read ∷ h) (more read tt same)) refl)
  ]

  -- Reconciling a policy that is not being deleted does one of these: the list of the policies
  -- failed or is empty, and the status says Failed for that reason; another policy is the first of
  -- the oldest in the list, and the status says Superseded and not applied, without a look at the
  -- gateway; this one is, and the gateway was not found or not reached, and the status says Failed
  -- for that reason; or it was reached, and called once, with this policy, and the status says
  -- Synced and applied, or Failed with the reason that the code of the error stands for.
  pub reconcile_sync-Synchronization : Synchronization (reconcile_sync w p h)
  unfolding reconcile_sync resolve_active_policy
  reconcile_sync-Synchronization = sync_active-Synchronization (resolve_active_policy w h).0 refl

-- ===== src/Controller/Provider/Sync/Secrets.antt =====
-- The loop over the credentials of a provider, at
-- internal/controller/openshellprovider_controller.go.
use ogo.Base.{
  subst, sym, String, ◌≡◌, ◌≢◌, refl, Bool, true, false, not, Option, none, some, List, [], ◌∷◌,
  ◌==◌, inl, inr, Bool-cases, if◌then◌else◌, arith, eq_iff, contains, ◌||◌,
}
use ogo.Base.Result.{Result, Result-cases, ok, err}
use ogo.Dict.{Dict, lookup, insert}
use ogo.Controller.{Gateway, Secret, ApiError, Outcome}
use ogo.Controller.Cluster.{World, read, status_updated}
use ogo.Controller.Grpc.{resolve_gateway}
use ogo.Controller.Grpc.Quiet.{Quiet, same, more}
use ogo.Controller.Provider.{
  ProviderHistory, ProviderStatus, ProviderObject, SecretKeyRef, sorted_keys, insert_sorted,
  comes_first, set_not_ready, provider_finalizer,
}
use ogo.Controller.Provider.Sync.{
  Stop, broken, unreadable, credential_value, ref_of, gather_credentials, sync_gathered, sync_at,
  reconcile_sync, reconcile,
}

contains-insert_sorted :
    (a b : String) (bs : List String) → contains a (insert_sorted b bs) ≡ (b == a || contains a bs)
unfolding contains insert_sorted
contains-insert_sorted a b [] = refl
contains-insert_sorted a b (c ∷ cs) = elim (Bool-cases (comes_first b c)) [
  | inl first ↦ rw (first, if◌then◌else◌) refl
  | inr later ↦ rw (later, if◌then◌else◌) (ground (arith, contains-insert_sorted a b cs))
]

contains-sorted_keys :
    {V : Type 0} (k : String) (m : Dict V) (v : V)
    → lookup k m ≡ some v
    → contains k (sorted_keys m) ≡ true
unfolding lookup sorted_keys
contains-sorted_keys k [] v found = cc
contains-sorted_keys k ((j, u) ∷ m) v found = elim (Bool-cases (j == k)) [
  | inl here ↦ rw (contains-insert_sorted k j (sorted_keys m)) (rw (here, ◌||◌) refl)
  | inr there ↦
      rw (contains-insert_sorted k j (sorted_keys m))
        (rw (there, ◌||◌) (contains-sorted_keys k m v (ground (arith, found, there))))
]

third {ℓ} :
    {A : Type ℓ} (a b c : A) (x y : Bool)
    → x ≡ false
    → y ≡ true
    → (if x then a else if not y then b else c) ≡ c
third a b c x y e f = rw (e, f) refl

module _ (w : World ProviderStatus) (p : ProviderObject) where
  -- The Secret that the credential refers to does not have the key, whenever it can be read.
  abbrev pub KeyIsMissing : SecretKeyRef → Type 0
  KeyIsMissing ref =
      (h : ProviderHistory) (secret : Secret)
      → w.get_secret h p.namespace ref.name ≡ ok secret
      → lookup ref.key secret ≡ none

  -- The history goes on without a call of the gateway, but for a report in the status.
  pub data PushesNothing (h : ProviderHistory) : ProviderHistory → Type 0 where
    unreported : {k : ProviderHistory} → Quiet h k → PushesNothing h k
    reported :
        {k : ProviderHistory} (status : ProviderStatus) (answer : Option ApiError)
        → Quiet h k
        → PushesNothing h (status_updated status answer ∷ k)

  -- The loop stopped early, and only read.
  abbrev Stopped : ProviderHistory → Result Stop (Dict String) × ProviderHistory → Type 0
  Stopped h (ok _, k) = ⊥
  Stopped h (err _, k) = Quiet h k

  set_not_ready-PushesNothing :
      (reason cause : String) (h k : ProviderHistory)
      → Quiet h k
      → PushesNothing h (set_not_ready w p reason cause k).1
  unfolding set_not_ready
  set_not_ready-PushesNothing reason cause h k q = reported _ _ q

  sync_gathered-PushesNothing :
      (gw : Gateway) (h : ProviderHistory) (r : Result Stop (Dict String) × ProviderHistory)
      → Stopped h r
      → PushesNothing h (sync_gathered w gw p r).1
  unfolding sync_gathered
  sync_gathered-PushesNothing gw h (ok d, k) stopped = absurd stopped
  sync_gathered-PushesNothing gw h (err (broken reason cause), k) q =
      set_not_ready-PushesNothing reason cause h k q
  sync_gathered-PushesNothing gw h (err (unreadable message), k) q = unreported q

  missing-stops :
      (env_var : String) (ref : SecretKeyRef) (h : ProviderHistory)
      → KeyIsMissing ref
      → (value : String)
      → credential_value w env_var ref (w.get_secret h p.namespace ref.name) ≢ ok value
  unfolding credential_value
  missing-stops env_var ref h missing value found =
      elim (Result-cases (w.get_secret h p.namespace ref.name)) [
        | inl (secret, answered) ↦
            let no_key = missing h secret answered in absurd (ground (arith, answered, no_key))
        | inr (e, failed) ↦ elim (Bool-cases e.not_found) [
          | inl gone ↦ absurd (ground (arith, failed, gone))
          | inr other ↦ absurd (ground (arith, failed, other))
        ]
      ]

  gather-Stopped :
      (env_var : String) (ref : SecretKeyRef)
      → lookup env_var p.spec.credentials ≡ some ref
      → KeyIsMissing ref
      → (env_vars : List String) (found : Dict String) (h k : ProviderHistory)
      → contains env_var env_vars ≡ true
      → Quiet h k
      → Stopped h (gather_credentials w p.namespace p.spec.credentials env_vars found k)
  unfolding gather_credentials contains
  gather-Stopped env_var ref is_ref missing [] found h k has q = absurd (ground (arith, has))
  gather-Stopped env_var ref is_ref missing (e ∷ es) found h k has q =
      let this = ref_of w p.spec.credentials e in
      elim (Result-cases (credential_value w e this (w.get_secret k p.namespace this.name))) [
        | inl (value, got) ↦
            rw (got, gather_credentials)
              (gather-Stopped env_var ref is_ref missing es (insert e value found) h (read ∷ k)
                (elim (Bool-cases (e == env_var)) [
                  | inl same_var ↦
                      let is_this : this ≡ ref =
                        rw ((eq_iff e env_var).0 same_var) (rw (is_ref, ref_of) refl) in
                      absurd (
                        missing-stops e this k (subst KeyIsMissing (sym is_this) missing) value got)
                  | inr other ↦ ground (arith, has, other)
                ])
                (more read tt q))
        | inr (stop, failed) ↦ rw (failed, gather_credentials) (more read tt q)
      ]

  sync_at-PushesNothing :
      (env_var : String) (ref : SecretKeyRef) (h : ProviderHistory)
      → lookup env_var p.spec.credentials ≡ some ref
      → KeyIsMissing ref
      → (r : Result String Gateway) → PushesNothing h (sync_at w p (r, read ∷ h)).1
  unfolding sync_at
  sync_at-PushesNothing env_var ref h is_ref missing (err e) =
      set_not_ready-PushesNothing "GatewayNotFound" e h (read ∷ h) (more read tt same)
  sync_at-PushesNothing env_var ref h is_ref missing (ok gw) =
      sync_gathered-PushesNothing gw h
        (gather_credentials w p.namespace p.spec.credentials (sorted_keys p.spec.credentials) []
          (read ∷ h))
        (gather-Stopped env_var ref is_ref missing (sorted_keys p.spec.credentials) [] h (read ∷ h)
          (contains-sorted_keys env_var p.spec.credentials ref is_ref) (more read tt same))

  sync-PushesNothing :
      (env_var : String) (ref : SecretKeyRef) (h : ProviderHistory)
      → lookup env_var p.spec.credentials ≡ some ref
      → KeyIsMissing ref
      → PushesNothing h (reconcile_sync w p h).1
  unfolding reconcile_sync resolve_gateway
  sync-PushesNothing env_var ref h is_ref missing =
      sync_at-PushesNothing env_var ref h is_ref missing (resolve_gateway w h).0

  after_read-Quiet : (h k : ProviderHistory) → Quiet (read ∷ h) k → Quiet h k
  after_read-Quiet h _ same = more read tt same
  after_read-Quiet h _ (more {k} e quiet q) = more e quiet (after_read-Quiet h k q)

  after_read-PushesNothing :
      (h k : ProviderHistory) → PushesNothing (read ∷ h) k → PushesNothing h k
  after_read-PushesNothing h k (unreported q) = unreported (after_read-Quiet h k q)
  after_read-PushesNothing h _ (reported {k} status answer q) =
      reported status answer (after_read-Quiet h k q)

  -- If a Secret that a credential of a provider refers to lacks the key whenever it can be read,
  -- and the provider is not being deleted and has its finalizer, then Reconcile of the provider
  -- writes its status once at most, and neither updates the object nor calls the gateway.
  pub missing_key-PushesNothing :
      (env_var : String) (ref : SecretKeyRef) (h : ProviderHistory)
      → p.deleting ≡ false
      → w.contains_finalizer p.finalizers provider_finalizer ≡ true
      → lookup env_var p.spec.credentials ≡ some ref
      → KeyIsMissing ref
      → PushesNothing h (reconcile w (ok p) h).1
  unfolding reconcile
  missing_key-PushesNothing env_var ref h stays has is_ref missing =
      subst (λ (x : Outcome × ProviderHistory). PushesNothing h x.1)
        (sym
          (third _ _ _ p.deleting (w.contains_finalizer p.finalizers provider_finalizer) stays has))
        (after_read-PushesNothing h (reconcile_sync w p (read ∷ h)).1
          (sync-PushesNothing env_var ref (read ∷ h) is_ref missing))

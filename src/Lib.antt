-- ===== src/Lib.antt =====
-- ogo: an operator that runs the OpenShell gateway on OpenShift, and the bridge that lets its users
-- log in with their OpenShift accounts.
--
-- The bridge (internal/authbridge) is an OAuth server. handleAuthorize checks the client's redirect
-- URI, stores a pending code and sends the browser to OpenShift; handleCallback takes the code
-- back, asks OpenShift who the user is and mints a JWT; handleToken exchanges the code for that
-- JWT, and handleTokenExchange mints one for an OpenShift token at once. The controllers
-- (internal/controller) push what Kubernetes objects say to the gateway: memberships of workspaces,
-- providers of credentials, and the one policy of the gateway. They sign their own token with the
-- bridge's key.
--
-- Base, Dict and Text are shared: Go's results with an error, maps as association lists, and
-- strings.Trim*, with texts that end at a separator in Text/Separated.
--
-- AuthBridge is internal/authbridge. Access: isAuthorized and mapRoles (server.go). Redirect:
-- isAllowedRedirectURI. ClientState: splitState and the combined state. Jwt: jwt.go. OpenShift:
-- openshift.go, with proofs about its groups and identities in OpenShift/Groups and
-- OpenShift/Identity. Codes: the map of pending codes under its mutex. Server: the handlers; each
-- critical section of the mutex is a definition, its types are in Server/Types, and Server/Steps
-- interleaves them as steps of a state, the codes and the callbacks in flight. Server/Invariant,
-- Safety, Replies, Exchange, Redeem, Sweep and Flow hold the proofs. Discovery: NewServer, Handler
-- with its routes, handleDiscovery and handleJWKS.
--
-- Controller is internal/controller. Cluster: the Kubernetes API and the gateway's gRPC API. Every
-- call is answered by an arbitrary function of the history of all events so far, newest first, so
-- anything may happen between two calls; a reconcile is a function from the history to an outcome
-- and a longer history. Singleton: singleton.go. Grpc: openshell_grpc.go. Member:
-- openshellworkspacemember_controller.go, its calls in Member/Calls and Reconcile in Member/Sync.
-- Policy: openshellpolicy_controller.go. Provider: openshellprovider_controller.go. Their Watches
-- have the functions that choose what to reconcile when another object changes. Each function of
-- the source has its name here in snake_case; the rest of a function after a call that may fail is
-- a helper that takes the call's result.
--
-- Operator is internal/controller/openshellgateway_controller.go, the reconciler of the gateway
-- itself. Operator has the helpers that derive names from a gateway, Kube the requests to the
-- cluster and the monad in which a reconcile runs: it has the trace of all requests and answers,
-- newest first, and the conditions in memory, and a request is answered by an arbitrary function of
-- the trace. Value is the contents of an object. Dependencies has the dep_*.go files. Identity,
-- Trust, Network, Pod (with Pod/Encode) and Routes (with Routes/Envoy, GatewayApi and OauthClient)
-- have the reconcile functions of these objects, Config is internal/gateway/config.go, Status is
-- updateStatus and setDegraded, Reconcile the phases and Reconcile/Delete reconcileDelete and
-- Reconcile from its start. Watches has the functions that choose the gateways to reconcile. A
-- callback of CreateOrUpdate is a function of the object that was found; a typed object is the map
-- of its JSON fields. Legal and Gone hold predicates on traces that several proofs share. Detect is
-- internal/openshift/detect.go, and AuthBridge/Startup is cmd/auth-bridge/main.go, with main itself
-- in Startup/Main.
--
-- Pki is internal/pki: the certificates, the keys and the hash of the names that the operator
-- writes into a Secret to see when they change. Manager is cmd/main.go: the flags decide a list of
-- calls of controller-runtime, each of which may fail. SmokeTest is hack/smoke-test-config.
-- Operator/Total has the predicates for parts of a reconcile that return a value.
--
-- Times are nanoseconds on ℕ, and no TTL is negative. One Platform value answers one request, and
-- the same question in it gets the same answer. Loops are structural recursion, so there is no
-- fuel. Random codes, the clock, HTTP, JSON, url.Parse, cryptography, TLS, %q, finalizers and
-- conditions of the Kubernetes libraries are parameters. A gateway's promises are the records
-- Member.Faithful.Faithful and Provider.Payload.Upsert, which a proof takes as a hypothesis where
-- it needs them.
--
-- Not modelled: Go's cryptography, which internal/pki and the signer of tokens call; the JSON of
-- the answers of the bridge; the signals and the shutdown of both programs; the registration of the
-- controllers with their watches, but for those of the policies; log output; the helpers of
-- the tests; and generated code. The embedded manifests of Envoy Gateway and their YAML are
-- parameters.
pub mod Base
pub mod Detect
pub mod Dict
pub mod Text
pub mod AuthBridge
pub mod Controller
pub mod Operator
pub mod Manager
pub mod Pki
pub mod SmokeTest

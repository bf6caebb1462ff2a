-- ===== src/Operator/Kube.antt =====
-- What the operator of internal/controller/openshellgateway_controller.go asks of the cluster. Every
-- answer is an arbitrary function of all that happened before, newest first.
use Prim.Native.String.{◌++◌}
use ogo.Base.{ℕ, String, Bool, true, false, Option, none, some, List, [], ◌∷◌}
use ogo.Base.Result.{Result, ok, err}
use ogo.Dict.{Dict}
use ogo.Controller.{Gateway, GatewayStatus, ApiError, Condition}
use ogo.Pki.{Go}
use ogo.Operator.Value.{Value}

pub record Key : Type 0 where
  pub kind : String
  pub namespace : String
  pub name : String

pub record Object : Type 0 where
  pub key : Key
  pub uid : String
  pub resource_version : String
  pub labels : Dict String
  pub annotations : Dict String
  pub contents : Dict String  -- the `data` of a Secret or a ConfigMap
  pub body : Value  -- the other fields

-- A list of objects of a kind, in one namespace or all, that have these labels.
pub record Query : Type 0 where
  pub kind : String
  pub namespace : Option String
  pub labels : Dict String

pub data Event : Type 0 where
  got : Key → Result ApiError Object → Event
  listed : Query → Result ApiError (List Object) → Event
  created : Object → Option ApiError → Event
  updated : Object → Option ApiError → Event
  deleted : Key → Option ApiError → Event
  found : Key → Result ApiError (Option Object) → Event  -- the read of `CreateOrUpdate`
  ensured : Option Object → Object → Option ApiError → Event  -- and its write
  asked : String → Bool → Event  -- whether a group and version is served
  got_gateway : Result ApiError Gateway → Event
  listed_gateways : Result ApiError (List Gateway) → Event
  finalizers_written : List String → Option ApiError → Event
  status_written : GatewayStatus → Option ApiError → Event
  generated : Event  -- keys, certificates or a password

abbrev pub Trace : Type 0
Trace = List Event

-- The cluster, Go's and Kubernetes' packages, and what they draw at random.
pub record Api : Type 0 where
  pub get : Trace → Key → Result ApiError Object
  pub list : Trace → Query → Result ApiError (List Object)
  pub create : Trace → Object → Option ApiError
  pub update : Trace → Object → Option ApiError
  pub delete : Trace → Key → Option ApiError
  pub find : Trace → Key → Result ApiError (Option Object)
  pub ensure : Trace → Option Object → Object → Option ApiError
  pub is_served : Trace → String → Bool
  pub get_gateway : Trace → Result ApiError Gateway
  pub list_gateways : Trace → Result ApiError (List Gateway)
  pub write_finalizers : Trace → List String → Option ApiError
  pub write_status : Trace → GatewayStatus → Option ApiError
  pub contains_finalizer : List String → String → Bool
  pub add_finalizer : List String → String → List String
  pub remove_finalizer : List String → String → List String
  pub set_condition : List Condition → Condition → List Condition
  pub find_condition : List Condition → String → Option Condition
  pub remove_condition : List Condition → String → List Condition
  pub deep_equal : Value → Value → Bool
  pub random_hex : Trace → String
  pub go : Go  -- what internal/pki uses of Go's packages
  pub moment : Trace → ℕ  -- when something is drawn at random
  pub config_hash : String → String  -- hex of the first 16 bytes of SHA-256
  pub quote : String → String  -- fmt's %q
  pub show : ℕ → String  -- fmt's %d
  pub show_list : List String → String  -- fmt's %v
  pub manifest : String → Result ApiError (List (Result ApiError String))  -- documents of a file
  pub decode : String → Result ApiError Object
  pub has_text : String → String → Bool  -- strings.Contains
  pub sort_by_name : List Object → List Object

-- A reconcile changes the cluster and, in memory, the conditions of the gateway's status.
pub record Run : Type 0 where
  pub trace : Trace
  pub conditions : List Condition

abbrev pub K : Type 0 → Type 0
K A = Run → Result ApiError A × Run

infixl 5 ◌>>=◌ ◌>>◌
abbrev pub ◌>>=◌ : {A B : Type 0} → K A → (A → K B) → K B
◌>>=◌ m f r = let (x, r') = m r in elim x [ err e ↦ (err e, r') | ok a ↦ f a r' ]

abbrev pub ◌>>◌ : {B : Type 0} → K (Unit {0}) → K B → K B
m >> k = m >>= λ _. k

abbrev pub give : {A : Type 0} → A → K A
give a r = (ok a, r)

abbrev pub done : K (Unit {0})
done = give tt

abbrev pub raise : {A : Type 0} → ApiError → K A
raise e r = (err e, r)

-- `fmt.Errorf` without a cause
abbrev pub plain : String → ApiError
plain message = record {
  not_found = false;
  already_exists = false;
  no_match = false;
  message = message;
}

-- an error of internal/pki, which is a text
unfoldable pub pki_error : {A : Type 0} → Result String A → Result ApiError A
pki_error (ok a) = ok a
pki_error (err message) = err (plain message)

abbrev pub fail_with : {A : Type 0} → String → K A
fail_with message = raise (plain message)

-- `fmt.Errorf("prefix: %w", err)`: the kind of an error is seen through its wrapping
abbrev pub prefixed : String → ApiError → ApiError
prefixed prefix e = record e { message = prefix ++ e.message }

abbrev pub wrap : {A : Type 0} → String → K A → K A
wrap prefix m r =
    let (x, r') = m r in elim x [ err e ↦ (err (prefixed prefix e), r') | ok a ↦ (ok a, r') ]

-- the error as a value
abbrev pub attempt : {A : Type 0} → K A → K (Result ApiError A)
attempt m r = let (x, r') = m r in (ok x, r')

abbrev pub saw : Event → Run → Run
saw e r = record r { trace = e ∷ r.trace }

abbrev pub unless_error : Option ApiError → Result ApiError (Unit {0})
unless_error none = ok tt
unless_error (some e) = err e

module _ (api : Api) where
  unfoldable pub get : Key → K Object
  get key r = let x = api.get r.trace key in (x, saw (got key x) r)

  unfoldable pub list : Query → K (List Object)
  list q r = let x = api.list r.trace q in (x, saw (listed q x) r)

  unfoldable pub create : Object → K (Unit {0})
  create o r = let e = api.create r.trace o in (unless_error e, saw (created o e) r)

  unfoldable pub update : Object → K (Unit {0})
  update o r = let e = api.update r.trace o in (unless_error e, saw (updated o e) r)

  unfoldable pub delete : Key → K (Unit {0})
  delete key r = let e = api.delete r.trace key in (unless_error e, saw (deleted key e) r)

  -- `controllerutil.CreateOrUpdate`: it reads the object, has the callback change it, and writes
  -- the result.
  unfoldable pub write_desired :
      Option Object → Result ApiError Object × Run → Result ApiError (Unit {0}) × Run
  write_desired before (err e, r) = (err e, r)
  write_desired before (ok o, r) =
      let w = api.ensure r.trace before o in (unless_error w, saw (ensured before o w) r)

  unfoldable pub mutate_found :
      (Option Object → K Object) → Result ApiError (Option Object) → K (Unit {0})
  mutate_found mutate (err e) r = (err e, r)
  mutate_found mutate (ok before) r = write_desired before (mutate before r)

  unfoldable pub create_or_update : Key → (Option Object → K Object) → K (Unit {0})
  unfolding mutate_found write_desired
  create_or_update key mutate r =
      let x = api.find r.trace key in mutate_found mutate x (saw (found key x) r)

  unfoldable pub is_served : String → K Bool
  is_served version r = let b = api.is_served r.trace version in (ok b, saw (asked version b) r)

  unfoldable pub set_condition : Condition → K (Unit {0})
  set_condition c r = (ok tt, record r { conditions = api.set_condition r.conditions c })

  -- the gateway that the request names, as the cluster has it now
  unfoldable pub fetch_gateway : K Gateway
  fetch_gateway r = let x = api.get_gateway r.trace in (x, saw (got_gateway x) r)

  unfoldable pub list_gateways : K (List Gateway)
  list_gateways r = let x = api.list_gateways r.trace in (x, saw (listed_gateways x) r)

  -- `r.Update(ctx, gw)`, which writes the finalizers
  unfoldable pub write_finalizers : List String → K (Unit {0})
  write_finalizers fs r =
      let e = api.write_finalizers r.trace fs in (unless_error e, saw (finalizers_written fs e) r)

  -- `r.Status().Update(ctx, gw)`
  unfoldable pub write_status : GatewayStatus → K (Unit {0})
  write_status s r =
      let e = api.write_status r.trace s in (unless_error e, saw (status_written s e) r)

  abbrev pub drawn : {A : Type 0} → (Trace → Result ApiError A) → K A
  drawn draw r = let x = draw r.trace in (x, saw generated r)

-- the conditions of the gateway in memory
abbrev pub own_conditions : K (List Condition)
own_conditions r = (ok r.conditions, r)

-- An object that does not exist yet.
abbrev pub fresh : Key → Object
fresh key = record {
  key = key;
  uid = "";
  resource_version = "";
  labels = [];
  annotations = [];
  contents = [];
  body = Value.end;
}

-- what the callback of `CreateOrUpdate` is given
abbrev pub or_fresh : Key → Option Object → Object
or_fresh key none = fresh key
or_fresh key (some o) = o

abbrev pub exists_already : Option Object → Bool
exists_already none = false
exists_already (some _) = true

abbrev pub key_of : (kind namespace name : String) → Key
key_of kind namespace name = record { kind = kind; namespace = namespace; name = name }

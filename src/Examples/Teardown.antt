-- ===== src/Examples/Teardown.antt =====
-- The passes of the controller of devices on a cluster in memory
-- (operators/z21-device/internal/controller/z21device_controller.go).
use elp.Prelude.{
  ◌≡◌, ◌⊎◌, inl, inr, ◌∙◌, ap, refl, String, true, false, Option, none, some, List, [], ◌∷◌,
  if◌then◌else◌, Bool-cases, arith,
}
use elp.Prelude.Result.{Result, ok, err, ok_inj}
use elp.Prelude.Eq.{◌==◌, string_comparable, beq_refl, mem}
use elp.Prelude.Assoc.{Map, lookup, delete, lookup-delete}
use elp.Operator.Cluster.{Resource}
use elp.Operator.Device.{Z21Device, device_finalizer_name}
use elp.Operator.Workload.{Deployment, Service, ServiceAccount}
use elp.Operator.Controller.{DeviceApi, Settings}
use elp.Operator.Lifecycle.{reconcile_delete}
use elp.Operator.Deletion.{Steady, Cleans, IsCleared, Released}
use elp.Operator.Teardown.{IsHeld, finalizer_last, shared_workloads}
use elp.Examples.Cluster.{fixed, is_not_found, one_address, not_found}
use elp.Examples.Devices.{device, gateway, set_first}

record Store : Type 0 where
  device : Z21Device
  deployments : Map String Deployment
  services : Map String Service
  accounts : Map String ServiceAccount

abbrev found : {A : Type 0} → Option A → Result String A
found none = err not_found
found (some a) = ok a

abbrev deleted : {A : Type 0} → Option A → Result String (Unit {0})
deleted none = err not_found
deleted (some a) = ok tt

abbrev without : String → List String → List String
without f [] = []
without f (g ∷ l) = let rest = without f l in if g == f then rest else g ∷ rest

-- The objects of one kind, by their names.
abbrev table :
    {A : Type 0} → (Store → Map String A) → (Map String A → Store → Store) → Resource Store String A
table {A} of put = record (fixed none) {
  get = λ namespace name s. found (lookup name (of s));
  delete = λ namespace name s. (deleted (lookup name (of s)), put (delete name (of s)) s);
}

abbrev stored_device : Resource Store String Z21Device
stored_device = record (fixed none) {
  get = λ namespace name s. if name == s.device.name then ok s.device else err not_found;
  update = λ d s. (ok d, record s { device = d });
  patch_status = λ base new s.
      let d = record (s.device) { status = new.status } in (ok d, record s { device = d });
}

abbrev api : DeviceApi Store String
api = record {
  is_not_found = is_not_found;
  devices = stored_device;
  deployments = table (λ s. s.deployments) (λ m s. record s { deployments = m });
  services = table (λ s. s.services) (λ m s. record s { services = m });
  accounts = table (λ s. s.accounts) (λ m s. record s { accounts = m });
  roles = fixed none;
  bindings = fixed none;
  config_data = λ namespace name s. err not_found;
  set_condition = set_first;
  contains_finalizer = λ d f. mem f d.finalizers;
  add_finalizer = λ d f. record d { finalizers = f ∷ d.finalizers };
  remove_finalizer = λ d f. record d { finalizers = without f d.finalizers };
  own_role = λ d r. ok r;
  own_binding = λ d b. ok b;
  same_spec = λ a b. false;
  net = one_address;
  address_error = λ e. "no address";
  wrap = λ s e. e;
}

abbrev settings : Settings
settings = record { gateway_image = ""; workload_namespace = "" }

found_none : {A : Type 0} (o : Option A) (e : String) → found o ≡ err e → o ≡ none
found_none none e h = refl
found_none (some a) e h = ground (arith, h)

missing :
    {A : Type 0} (o : Option A)
    → o ≡ none
    → (e : String) × (found o ≡ err e) × (is_not_found e ≡ true)
missing none h = (not_found, refl, refl)
missing (some a) h = ground (arith, h)

lookup-delete_none :
    {A : Type 0} (j k : String) (m : Map String A)
    → lookup j m ≡ none
    → lookup j (delete k m) ≡ none
lookup-delete_none j k m h = ground (arith, lookup-delete k j m, h)

-- A missing object of a table stays missing when others of it are deleted.
still_missing :
    {A : Type 0} (j k : String) (m : Map String A)
    → (e : String) × (found (lookup j m) ≡ err e) × (is_not_found e ≡ true)
    → (e : String) × (found (lookup j (delete k m)) ≡ err e) × (is_not_found e ≡ true)
still_missing j k m (e, gone, _) =
    missing (lookup j (delete k m)) (lookup-delete_none j k m (found_none (lookup j m) e gone))

just_deleted :
    {A : Type 0} (k : String) (m : Map String A)
    → (e : String) × (found (lookup k (delete k m)) ≡ err e) × (is_not_found e ≡ true)
just_deleted k m = missing (lookup k (delete k m)) (lookup-delete k k m ∙ rw (beq_refl k) refl)

api-Cleans : Cleans api
api-Cleans = record {
  deployments = λ namespace name s went. just_deleted name s.deployments;
  services = λ namespace name s went. just_deleted name s.services;
  accounts = λ namespace name s went. just_deleted name s.accounts;
  missing_deployment = λ namespace name. record {
    status = λ base new s p. p;
    deployment = λ other k s p. still_missing name k s.deployments p;
    service = λ other k s p. p;
    account = λ other k s p. p;
  };
  missing_service = λ namespace name. record {
    status = λ base new s p. p;
    deployment = λ other k s p. p;
    service = λ other k s p. still_missing name k s.services p;
    account = λ other k s p. p;
  };
  missing_account = λ namespace name. record {
    status = λ base new s p. p;
    deployment = λ other k s p. p;
    service = λ other k s p. p;
    account = λ other k s p. still_missing name k s.accounts p;
  };
}

IsHeld-after_patch :
    (d new : Z21Device) (s : Store)
    → IsHeld api d s
    → IsHeld api d (record s { device = record (s.device) { status = new.status } })
IsHeld-after_patch d new s (e, got, has) = elim (Bool-cases (d.name == s.device.name)) [
  | inl same ↦
      let is : s.device ≡ e = ok_inj (rw same at got) in
      (
        record (s.device) { status = new.status },
        rw same refl,
        ap (λ x. mem device_finalizer_name x.finalizers) is ∙ has,
      )
  | inr other ↦ ground (arith, other, got)
]

device-Steady : Steady api (IsHeld api device)
device-Steady = record {
  status = λ base new s p. IsHeld-after_patch device new s p;
  deployment = λ namespace name s p. p;
  service = λ namespace name s p. p;
  account = λ namespace name s p. p;
}

-- A device with the deployment of its gateway.
abbrev store : Store
store = record {
  device = device;
  deployments = ("z21-gateway-yard", gateway) ∷ [];
  services = [];
  accounts = [];
}

store-IsHeld : IsHeld api device store
unfolding mem
store-IsHeld = (device, refl, refl)

finalizer_last_example :
    IsHeld api device (reconcile_delete api settings device store).1
    ⊎ Released api settings device (reconcile_delete api settings device store).1
finalizer_last_example =
    finalizer_last api api-Cleans settings device device-Steady store store-IsHeld

-- The device of the same name in another namespace.
abbrev other_device : Z21Device
other_device = record device { namespace = "museum" }

shared_workloads_example :
    IsHeld api device (reconcile_delete api settings device store).1
    ⊎ ((u : Store) × (latest : Z21Device) × IsCleared api settings other_device u
        × ((reconcile_delete api settings device store).1
            ≡ (api.devices.update (api.remove_finalizer latest device_finalizer_name) u).1))
shared_workloads_example =
    shared_workloads api api-Cleans settings device other_device refl device-Steady store
      store-IsHeld

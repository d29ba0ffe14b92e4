-- ===== src/Operator/Controller.antt =====
-- The controller that runs a device's gateway and simulator
-- (operators/z21-device/internal/controller/z21device_controller.go). Logs are left out.
use elp.Prelude.{String, Bool, false, Option, none, List, [], ◌∷◌, if◌then◌else◌}
use elp.Prelude.Result.{Result, ok, err}
use elp.Prelude.Action.{Action, pure, raise, ◌>>◌}
use elp.Prelude.Eq.{◌==◌, string_comparable}
use elp.Prelude.Assoc.{Map}
use elp.Prelude.Int.{pos}
use elp.Operator.Device.{
  Z21Device, Net, AddressError, z21_address, simulator_service_name, default_workload_namespace,
}
use elp.Operator.Workload.{
  Deployment, DeploymentSpec, Service, ServiceAccount, Role, RoleBinding, PolicyRule, RuntimeConfig,
  from_config_map, gateway_component, simulator_component, gateway_deployment_name,
  simulator_deployment_name, component_selector, component_labels, desired_gateway_deployment,
  desired_simulator_deployment, simulator_ports,
}
use elp.Operator.Status.{SetCondition}
use elp.Operator.Cluster.{Resource}

-- What the controller sees of the cluster, and the functions of its libraries.
pub record DeviceApi (S E : Type 0) : Type 0 where
  pub is_not_found : E → Bool
  pub devices : Resource S E Z21Device
  pub deployments : Resource S E Deployment
  pub services : Resource S E Service
  pub accounts : Resource S E ServiceAccount
  pub roles : Resource S E Role
  pub bindings : Resource S E RoleBinding
  -- The data of a ConfigMap.
  pub config_data : String → String → S → Result E (Map String String)
  pub set_condition : SetCondition
  -- controllerutil: finalizers, and the owner of an object.
  pub contains_finalizer : Z21Device → String → Bool
  pub add_finalizer : Z21Device → String → Z21Device
  pub remove_finalizer : Z21Device → String → Z21Device
  pub own_role : Z21Device → Role → Result E Role
  pub own_binding : Z21Device → RoleBinding → Result E RoleBinding
  -- equality.Semantic.DeepEqual
  pub same_spec : DeploymentSpec → DeploymentSpec → Bool
  pub net : Net
  pub address_error : AddressError → E
  -- `fmt.Errorf("…: %w", err)`
  pub wrap : String → E → E

-- The fields of the reconciler; an empty one is not set.
pub record Settings : Type 0 where
  pub gateway_image : String
  pub workload_namespace : String

unfoldable pub workload_namespace : Settings → String
workload_namespace r =
    if r.workload_namespace == "" then default_workload_namespace else r.workload_namespace

unfoldable pub gateway_image : Settings → String
gateway_image r =
    if r.gateway_image == "" then "ghcr.io/trains-io/z21-gateway:latest" else r.gateway_image

abbrev pub role_rules : List PolicyRule
role_rules =
    record {
      api_groups = "z21.trains.io" ∷ [];
      resources = "candetectors" ∷ [];
      verbs = "get" ∷ "list" ∷ "watch" ∷ "create" ∷ "patch" ∷ "update" ∷ [];
    }
    ∷ record {
      api_groups = "z21.trains.io" ∷ [];
      resources = "candetectors/status" ∷ [];
      verbs = "get" ∷ "patch" ∷ "update" ∷ [];
    }
    ∷ record {
      api_groups = "z21.trains.io" ∷ [];
      resources = "z21devices" ∷ [];
      verbs = "get" ∷ [];
    }
    ∷ record {
      api_groups = "z21.trains.io" ∷ [];
      resources = "z21devices/status" ∷ [];
      verbs = "get" ∷ "patch" ∷ "update" ∷ [];
    }
    ∷ []

-- What a fallible step gives beside its error: a deployment that may be nil.
abbrev pub Deployed : Type 0
Deployed = Option Deployment

module _ {S E : Type 0} (api : DeviceApi S E) (r : Settings) where
  -- `if err != nil { return fmt.Errorf("…: %w", err) }`
  abbrev pub wrapped {ℓ} : {A : Type ℓ} → String → Result E A × S → Result E A × S
  wrapped text (ok a, s) = (ok a, s)
  wrapped text (err e, s) = (err (api.wrap text e), s)

  -- An object that is not there is deleted.
  abbrev pub gone : String → Result E (Unit {0}) × S → Result E (Unit {0}) × S
  gone text (ok u, s) = (ok tt, s)
  gone text (err e, s) = (if api.is_not_found e then ok tt else err (api.wrap text e), s)

  unfoldable pub load_runtime_config : S → RuntimeConfig
  unfolding workload_namespace from_config_map
  load_runtime_config s = elim (api.config_data (workload_namespace r) "elp-config" s) [
    | err e ↦ record { gateway_trace = false; simulator_trace = false }
    | ok entries ↦ from_config_map api.net entries
  ]

  -- A deployment: it is created where there is none, and updated where its specification differs.
  unfoldable pub ensure_deployment : String → String → String → Deployment → Action S E Deployment
  ensure_deployment get_text create_text update_text desired s =
      elim (api.deployments.get desired.namespace desired.name s) [
        | err e ↦
            if api.is_not_found e
            then wrapped create_text (api.deployments.create desired s)
            else (err (api.wrap get_text e), s)
        | ok deploy ↦
            if api.same_spec deploy.spec desired.spec
            then (ok deploy, s)
            else wrapped update_text (
                api.deployments.create_or_update deploy
                  (λ d. ok (record d { labels = desired.labels; spec = desired.spec })) s)
      ]

  abbrev pub deployment_of : String → Map String String → DeploymentSpec → Deployment
  deployment_of name labels spec = record {
    namespace = workload_namespace r;
    name = name;
    labels = labels;
    spec = spec;
    ready_replicas = pos 0;
    conditions = [];
  }

  unfoldable pub reconcile_simulator_service : Z21Device → Action S E String
  unfolding workload_namespace simulator_service_name component_labels component_selector
      simulator_ports
  reconcile_simulator_service device =
      let name = simulator_service_name device.name in
      let labels = component_labels simulator_component device in
      let service : Service = record {
        namespace = workload_namespace r;
        name = name;
        labels = [];
        service_type = "";
        selector = [];
        ports = [];
      } in
      let wanted : Service → Result E Service = λ svc. ok (record svc {
        labels = labels;
        service_type = "ClusterIP";
        selector = component_selector simulator_component device;
        ports = simulator_ports;
      }) in
      do
        λ s.
            wrapped "create or update simulator service"
              (api.services.create_or_update service wanted s)
        pure name

  unfoldable pub reconcile_simulator_deployment : Z21Device → RuntimeConfig → Action S E Deployment
  unfolding simulator_deployment_name ensure_deployment component_labels
      desired_simulator_deployment
  reconcile_simulator_deployment device config =
      ensure_deployment "get simulator deployment" "create simulator deployment"
        "create or update simulator deployment"
        (deployment_of (simulator_deployment_name device)
          (component_labels simulator_component device)
          (desired_simulator_deployment api.net device config))

  unfoldable pub delete_simulator : Z21Device → Action S E (Unit {0})
  unfolding workload_namespace simulator_deployment_name simulator_service_name
  delete_simulator device = do
    λ s.
        gone "delete simulator deployment"
          (api.deployments.delete (workload_namespace r) (simulator_deployment_name device) s)
    λ s.
        gone "delete simulator service"
          (api.services.delete (workload_namespace r) (simulator_service_name device.name) s)

  unfoldable pub delete_gateway : Z21Device → Action S E (Unit {0})
  unfolding workload_namespace gateway_deployment_name
  delete_gateway device = do
    λ s.
        gone "delete gateway deployment"
          (api.deployments.delete (workload_namespace r) (gateway_deployment_name device) s)
    λ s.
        gone "delete gateway service account"
          (api.accounts.delete (workload_namespace r) (gateway_deployment_name device) s)

  unfoldable pub reconcile_gateway_service_account : Z21Device → Action S E String
  unfolding workload_namespace gateway_deployment_name component_labels
  reconcile_gateway_service_account device =
      let name = gateway_deployment_name device in
      let account : ServiceAccount = record {
        namespace = workload_namespace r;
        name = name;
        labels = [];
      } in
      let wanted : ServiceAccount → Result E ServiceAccount =
        λ sa. ok (record sa { labels = component_labels gateway_component device }) in
      do
        λ s.
            wrapped "create or update service account"
              (api.accounts.create_or_update account wanted s)
        pure name

  unfoldable pub wanted_role : Z21Device → Role → Result E Role
  unfolding component_labels
  wanted_role device role = elim (api.own_role device role) [
    | err e ↦ err e
    | ok owned ↦
        ok (record owned { labels = component_labels gateway_component device; rules = role_rules })
  ]

  unfoldable pub wanted_binding : Z21Device → String → RoleBinding → Result E RoleBinding
  unfolding component_labels workload_namespace gateway_deployment_name
  wanted_binding device sa_name binding = elim (api.own_binding device binding) [
    | err e ↦ err e
    | ok owned ↦ ok (record owned {
      labels = component_labels gateway_component device;
      role_ref = gateway_deployment_name device;
      subjects = (sa_name, workload_namespace r) ∷ [];
    })
  ]

  unfoldable pub reconcile_gateway_rbac : Z21Device → String → Action S E (Unit {0})
  unfolding wanted_role wanted_binding gateway_deployment_name
  reconcile_gateway_rbac device sa_name =
      let role : Role = record {
        namespace = device.namespace;
        name = gateway_deployment_name device;
        labels = [];
        owner = none;
        rules = [];
      } in
      let binding : RoleBinding = record {
        namespace = device.namespace;
        name = gateway_deployment_name device;
        labels = [];
        owner = none;
        role_ref = "";
        subjects = [];
      } in
      do
        λ s.
            wrapped "create or update role" (api.roles.create_or_update role (wanted_role device) s)
        λ s.
            wrapped "create or update role binding"
              (api.bindings.create_or_update binding (wanted_binding device sa_name) s)
        pure tt

  unfoldable pub reconcile_gateway_deployment :
      Z21Device → String → RuntimeConfig → Action S E Deployment
  unfolding z21_address gateway_deployment_name ensure_deployment component_labels
      desired_gateway_deployment gateway_image
  reconcile_gateway_deployment device sa_name config = elim (z21_address api.net device) [
    | err e ↦ raise (api.address_error e)
    | ok address ↦
        ensure_deployment "get deployment" "create deployment" "create or update deployment" (
          deployment_of (gateway_deployment_name device) (component_labels gateway_component device)
            (desired_gateway_deployment api.net device (gateway_image r) sa_name address config))
  ]

-- ===== src/Operator/Workload.antt =====
-- The Kubernetes objects that run a device, and what the controller wants of them
-- (operators/z21-device/internal/controller/z21device_controller.go,
-- operators/z21-device/internal/runtimeconfig).
use Prim.Native.String.{◌++◌}
use elp.Prelude.{
  String, Bool, false, not, ◌&&◌, ◌||◌, Option, none, some, List, [], ◌∷◌, ◌++◌ as ◌+++◌,
  if◌then◌else◌,
}
use elp.Prelude.Eq.{◌==◌, string_comparable}
use elp.Prelude.Assoc.{Map, lookup}
use elp.Prelude.Int.{ℤ, pos}
use elp.Operator.Device.{
  Z21Device, HostAlias, Net, backend_hardware, default_z21_port, default_simulator_grpc_port,
  subject_prefix, simulator_image, ensure_nats_url_cluster_dns,
}

pub record DeploymentCondition : Type 0 where
  pub condition_type : String
  pub status : String
  pub reason : String

-- A port of a container or of a service: its name, number and protocol.
pub record Port : Type 0 where
  pub name : String
  pub number : ℤ
  pub protocol : String

-- An HTTP probe of the port `health`.
pub record Probe : Type 0 where
  pub path : String
  pub initial_delay_seconds : ℤ
  pub period_seconds : ℤ

pub record Container : Type 0 where
  pub name : String
  pub image : String
  pub image_pull_policy : String
  pub args : List String
  pub env : List (String × String)
  pub ports : List Port
  pub liveness_probe : Option Probe
  pub readiness_probe : Option Probe

-- An empty name or policy is one that is not set.
pub record PodSpec : Type 0 where
  pub service_account_name : String
  pub host_network : Bool
  pub node_selector : Map String String
  pub containers : List Container
  pub dns_policy : String
  pub host_aliases : List HostAlias

pub record DeploymentSpec : Type 0 where
  pub replicas : ℤ
  pub selector : Map String String
  pub template_labels : Map String String
  pub template : PodSpec

pub record Deployment : Type 0 where
  pub namespace : String
  pub name : String
  pub labels : Map String String
  pub spec : DeploymentSpec
  pub ready_replicas : ℤ
  pub conditions : List DeploymentCondition

pub record Service : Type 0 where
  pub namespace : String
  pub name : String
  pub labels : Map String String
  pub service_type : String
  pub selector : Map String String
  pub ports : List Port

pub record ServiceAccount : Type 0 where
  pub namespace : String
  pub name : String
  pub labels : Map String String

pub record PolicyRule : Type 0 where
  pub api_groups : List String
  pub resources : List String
  pub verbs : List String

pub record Role : Type 0 where
  pub namespace : String
  pub name : String
  pub labels : Map String String
  pub owner : Option (String × String)
  pub rules : List PolicyRule

-- The subject is a service account: its name and its namespace.
pub record RoleBinding : Type 0 where
  pub namespace : String
  pub name : String
  pub labels : Map String String
  pub owner : Option (String × String)
  pub role_ref : String
  pub subjects : List (String × String)

-- runtimeconfig.Config
pub record RuntimeConfig : Type 0 where
  pub gateway_trace : Bool
  pub simulator_trace : Bool

unfoldable pub parse_flag : Net → Option String → Bool
parse_flag net none = false
parse_flag net (some raw) =
    let trimmed = net.trim_space raw in
    if trimmed == "" then false else elim (net.parse_bool trimmed) [ none ↦ false | some v ↦ v ]

unfoldable pub from_config_map : Net → Map String String → RuntimeConfig
unfolding parse_flag
from_config_map net entries = record {
  gateway_trace = parse_flag net (lookup "gateway.trace" entries);
  simulator_trace = parse_flag net (lookup "simulator.trace" entries);
}

abbrev pub gateway_component : String
gateway_component = "z21-gateway"

abbrev pub simulator_component : String
simulator_component = "z21-sim"

-- The gateway's deployment, service account, role and role binding all have this name.
unfoldable pub gateway_deployment_name : Z21Device → String
gateway_deployment_name device = "z21-gateway-" ++ device.name

unfoldable pub simulator_deployment_name : Z21Device → String
simulator_deployment_name device = "z21-sim-" ++ device.name

unfoldable pub component_selector : String → Z21Device → Map String String
component_selector component device =
    ("app.kubernetes.io/name", component) ∷ ("app.kubernetes.io/instance", device.name) ∷ []

unfoldable pub component_labels : String → Z21Device → Map String String
unfolding component_selector
component_labels component device =
    component_selector component device
    +++ ("app.kubernetes.io/managed-by", "z21-device-controller")
      ∷ ("z21.trains.io/device", device.name)
      ∷ []

unfoldable pub has_name : Net → List String → String → Bool
has_name net [] host = false
has_name net (name ∷ rest) host = net.equal_fold name host || has_name net rest host

unfoldable pub has_host_alias : Net → List HostAlias → String → Bool
unfolding has_name
has_host_alias net [] host = false
has_host_alias net (alias ∷ rest) host =
    has_name net alias.hostnames host || has_host_alias net rest host

unfoldable pub is_docker_host : Net → Z21Device → Bool
is_docker_host net device =
    device.spec.backend.backend_type == backend_hardware && elim device.spec.backend.hardware [
      | none ↦ false
      | some hw ↦ net.equal_fold hw.host "host.docker.internal"
    ]

unfoldable pub gateway_host_aliases : Net → Z21Device → List HostAlias
unfolding has_host_alias is_docker_host
gateway_host_aliases net device =
    let aliases = device.spec.gateway.host_aliases in
    if is_docker_host net device && not (has_host_alias net aliases "host.docker.internal")
    then aliases +++ record { ip = "172.18.0.1"; hostnames = "host.docker.internal" ∷ [] } ∷ []
    else aliases

unfoldable pub gateway_container : Net → Z21Device → String → String → RuntimeConfig → Container
unfolding ensure_nats_url_cluster_dns subject_prefix
gateway_container net device image z21_address config = record {
  name = gateway_component;
  image = if device.spec.gateway.image == "" then image else device.spec.gateway.image;
  image_pull_policy = "IfNotPresent";
  args = [];
  env =
      ("Z21_ADDRESS", z21_address)
      ∷ ("NATS_URL", ensure_nats_url_cluster_dns net device.spec.nats.url)
      ∷ ("NATS_SUBJECT_PREFIX", subject_prefix device)
      ∷ ("Z21_DEVICE_NAME", device.name)
      ∷ ("Z21_DEVICE_NAMESPACE", device.namespace)
      ∷ (if config.gateway_trace then ("Z21_LOG_MESSAGES", "true") ∷ [] else []);
  ports = record { name = "health"; number = pos 8080; protocol = "TCP" } ∷ [];
  liveness_probe =
      some (record { path = "/healthz"; initial_delay_seconds = pos 5; period_seconds = pos 10 });
  readiness_probe =
      some (record { path = "/readyz"; initial_delay_seconds = pos 2; period_seconds = pos 5 });
}

unfoldable pub desired_gateway_deployment :
    Net → Z21Device → String → String → String → RuntimeConfig → DeploymentSpec
unfolding gateway_container gateway_host_aliases component_labels component_selector
desired_gateway_deployment net device image sa_name z21_address config = record {
  replicas = pos 1;
  selector = component_selector gateway_component device;
  template_labels = component_labels gateway_component device;
  template = record {
    service_account_name = sa_name;
    host_network = device.spec.gateway.host_network;
    node_selector = device.spec.gateway.node_selector;
    containers = gateway_container net device image z21_address config ∷ [];
    dns_policy = if device.spec.gateway.host_network then "ClusterFirstWithHostNet" else "";
    host_aliases = gateway_host_aliases net device;
  };
}

unfoldable pub simulator_ports : List Port
simulator_ports =
    record { name = "z21-udp"; number = default_z21_port; protocol = "UDP" }
    ∷ record { name = "grpc"; number = default_simulator_grpc_port; protocol = "TCP" }
    ∷ []

unfoldable pub desired_simulator_deployment : Net → Z21Device → RuntimeConfig → DeploymentSpec
unfolding simulator_image simulator_ports component_labels component_selector
desired_simulator_deployment net device config = record {
  replicas = pos 1;
  selector = component_selector simulator_component device;
  template_labels = component_labels simulator_component device;
  template = record {
    service_account_name = "";
    host_network = false;
    node_selector = [];
    containers =
        record {
          name = simulator_component;
          image = simulator_image device;
          image_pull_policy = "IfNotPresent";
          args =
              "-addr"
              ∷ ("0.0.0.0:" ++ net.format_int default_z21_port)
              ∷ "-grpc-addr"
              ∷ ("0.0.0.0:" ++ net.format_int default_simulator_grpc_port)
              ∷ [];
          env = if config.simulator_trace then ("Z21_SIM_TRACE", "true") ∷ [] else [];
          ports = simulator_ports;
          liveness_probe = none;
          readiness_probe = none;
        }
        ∷ [];
    dns_policy = "";
    host_aliases = [];
  };
}

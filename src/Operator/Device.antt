-- ===== src/Operator/Device.antt =====
-- The custom resource Z21Device and its helpers
-- (operators/z21-device/api/v1alpha1/z21device_types.go).
use Prim.Native.String.{◌++◌}
use elp.Prelude.{ℕ, String, Bool, ◌||◌, Option, none, some, List, [], ◌∷◌, if◌then◌else◌}
use elp.Prelude.Result.{Result, ok, err}
use elp.Prelude.Eq.{◌==◌, string_comparable}
use elp.Prelude.Assoc.{Map, lookup}
use elp.Prelude.Int.{ℤ, pos, beq_ℤ}
use elp.Gateway.Health.{
  HealthCheckSpec, Time, default_health_check_interval, default_health_check_timeout,
  default_health_check_failure_threshold, default_health_check_success_threshold,
}
use elp.Operator.Detector.{CanAddressPoolSpec}

abbrev pub default_z21_port : ℤ
default_z21_port = pos 21105

abbrev pub phase_pending : String
phase_pending = "Pending"

abbrev pub phase_starting : String
phase_starting = "Starting"

abbrev pub phase_running : String
phase_running = "Running"

abbrev pub phase_failed : String
phase_failed = "Failed"

abbrev pub phase_stopping : String
phase_stopping = "Stopping"

-- A type of backend is any string; these are the two that there are.
abbrev pub backend_hardware : String
backend_hardware = "hardware"

abbrev pub backend_simulator : String
backend_simulator = "simulator"

abbrev pub condition_gateway_ready : String
condition_gateway_ready = "GatewayReady"

abbrev pub condition_device_reachable : String
condition_device_reachable = "DeviceReachable"

abbrev pub condition_degraded : String
condition_degraded = "Degraded"

pub record HardwareBackend : Type 0 where
  pub host : String
  pub port : ℤ

pub record SimulatorBackend : Type 0 where
  pub image : String

pub record BackendSpec : Type 0 where
  pub backend_type : String
  pub hardware : Option HardwareBackend
  pub simulator : Option SimulatorBackend

pub record NatsSpec : Type 0 where
  pub url : String
  pub subject_prefix : String

pub record HostAlias : Type 0 where
  pub ip : String
  pub hostnames : List String

pub record GatewaySpec : Type 0 where
  pub image : String
  pub host_network : Bool
  pub node_selector : Map String String
  pub host_aliases : List HostAlias

pub record Z21DeviceSpec : Type 0 where
  pub backend : BackendSpec
  pub nats : NatsSpec
  pub health_check : HealthCheckSpec
  pub gateway : GatewaySpec
  pub broadcast_flags : Option ℕ
  pub can_address_pool_ref : Option String

-- A condition of Kubernetes' `metav1`, less the time of its last transition.
pub record Condition : Type 0 where
  pub condition_type : String
  pub status : String
  pub reason : String
  pub message : String
  pub observed_generation : ℤ

pub record Z21DeviceStatus : Type 0 where
  pub phase : String
  pub conditions : List Condition
  pub last_successful_health_check : Option Time
  pub health_check_failures : ℤ
  pub gateway_deployment : String
  pub simulator_deployment : String
  pub simulator_service : String
  pub last_seen : Option Time
  pub serial_number : String
  pub firmware_version : String
  pub hardware_type : String
  pub xbus_version : String
  pub xbus_firmware_version : String
  pub lock_code : Option ℕ
  pub observed_generation : ℤ

pub record Z21Device : Type 0 where
  pub namespace : String
  pub name : String
  pub generation : ℤ
  pub finalizers : List String
  -- Whether the deletion timestamp is set.
  pub is_deleting : Bool
  pub annotations : Map String String
  pub spec : Z21DeviceSpec
  pub status : Z21DeviceStatus

unfoldable pub subject_prefix : Z21Device → String
subject_prefix d =
    let p = d.spec.nats.subject_prefix in
    if p == "" then "z21." ++ (d.namespace ++ ("." ++ d.name)) else p

-- 0x00000001 | 0x00000100 | 0x00080000
abbrev pub default_broadcast_flags : ℕ
default_broadcast_flags = 524545

unfoldable pub broadcast_flags_value : Z21Device → ℕ
broadcast_flags_value d = elim d.spec.broadcast_flags [
  | some flags ↦ flags
  | none ↦ default_broadcast_flags
]

-- `if x == 0 { x = fallback }`
unfoldable pub nonzero_or : ℤ → ℤ → ℤ
nonzero_or x fallback = if beq_ℤ x (pos 0) then fallback else x

unfoldable pub health_check_spec_or_defaults : Z21Device → HealthCheckSpec
unfolding nonzero_or
health_check_spec_or_defaults d =
    let spec = d.spec.health_check in
    record {
      interval = nonzero_or spec.interval default_health_check_interval;
      timeout = nonzero_or spec.timeout default_health_check_timeout;
      failure_threshold = nonzero_or spec.failure_threshold default_health_check_failure_threshold;
      success_threshold = nonzero_or spec.success_threshold default_health_check_success_threshold;
    }

unfoldable pub simulator_service_name : String → String
simulator_service_name device_name = "z21-sim-" ++ device_name

unfoldable pub simulator_service_fqdn : String → String → String
unfolding simulator_service_name
simulator_service_fqdn namespace device_name =
    simulator_service_name device_name ++ ("." ++ (namespace ++ ".svc.cluster.local."))

abbrev pub default_workload_namespace : String
default_workload_namespace = "elp"

abbrev pub default_simulator_image : String
default_simulator_image = "ghcr.io/trains-io/z21-sim:latest"

unfoldable pub simulator_image : Z21Device → String
simulator_image d = elim d.spec.backend.simulator [
  | none ↦ default_simulator_image
  | some sim ↦ if sim.image == "" then default_simulator_image else sim.image
]

pub data AddressError : Type 0 where
  hardware_required : AddressError
  unsupported_backend : String → AddressError

-- The functions of Go's `net`, `fmt` and `strconv` on addresses.
pub record Net : Type 0 where
  pub join_host_port : String → String → String
  pub split_host_port : String → Option (String × String)
  -- `strconv.ParseInt(s, 10, 32)`, and `fmt.Sprintf("%d", n)`
  pub parse_int32 : String → Option ℤ
  pub format_int : ℤ → String
  -- `strings.EqualFold`, `strings.HasSuffix` and `strings.TrimSuffix`
  pub equal_fold : String → String → Bool
  pub has_suffix : String → String → Bool
  pub trim_suffix : String → String → String
  -- `strings.TrimSpace` and `strconv.ParseBool`
  pub trim_space : String → String
  pub parse_bool : String → Option Bool
  -- `url.Parse`: the host name and the port; and the same URL with another `Host`, as a text.
  pub parse_url : String → Option (String × String)
  pub with_host : String → String → String

unfoldable pub hardware_port : HardwareBackend → ℤ
unfolding nonzero_or
hardware_port hw = nonzero_or hw.port default_z21_port

unfoldable pub z21_address : Net → Z21Device → Result AddressError String
unfolding hardware_port simulator_service_fqdn
z21_address net d =
    let backend = d.spec.backend in
    if backend.backend_type == backend_hardware
    then elim backend.hardware [
      | none ↦ err hardware_required
      | some hw ↦ ok (net.join_host_port hw.host (net.format_int (hardware_port hw)))
    ]
    else if backend.backend_type == backend_simulator
    then ok (
        net.join_host_port (simulator_service_fqdn default_workload_namespace d.name)
          (net.format_int default_z21_port))
    else err (unsupported_backend backend.backend_type)

abbrev pub default_can_address_pool_spec : CanAddressPoolSpec
default_can_address_pool_spec = record { start = 10; end = 200; reserved = 1 ∷ 2 ∷ 3 ∷ [] }

abbrev pub default_can_address_pool_name : String
default_can_address_pool_name = "default"

-- An empty name of the reference counts as none.
unfoldable pub can_address_pool_name : Z21Device → String
can_address_pool_name d = elim d.spec.can_address_pool_ref [
  | none ↦ default_can_address_pool_name
  | some name ↦ if name == "" then default_can_address_pool_name else name
]

unfoldable pub can_address_pool_namespace : Z21Device → String
can_address_pool_namespace d = elim d.spec.can_address_pool_ref [
  | none ↦ default_workload_namespace
  | some name ↦ if name == "" then default_workload_namespace else d.namespace
]

abbrev pub device_finalizer_name : String
device_finalizer_name = "z21.trains.io/finalizer"

abbrev pub display_name_annotation : String
display_name_annotation = "z21.trains.io/display-name"

unfoldable pub display_name : Z21Device → String
display_name d = elim (lookup display_name_annotation d.annotations) [
  | none ↦ d.name
  | some name ↦ if name == "" then d.name else name
]

unfoldable pub ensure_cluster_dns_fqdn : Net → String → String
ensure_cluster_dns_fqdn net host =
    let trimmed = net.trim_suffix host "." in
    if net.has_suffix trimmed ".cluster.local" then trimmed ++ "." else trimmed

unfoldable pub ensure_nats_url_cluster_dns : Net → String → String
unfolding ensure_cluster_dns_fqdn
ensure_nats_url_cluster_dns net raw = elim (net.parse_url raw) [
  | none ↦ raw
  | some (hostname, port) ↦
      let host = ensure_cluster_dns_fqdn net hostname in
      if hostname == "" || host == hostname
      then raw
      else if port == ""
      then net.with_host raw host
      else net.with_host raw (net.join_host_port host port)
]

abbrev pub default_simulator_grpc_port : ℤ
default_simulator_grpc_port = pos 50051

unfoldable pub simulator_grpc_address : Net → String → String → String
unfolding simulator_service_fqdn
simulator_grpc_address net namespace device_name =
    net.join_host_port (simulator_service_fqdn namespace device_name)
      (net.format_int default_simulator_grpc_port)

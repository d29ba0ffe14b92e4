-- ===== src/Examples/Devices.antt =====
-- A device whose gateway is ready, and requests that create and change one
-- (operators/z21-device, apps/api).
use elp.Prelude.{
  ◌≡◌, ◌↔◌, ◌⊎◌, refl, sym, ap, subst, ◌∙◌, String, true, false, Option, none, some, [], ◌∷◌,
  if◌then◌else◌, arith,
}
use elp.Prelude.Result.{ok, err}
use elp.Prelude.Eq.{◌==◌, string_comparable, string_eq_iff, beq_refl}
use elp.Prelude.Int.{pos}
use elp.Operator.Device.{
  Z21Device, Z21DeviceSpec, device_finalizer_name, phase_running, backend_hardware,
}
use elp.Operator.Cluster.{Resource}
use elp.Operator.Workload.{Deployment}
use elp.Examples.Cluster.{single, single-found, one_address, not_found}
use elp.Operator.Status.{
  StatusInput, SetCondition, is_ready, compute_phase, condition_status, patch_if_stale,
  update_status, updated_status, device_status_is_current, set_gateway_ready_condition,
  gateway_ready_condition, deployment_name, gateway_ready_status,
}
use elp.Operator.Settled.{SetsCondition, StoresStatus, status_settles}
use elp.Operator.Running.{HasReady, HasFailed, running_exact}
use elp.Gateway.Health.{HealthUpdate}
use elp.Gateway.Reporter.{update_health, with_health}
use elp.Gateway.Conditions.{KeepsConditions, IsReported, health-IsReported}
use elp.Api.Requests.{DeviceCreate, DeviceUpdate}

-- The deployment of a gateway with one ready replica.
abbrev pub gateway : Deployment
gateway = record {
  namespace = "elp";
  name = "z21-gateway-yard";
  labels = [];
  spec = record {
    replicas = pos 1;
    selector = [];
    template_labels = [];
    template = record {
      service_account_name = "";
      host_network = false;
      node_selector = [];
      containers = [];
      dns_policy = "";
      host_aliases = [];
    };
  };
  ready_replicas = pos 1;
  conditions = [];
}

running_exact_example : (compute_phase (some gateway) none false ≡ phase_running) ↔ (
    (¬ HasFailed (some gateway))
    × (¬ HasFailed none)
    × HasReady (some gateway)
    × ((◌≡◌ {A = Option Deployment} none none) ⊎ HasReady none))
running_exact_example = running_exact (some gateway) none

-- What a request for a device at z21:21105 gives.
abbrev pub host_spec : Z21DeviceSpec
host_spec = record {
  backend = record {
    backend_type = backend_hardware;
    hardware = some (record { host = "z21"; port = pos 21105 });
    simulator = none;
  };
  nats = record { url = "nats://nats"; subject_prefix = "" };
  health_check = record {
    interval = pos 0;
    timeout = pos 0;
    failure_threshold = pos 0;
    success_threshold = pos 0;
  };
  gateway = record { image = ""; host_network = false; node_selector = []; host_aliases = [] };
  broadcast_flags = some 524545;
  can_address_pool_ref = none;
}

abbrev pub device : Z21Device
device = record {
  namespace = "elp";
  name = "yard";
  generation = pos 1;
  finalizers = device_finalizer_name ∷ [];
  is_deleting = false;
  annotations = [];
  spec = host_spec;
  status = record {
    phase = "";
    conditions = [];
    last_successful_health_check = none;
    health_check_failures = pos 0;
    gateway_deployment = "";
    simulator_deployment = "";
    simulator_service = "";
    last_seen = none;
    serial_number = "";
    firmware_version = "";
    hardware_type = "";
    xbus_version = "";
    xbus_firmware_version = "";
    lock_code = none;
    observed_generation = pos 0;
  };
}

abbrev running : StatusInput
running = record {
  gateway_deploy = some gateway;
  simulator_deploy = none;
  simulator_svc = "";
  phase = phase_running;
}

-- A condition is put before the others.
abbrev pub set_first : SetCondition
set_first cs c = c ∷ cs

pub set_first-SetsCondition : SetsCondition set_first
unfolding condition_status
set_first-SetsCondition cs c = rw (beq_refl c.condition_type) refl

abbrev devices : Resource Z21Device String Z21Device
devices = single (λ d. d.name)

devices-StoresStatus : StoresStatus devices
devices-StoresStatus s t namespace name base new stored got same wrote =
    let (named, there) = single-found (λ d. d.name) namespace name s base got in
    let after : new ≡ t = ap (λ r. r.1) wrote in
    let its_name : s.name ≡ t.name =
      ap (λ d. d.name) there ∙ sym (ap (λ d. d.name) same) ∙ ap (λ d. d.name) after in
    subst (λ n. (if name == n then ok t else err not_found) ≡ ok new) its_name
      (rw named (ap ok (sym after)))

first_update :
    update_status set_first devices device running device
    ≡ (ok tt, updated_status set_first device running)
unfolding update_status patch_if_stale device_status_is_current updated_status condition_status
    set_gateway_ready_condition gateway_ready_condition deployment_name gateway_ready_status
    is_ready
first_update = refl

status_settles_example :
    update_status set_first devices device running (updated_status set_first device running)
    ≡ (ok tt, updated_status set_first device running)
status_settles_example =
    status_settles set_first set_first-SetsCondition devices devices-StoresStatus device running
      device (updated_status set_first device running) first_update

abbrev pub request : DeviceCreate
request = record {
  name = "yard";
  address = "z21:21105";
  backend = none;
  nats = record { url = "nats://nats"; subject_prefix = "" };
  gateway = none;
  broadcast_flags = none;
}

abbrev gateway_update : DeviceUpdate
gateway_update = record {
  address = none;
  nats = none;
  gateway = some (record { image = "gateway:2"; host_network = true; node_selector = [] });
  broadcast_flags = none;
}

abbrev updated_spec : Z21DeviceSpec
updated_spec = record host_spec {
  gateway = record {
    image = "gateway:2";
    host_network = true;
    node_selector = [];
    host_aliases = [];
  };
}

set_first-KeepsConditions : KeepsConditions set_first
unfolding condition_status
set_first-KeepsConditions cs c ty other =
    let different : (c.condition_type == ty) ≡ false =
      ground (arith, string_eq_iff c.condition_type ty, other) in
    rw different refl

-- The device answers no probe any more.
abbrev unreachable : HealthUpdate
unreachable = record {
  device_reachable = false;
  degraded = true;
  failures = pos 3;
  last_success = none;
}

health_written :
    update_health devices "elp" "yard" set_first one_address unreachable device
    ≡ (ok tt, with_health set_first one_address unreachable device)
unfolding update_health
health_written = refl

health-IsReported_example :
    (e : Z21Device) × (devices.get "elp" "yard"
        (with_health set_first one_address unreachable device)
      ≡ ok e)
    × IsReported set_first set_first-SetsCondition set_first-KeepsConditions unreachable device e
health-IsReported_example =
    health-IsReported set_first set_first-SetsCondition set_first-KeepsConditions devices
      devices-StoresStatus "elp" "yard" one_address unreachable device device
      (with_health set_first one_address unreachable device) refl health_written

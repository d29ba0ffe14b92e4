-- ===== src/Gateway/Reporter.antt =====
-- What the gateway writes to the status of its device
-- (apps/z21-gateway/internal/status/reporter.go).
use Prim.Native.Nat.{ℕ}
use Prim.Native.String.{◌++◌}
use elp.Prelude.{String, Bool, Option, none, some, if◌then◌else◌}
use elp.Prelude.Action.{Action, pure, reading, ◌>>=◌, ◌>>◌}
use elp.Prelude.Eq.{◌==◌, string_comparable}
use elp.Prelude.Int.{ℤ}
use elp.Gateway.Health.{HealthCheckSpec, HealthUpdate, Time}
use elp.Operator.Device.{
  Condition, Z21Device, Net, condition_device_reachable, condition_degraded, broadcast_flags_value,
  health_check_spec_or_defaults,
}
use elp.Operator.Status.{SetCondition, condition_true, condition_false}
use elp.Operator.Cluster.{Resource}

pub record SessionUpdate : Type 0 where
  pub last_seen : Time
  pub serial_number : String
  pub firmware_version : String
  pub hardware_type : String
  pub xbus_version : String
  pub xbus_firmware_version : String
  pub lock_code : Option ℕ

-- `if new != "" { old = new }`
unfoldable pub nonempty_or : String → String → String
nonempty_or new old = if new == "" then old else new

-- `if new != nil { old = new }`
unfoldable pub given_or : {A : Type 0} → Option A → Option A → Option A
given_or none old = old
given_or (some a) old = some a

unfoldable pub with_session : SessionUpdate → Z21Device → Z21Device
unfolding nonempty_or given_or
with_session update device = record device {
  status = record (device.status) {
    last_seen = some update.last_seen;
    serial_number = nonempty_or update.serial_number device.status.serial_number;
    firmware_version = nonempty_or update.firmware_version device.status.firmware_version;
    hardware_type = nonempty_or update.hardware_type device.status.hardware_type;
    xbus_version = nonempty_or update.xbus_version device.status.xbus_version;
    xbus_firmware_version =
        nonempty_or update.xbus_firmware_version device.status.xbus_firmware_version;
    lock_code = given_or update.lock_code device.status.lock_code;
  };
}

unfoldable pub reachability_condition : Net → Z21Device → Bool → ℤ → Condition
reachability_condition net device reachable failures = record {
  condition_type = condition_device_reachable;
  status = if reachable then condition_true else condition_false;
  reason = if reachable then "ProbeSucceeded" else "ProbeFailing";
  message =
      if reachable
      then "Z21 endpoint responded to health probe"
      else "Z21 endpoint failed " ++ (net.format_int failures ++ " consecutive health probe(s)");
  observed_generation = device.generation;
}

unfoldable pub degraded_condition : Z21Device → Bool → Condition
degraded_condition device degraded = record {
  condition_type = condition_degraded;
  status = if degraded then condition_true else condition_false;
  reason = if degraded then "DeviceUnreachable" else "Healthy";
  message = if degraded then "Z21 endpoint is unreachable" else "Z21 endpoint is reachable";
  observed_generation = device.generation;
}

-- The functions of `setReachabilityCondition` and `setDegradedCondition` share this.
abbrev with_condition : SetCondition → Condition → Z21Device → Z21Device
with_condition set c device = record device {
  status = record (device.status) { conditions = set device.status.conditions c };
}

unfoldable pub set_reachability_condition : SetCondition → Net → Bool → ℤ → Z21Device → Z21Device
unfolding reachability_condition
set_reachability_condition set net reachable failures device =
    with_condition set (reachability_condition net device reachable failures) device

unfoldable pub set_degraded_condition : SetCondition → Bool → Z21Device → Z21Device
unfolding degraded_condition
set_degraded_condition set degraded device =
    with_condition set (degraded_condition device degraded) device

unfoldable pub with_health : SetCondition → Net → HealthUpdate → Z21Device → Z21Device
unfolding given_or set_reachability_condition set_degraded_condition
with_health set net update device =
    let counted = record device {
      status = record (device.status) {
        health_check_failures = update.failures;
        last_successful_health_check =
            given_or update.last_success device.status.last_successful_health_check;
      };
    } in
    set_degraded_condition set update.degraded
      (set_reachability_condition set net update.device_reachable update.failures counted)

-- The reporter's device, and the cluster.
module _ {S E : Type 0} (devices : Resource S E Z21Device) (namespace name : String) where
  unfoldable pub update_session : SessionUpdate → Action S E (Unit {0})
  unfolding with_session
  update_session update = do
    device ← reading (devices.get namespace name)
    devices.patch_status device (with_session update device)
    pure tt

  unfoldable pub update_health : SetCondition → Net → HealthUpdate → Action S E (Unit {0})
  unfolding with_health
  update_health set net update = do
    device ← reading (devices.get namespace name)
    devices.patch_status device (with_health set net update device)
    pure tt

  unfoldable pub health_check_spec : Action S E HealthCheckSpec
  unfolding health_check_spec_or_defaults
  health_check_spec = do
    device ← reading (devices.get namespace name)
    pure (health_check_spec_or_defaults device)

  unfoldable pub broadcast_flags : Action S E ℕ
  unfolding broadcast_flags_value
  broadcast_flags = do
    device ← reading (devices.get namespace name)
    pure (broadcast_flags_value device)

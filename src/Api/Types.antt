-- ===== src/Api/Types.antt =====
-- The API's view of a device, and how it is read off the custom resource
-- (apps/api/internal/api/types.go).
use elp.Prelude.{
  ℕ, ltb, String, Bool, true, false, ◌&&◌, ◌||◌, Option, none, some, List, [], ◌∷◌, length,
  if◌then◌else◌,
}
use elp.Prelude.Result.{ok, err}
use elp.Prelude.Eq.{◌==◌, string_comparable}
use elp.Prelude.Assoc.{Map}
use elp.Prelude.Int.{ℤ}
use elp.Gateway.Health.{Time}
use elp.Operator.Device.{
  Condition, Z21Device, Net, z21_address, broadcast_flags_value, condition_gateway_ready,
  condition_device_reachable, condition_degraded,
}
use elp.Operator.Status.{condition_true}

pub record NatsConfig : Type 0 where
  pub url : String
  pub subject_prefix : String

pub record GatewayConfig : Type 0 where
  pub image : String
  pub host_network : Bool
  pub node_selector : Map String String

pub record DeviceStatus : Type 0 where
  pub phase : String
  pub gateway_deployment : String
  pub gateway_ready : Bool
  pub device_reachable : Bool
  pub degraded : Bool
  pub health_check_failures : ℤ
  pub last_successful_health_check : Option Time
  pub last_seen : Option Time
  pub serial_number : String
  pub firmware_version : String
  pub hardware_type : String
  pub xbus_version : String
  pub xbus_firmware_version : String
  pub lock_code : Option ℕ

pub record Device : Type 0 where
  pub name : String
  pub namespace : String
  pub address : String
  pub nats : NatsConfig
  pub gateway : Option GatewayConfig
  pub broadcast_flags : ℕ
  pub status : Option DeviceStatus

unfoldable pub condition_is_true : List Condition → String → Bool
condition_is_true [] ty = false
condition_is_true (c ∷ cs) ty =
    c.condition_type == ty && c.status == condition_true || condition_is_true cs ty

unfoldable pub is_none {ℓ} : {A : Type ℓ} → Option A → Bool
is_none none = true
is_none (some a) = false

unfoldable pub status_is_empty : Z21Device → Bool
unfolding is_none
status_is_empty cr =
    let status = cr.status in
    status.phase == ""
    && status.gateway_deployment == ""
    && is_none status.last_seen
    && status.serial_number == ""
    && status.firmware_version == ""
    && status.hardware_type == ""
    && status.xbus_version == ""
    && status.xbus_firmware_version == ""
    && is_none status.lock_code
    && is_none_condition status.conditions
  where
    is_none_condition : List Condition → Bool
    is_none_condition [] = true
    is_none_condition (c ∷ cs) = false

unfoldable pub status_from_cr : Z21Device → Option DeviceStatus
unfolding status_is_empty condition_is_true
status_from_cr cr =
    let status = cr.status in
    if status_is_empty cr
    then none
    else some (record {
      phase = status.phase;
      gateway_deployment = status.gateway_deployment;
      gateway_ready = condition_is_true status.conditions condition_gateway_ready;
      device_reachable = condition_is_true status.conditions condition_device_reachable;
      degraded = condition_is_true status.conditions condition_degraded;
      health_check_failures = status.health_check_failures;
      last_successful_health_check = status.last_successful_health_check;
      last_seen = status.last_seen;
      serial_number = status.serial_number;
      firmware_version = status.firmware_version;
      hardware_type = status.hardware_type;
      xbus_version = status.xbus_version;
      xbus_firmware_version = status.xbus_firmware_version;
      lock_code = status.lock_code;
    })

-- The address is empty where the resource has none.
unfoldable pub device_from_cr : Net → Z21Device → Device
unfolding z21_address broadcast_flags_value status_from_cr
device_from_cr net cr =
    let gateway = cr.spec.gateway in
    let shown : Bool =
      if gateway.image == ""
      then gateway.host_network || ltb 0 (length gateway.node_selector)
      else true in
    record {
      name = cr.name;
      namespace = cr.namespace;
      address = elim (z21_address net cr) [ ok addr ↦ addr | err _ ↦ "" ];
      nats = record { url = cr.spec.nats.url; subject_prefix = cr.spec.nats.subject_prefix };
      gateway =
          if shown
          then some (record {
            image = gateway.image;
            host_network = gateway.host_network;
            node_selector = gateway.node_selector;
          })
          else none;
      broadcast_flags = broadcast_flags_value cr;
      status = status_from_cr cr;
    }

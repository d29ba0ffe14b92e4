-- ===== src/Sim/Control.antt =====
-- The control service of apps/z21-sim/internal/control/grpc.go. Requests are not nil: the generated
-- code passes the decoded request.
use elp.Prelude.{ℕ, Bool}
use elp.Prelude.Result.{Result, ok, err}
use elp.Sim.Wire.{Bytes}
use elp.Sim.Platform.{Platform}
use elp.Sim.Device.{CanDevice, CanDeviceKind, detector, booster, BuildError, build_can_device}
use elp.Sim.Server.{Server}
use elp.Sim.Broadcast.{broadcast_system_state, set_track_power_and_notify}
use elp.Sim.Can.{notify_can_device_detected}

-- controlv1.CANDeviceKind: the two kinds, and every other number.
pub data ProtoKind : Type 0 where
  proto_detector proto_booster proto_other : ProtoKind

pub record NotifyRequest : Type 0 where
  pub net_id : ℕ
  pub kind : ProtoKind
  pub name : Bytes
  pub module_addr : ℕ
  pub port_count : ℕ
  pub output_port : ℕ

pub data ControlError : Type 0 where
  kind_required : ControlError
  build_failed : BuildError → ControlError

unfoldable pub can_device_kind_from_proto : ProtoKind → Result ControlError CanDeviceKind
can_device_kind_from_proto proto_detector = ok detector
can_device_kind_from_proto proto_booster = ok booster
can_device_kind_from_proto proto_other = err kind_required

-- The device that a request asks for.
unfoldable pub requested_device : NotifyRequest → Result ControlError CanDevice
unfolding can_device_kind_from_proto build_can_device
requested_device req = elim (can_device_kind_from_proto req.kind) [
  | err e ↦ err e
  | ok kind ↦
      elim (build_can_device req.net_id kind req.name req.module_addr req.port_count
        req.output_port) [ err e ↦ err (build_failed e) | ok device ↦ ok device ]
]

-- The response to `SetTrackPower`.
pub record TrackPowerResponse : Type 0 where
  pub on : Bool
  pub changed : Bool

module _ (z : Platform) where
  -- The number of recipients fits an `int32`: it is at most the number of clients.
  unfoldable pub rpc_broadcast_system_state : Server → Server × ℕ
  unfolding broadcast_system_state
  rpc_broadcast_system_state s = broadcast_system_state z s

  unfoldable pub rpc_set_track_power : Server → Bool → Server × TrackPowerResponse
  unfolding set_track_power_and_notify
  rpc_set_track_power s on =
      let (s', changed) = set_track_power_and_notify z s on in
      (s', record { on = on; changed = changed })

  unfoldable pub rpc_notify_can_device_detected :
      Server → NotifyRequest → Server × Result ControlError ℕ
  unfolding requested_device notify_can_device_detected
  rpc_notify_can_device_detected s req = elim (requested_device req) [
    | err e ↦ (s, err e)
    | ok device ↦ let (s', count) = notify_can_device_detected z s device in (s', ok count)
  ]

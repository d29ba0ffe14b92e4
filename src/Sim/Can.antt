-- ===== src/Sim/Can.antt =====
-- The CAN requests of apps/z21-sim/internal/server/can.go, and the registry of devices.
use Prim.Native.Nat.{bit_and, bit_or, bit_xor}
use elp.Prelude.{
  ℕ, Bool, true, false, not, ◌||◌, Option, none, some, List, [], ◌∷◌, ◌++◌, if◌then◌else◌, ltb,
  length, take,
}
use elp.Prelude.Eq.{◌==◌, nat_comparable}
use elp.Prelude.Assoc.{Map, lookup, insert}
use elp.Sim.Wire.{Bytes, uint16}
use elp.Sim.Platform.{Platform, Message}
use elp.Sim.Device.{
  CanDevice, unset, detector, booster, parse_can_device_name, encode_can_device_description,
  detector_reports, booster_system_state_message,
}
use elp.Sim.Server.{Server}
use elp.Sim.Broadcast.{broadcast, broadcast_many}

unfoldable pub register_can_device : Server → CanDevice → Server
register_can_device s device = record s { can_devices = insert device.net_id device s.can_devices }

unfoldable pub can_device : Server → ℕ → Option CanDevice
can_device s net_id = lookup net_id s.can_devices

abbrev pub is_detector : CanDevice → Bool
is_detector device = elim device.kind [ detector ↦ true | _ ↦ false ]

abbrev pub is_booster : CanDevice → Bool
is_booster device = elim device.kind [ booster ↦ true | _ ↦ false ]

-- The loop of `detectorDevices`.
unfoldable pub detectors_among : Map ℕ CanDevice → List CanDevice
detectors_among [] = []
detectors_among ((net_id, device) ∷ rest) =
    let others = detectors_among rest in if is_detector device then device ∷ others else others

unfoldable pub detector_devices : Server → List CanDevice
unfolding detectors_among
detector_devices s = detectors_among s.can_devices

-- What a handler answers: `none` for a request that it does not handle.
abbrev pub Reply : Type 0
Reply = Option (List Message)

-- The name of a device that is not registered is empty.
abbrev pub name_of : Option CanDevice → Bytes
name_of none = []
name_of (some device) = device.name

-- `x &^ y`
abbrev pub and_not : ℕ → ℕ → ℕ
and_not x y = bit_xor x (bit_and x y)

-- `device.Name = name`, of the device there is or of a new one.
unfoldable pub named : Option CanDevice → ℕ → Bytes → CanDevice
named none net_id name = record {
  kind = unset;
  net_id = net_id;
  name = name;
  module_addr = 0;
  ports = [];
  output_port = 0;
  state = 0;
  vcc_mv = 0;
  current_ma = 0;
}
named (some device) net_id name = record device { name = name }

module _ (z : Platform) where
  unfoldable pub broadcast_can_device_detected : Server → CanDevice → Server × ℕ
  unfolding broadcast broadcast_many detector_reports booster_system_state_message
  broadcast_can_device_detected s device = elim device.kind [
    | detector ↦ broadcast_many z s (detector_reports z device) z.flag_can_detector none
    | booster ↦ broadcast z s (booster_system_state_message z device) z.flag_can_booster none
    | unset ↦ (s, 0)
  ]

  unfoldable pub notify_can_device_detected : Server → CanDevice → Server × ℕ
  unfolding register_can_device broadcast_can_device_detected
  notify_can_device_detected s device =
      broadcast_can_device_detected (register_can_device s device) device

  unfoldable pub handle_get_description : Server → Bytes → Reply
  unfolding uint16 can_device encode_can_device_description
  handle_get_description s (b0 ∷ b1 ∷ rest) =
      let net_id = uint16 b0 b1 in
      some (
        record {
          header = z.header_can_device_get_description;
          payload = encode_can_device_description z net_id (name_of (can_device s net_id));
        }
        ∷ [])
  handle_get_description s _ = none

  unfoldable pub handle_set_description : Server → Bytes → Server × Reply
  unfolding uint16 parse_can_device_name named
  handle_set_description s (b0 ∷ b1 ∷ rest) =
      let net_id = uint16 b0 b1 in
      let name = parse_can_device_name (take z.can_booster_name_len rest) in
      let device = named (lookup net_id s.can_devices) net_id name in
      if ltb (length rest) z.can_booster_name_len
      then (s, none)
      else (record s { can_devices = insert net_id device s.can_devices }, some [])
  handle_set_description s _ = (s, none)

  -- The two loops over the devices and over their reports.
  unfoldable pub all_reports : List CanDevice → List Message
  unfolding detector_reports
  all_reports [] = []
  all_reports (device ∷ rest) = detector_reports z device ++ all_reports rest

  -- The devices that a poll of `net_id` asks for.
  unfoldable pub polled : Server → ℕ → List CanDevice
  unfolding detector_devices can_device
  polled s net_id =
      if net_id == z.can_detector_poll_all then detector_devices s else elim (can_device s net_id) [
        | none ↦ []
        | some device ↦ if is_detector device then device ∷ [] else []
      ]

  -- Without a device to poll `all_reports` is empty, as the source's early return.
  unfoldable pub handle_detector_poll : Server → Bytes → Reply
  unfolding uint16 polled all_reports
  handle_detector_poll s (b0 ∷ b1 ∷ b2 ∷ rest) =
      if not (b0 == 0) then none else some (all_reports (polled s (uint16 b1 b2)))
  handle_detector_poll s _ = none

  unfoldable pub handle_maintenance : Server → Bytes → Server
  handle_maintenance s payload = elim (z.parse_can_maintenance_set_address payload) [
    | none ↦ s
    | some (net_id, module_addr) ↦ elim (lookup net_id s.can_devices) [
      | none ↦ s
      | some device ↦ if not (is_detector device) then s else record s {
        can_devices = insert net_id (record device { module_addr = module_addr }) s.can_devices;
      }
    ]
  ]

  -- The `switch power`.
  unfoldable pub set_power : CanDevice → ℕ → CanDevice
  set_power device power =
      if power == z.can_booster_activate_all
        || power == z.can_booster_activate_out1
        || power == z.can_booster_activate_out2
      then record device { state = and_not device.state z.can_booster_state_track_voltage_off }
      else if power == z.can_booster_deactivate_all
          || power == z.can_booster_deactivate_out1
          || power == z.can_booster_deactivate_out2
      then record device { state = bit_or device.state z.can_booster_state_track_voltage_off }
      else device

  unfoldable pub handle_booster_set_track_power : Server → Bytes → Server × Reply
  unfolding uint16 set_power booster_system_state_message
  handle_booster_set_track_power s (b0 ∷ b1 ∷ power ∷ rest) =
      let net_id = uint16 b0 b1 in
      elim (lookup net_id s.can_devices) [
        | none ↦ (s, some [])
        | some device ↦
            let device' = set_power device power in
            if not (is_booster device) then (s, some []) else (
              record s { can_devices = insert net_id device' s.can_devices },
              some (booster_system_state_message z device' ∷ []),
            )
      ]
  handle_booster_set_track_power s _ = (s, none)

  unfoldable pub handle_can : Server → Message → Server × Reply
  unfolding handle_get_description handle_set_description handle_detector_poll handle_maintenance
      handle_booster_set_track_power
  handle_can s msg =
      if msg.header == z.header_can_device_get_description
      then (s, handle_get_description s msg.payload)
      else if msg.header == z.header_can_device_set_description
      then handle_set_description s msg.payload
      else if msg.header == z.header_can_detector
      then (s, handle_detector_poll s msg.payload)
      else if msg.header == z.header_can_maintenance
      then (handle_maintenance s msg.payload, some [])
      else if msg.header == z.header_can_booster_set_track_power
      then handle_booster_set_track_power s msg.payload
      else (s, none)

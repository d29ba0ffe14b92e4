-- ===== src/Sim/Platform.antt =====
-- What apps/z21-sim calls and does not implement: the package github.com/trains-io/z21.go/protocol
-- and the UDP socket. They are a parameter of every model of the simulator.
use elp.Prelude.{ℕ, String, Bool, Option, List}
use elp.Sim.Wire.{Bytes}

-- The two fields of `protocol.Message` that the simulator reads and writes.
pub record Message : Type 0 where
  pub header : ℕ
  pub payload : Bytes

-- A `*net.UDPAddr`, by the text that `String()` gives for it.
abbrev pub Endpoint : Type 0
Endpoint = String

pub record Platform : Type 0 where
  -- protocol.HeaderLAN…
  pub header_get_hw_info : ℕ
  pub header_get_serial_number : ℕ
  pub header_get_code : ℕ
  pub header_logoff : ℕ
  pub header_set_broadcast_flags : ℕ
  pub header_get_broadcast_flags : ℕ
  pub header_system_state_get_data : ℕ
  pub header_system_state_data_changed : ℕ
  pub header_x : ℕ
  pub header_can_device_get_description : ℕ
  pub header_can_device_set_description : ℕ
  pub header_can_detector : ℕ
  pub header_can_maintenance : ℕ
  pub header_can_booster_set_track_power : ℕ
  pub header_can_booster_system_state : ℕ
  -- protocol.BroadcastFlag…
  pub flag_xpress_net : ℕ
  pub flag_system_state : ℕ
  pub flag_can_detector : ℕ
  pub flag_can_booster : ℕ
  -- protocol.CAN…
  pub can_booster_name_len : ℕ
  pub can_detector_poll_all : ℕ
  pub can_detector_type_occupancy : ℕ
  pub can_booster_activate_all : ℕ
  pub can_booster_activate_out1 : ℕ
  pub can_booster_activate_out2 : ℕ
  pub can_booster_deactivate_all : ℕ
  pub can_booster_deactivate_out1 : ℕ
  pub can_booster_deactivate_out2 : ℕ
  pub can_booster_state_track_voltage_off : ℕ
  pub hw_type_z21_new : ℕ
  pub code_no_lock : ℕ
  -- protocol.ParseAll, protocol.MarshalAll: `none` is an error.
  pub parse_all : Bytes → Option (List Message)
  pub marshal_all : List Message → Option Bytes
  -- protocol.ParseCANMaintenanceSetAddress: the network id and the module address.
  pub parse_can_maintenance_set_address : Bytes → Option (ℕ × ℕ)
  -- Whether `conn.WriteToUDP` of these bytes to this endpoint succeeds.
  pub write_succeeds : Endpoint → Bytes → Bool

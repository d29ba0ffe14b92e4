-- ===== src/Examples/Simulator.antt =====
-- A simulator with one client, on a protocol package with one message to a datagram: the first byte
-- is the header (apps/z21-sim).
use elp.Prelude.{ℕ, String, true, false, Option, none, some, List, [], ◌∷◌, ◌++◌, arith}
use elp.Prelude.Eq.{nat_comparable, string_comparable}
use elp.Sim.Wire.{Bytes}
use elp.Sim.Platform.{Platform, Message}
use elp.Sim.Server.{Server, new}
use elp.Sim.Control.{proto_detector}
use elp.Sim.Sessions.{IsWellFormed}
use elp.Sim.Invariant.{
  Event, packet, system_state_broadcast, track_power, notify, run, sessions-IsWellFormed,
}
use elp.Sim.Clients.{HeadersDistinct}

-- The header is one byte.
abbrev parse_one : Bytes → Option (List Message)
parse_one [] = none
parse_one (header ∷ payload) = some (record { header = header; payload = payload } ∷ [])

abbrev marshal : List Message → Bytes
marshal [] = []
marshal (m ∷ msgs) = m.header ∷ m.payload ++ marshal msgs

abbrev parse_address : Bytes → Option (ℕ × ℕ)
parse_address (b0 ∷ b1 ∷ rest) = some (b0, b1)
parse_address _ = none

-- The numbers are those of the protocol.
abbrev pub z : Platform
z = record {
  header_get_hw_info = 0x1A;
  header_get_serial_number = 0x10;
  header_get_code = 0x18;
  header_logoff = 0x30;
  header_set_broadcast_flags = 0x50;
  header_get_broadcast_flags = 0x51;
  header_system_state_get_data = 0x85;
  header_system_state_data_changed = 0x84;
  header_x = 0x40;
  header_can_device_get_description = 0xC8;
  header_can_device_set_description = 0xC9;
  header_can_detector = 0xC4;
  header_can_maintenance = 0xC5;
  header_can_booster_set_track_power = 0xCB;
  header_can_booster_system_state = 0xCA;
  flag_xpress_net = 0x00000001;
  flag_system_state = 0x00000100;
  flag_can_detector = 0x00080000;
  flag_can_booster = 0x00020000;
  can_booster_name_len = 4;
  can_detector_poll_all = 0xD000;
  can_detector_type_occupancy = 1;
  can_booster_activate_all = 0xFF;
  can_booster_activate_out1 = 0x11;
  can_booster_activate_out2 = 0x22;
  can_booster_deactivate_all = 0x00;
  can_booster_deactivate_out1 = 0x10;
  can_booster_deactivate_out2 = 0x20;
  can_booster_state_track_voltage_off = 0x80;
  hw_type_z21_new = 0x201;
  code_no_lock = 0;
  parse_all = parse_one;
  marshal_all = λ msgs. some (marshal msgs);
  parse_can_maintenance_set_address = parse_address;
  write_succeeds = λ remote out. true;
}

pub z-HeadersDistinct : HeadersDistinct z
z-HeadersDistinct = record {
  logoff_first = (λ h. omega (arith, h), λ h. omega (arith, h), λ h. omega (arith, h));
  flags_first =
      (λ h. omega (arith, h), λ h. omega (arith, h), λ h. omega (arith, h), λ h. omega (arith, h));
}

abbrev pub client : String
client = "10.0.0.2:21105"

-- The client asks for the system state, and the track power changes.
abbrev pub session : List Event
session =
    packet client (0x50 ∷ 0 ∷ 1 ∷ 0 ∷ 0 ∷ [])
    ∷ track_power false
    ∷ notify (record {
      net_id = 7;
      kind = proto_detector;
      name = [];
      module_addr = 10;
      port_count = 2;
      output_port = 0;
    })
    ∷ system_state_broadcast
    ∷ []

abbrev pub after_session : Server
after_session = run z (new 0) session

pub after_session-IsWellFormed : IsWellFormed after_session
after_session-IsWellFormed = sessions-IsWellFormed z 0 session

-- ===== src/Sim/Xpressnet.antt =====
-- The LAN_X requests of apps/z21-sim/internal/server/xpressnet.go.
use elp.Prelude.{ℕ, Bool, true, false, Option, none, some, [], ◌∷◌, if◌then◌else◌}
use elp.Prelude.Eq.{◌==◌, nat_comparable}
use elp.Sim.Wire.{Bytes}
use elp.Sim.Platform.{Platform, Message, Endpoint}
use elp.Sim.Server.{Server}
use elp.Sim.Broadcast.{
  append_lanx_xor, x_status_reply, track_power_bc_reply, notify_track_power_change, set_track_power,
}

abbrev pub x_header_get_version : ℕ
x_header_get_version = 0x21

abbrev pub x_command_get_firmware : ℕ
x_command_get_firmware = 0xF1

abbrev pub x_firmware_db0 : ℕ
x_firmware_db0 = 0x0A

abbrev pub x_command_get_status : ℕ
x_command_get_status = 0x24

abbrev pub x_command_set_track_power_off : ℕ
x_command_set_track_power_off = 0x80

abbrev pub x_command_set_track_power_on : ℕ
x_command_set_track_power_on = 0x81

module _ (z : Platform) where
  unfoldable pub x_firmware_reply : Message
  unfolding append_lanx_xor
  x_firmware_reply = record {
    header = z.header_x;
    payload = append_lanx_xor (0xF3 ∷ x_firmware_db0 ∷ 0x01 ∷ 0x20 ∷ []);
  }

  -- A track power command: the change is announced to the others, and the reply goes to the sender.
  unfoldable pub handle_track_power : Server → Endpoint → Bool → Server × Option Message
  unfolding set_track_power notify_track_power_change track_power_bc_reply
  handle_track_power s remote on =
      let (s', changed) = set_track_power s on in
      (
        if changed then notify_track_power_change z s' on (some remote) else s',
        some (track_power_bc_reply z on),
      )

  -- `none` is a request that the simulator does not handle.
  unfoldable pub handle_lanx : Server → Endpoint → Bytes → Server × Option Message
  unfolding x_firmware_reply x_status_reply handle_track_power
  handle_lanx s remote [] = (s, none)
  handle_lanx s remote (b0 ∷ []) = (s, none)
  handle_lanx s remote (b0 ∷ b1 ∷ rest) =
      if b0 == x_command_get_firmware
      then (if b1 == x_firmware_db0 then (s, some x_firmware_reply) else (s, none))
      else if b0 == x_header_get_version
      then (if b1 == x_command_get_status
          then (s, some (x_status_reply z s))
          else if b1 == x_command_set_track_power_off
          then handle_track_power s remote false
          else if b1 == x_command_set_track_power_on
          then handle_track_power s remote true
          else (s, none))
      else (s, none)

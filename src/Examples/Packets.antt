-- ===== src/Examples/Packets.antt =====
-- Packets, broadcasts and CAN requests of that simulator (apps/z21-sim/internal/server).
use Prim.Native.Nat.{bit_and}
use mathlib.Core.List.{Memᴰ}
use elp.Prelude.{
  ℕ, ◌≤◌, ◌≡◌, ◌≢◌, ◌⊎◌, refl, false, not, ◌&&◌, if◌then◌else◌, none, some, List, get_elem?, [],
  ◌∷◌, ◌++◌, arith, length,
}
use elp.Prelude.Result.{ok, err}
use elp.Prelude.Eq.{◌==◌, nat_comparable, string_comparable, option_comparable}
use elp.Prelude.Assoc.{lookup}
use elp.Sim.Wire.{Bytes, uint16, uint32}
use elp.Sim.Device.{CanDevice, detector, unset, BuildError, build_can_device}
use elp.Sim.Server.{Server, Datagram, new}
use elp.Sim.Platform.{Message, Endpoint}
use elp.Sim.Broadcast.{broadcast_many, append_lanx_xor, track_power_bc_reply}
use elp.Sim.Xpressnet.{handle_lanx}
use elp.Sim.Can.{handle_detector_poll, notify_can_device_detected, register_can_device}
use elp.Sim.Packet.{handle_packet}
use elp.Sim.Sessions.{IsWellFormed}
use elp.Sim.Invariant.{run, sessions-IsWellFormed}
use elp.Sim.Subscribers.{subscribes, datagrams_to, recipients_exact}
use elp.Sim.Clients.{logoff_final, flags_subscribe}
use elp.Sim.Delivery.{power_settles}
use elp.Sim.Names.{IsBuilt, port_report, poll-notify, build_can_device_total}
use elp.Examples.Simulator.{
  z, z-HeadersDistinct, client, session, after_session, after_session-IsWellFormed,
}

sessions-IsWellFormed_example : IsWellFormed (run z (new 0) session)
sessions-IsWellFormed_example = sessions-IsWellFormed z 0 session

abbrev power_off : Message
power_off = record { header = 0x40; payload = 0x61 ∷ 0x00 ∷ 0x61 ∷ [] }

abbrev power_off_bytes : Bytes
power_off_bytes = 0x40 ∷ 0x61 ∷ 0x00 ∷ 0x61 ∷ []

power_off_marshals : z.marshal_all (power_off ∷ []) ≡ some power_off_bytes
power_off_marshals = refl

recipients_exact_example :
    (written : List Datagram) × ((broadcast_many z after_session (power_off ∷ []) 0x100 none).0
      ≡ record after_session { sent = after_session.sent ++ written })
    × ((d : Datagram) → Memᴰ d written → d.bytes ≡ power_off_bytes)
    × ((remote : Endpoint)
        → datagrams_to remote written ≡ (
            if subscribes after_session 0x100 remote
              && not (none == some remote)
              && z.write_succeeds remote power_off_bytes
            then 1
            else 0))
recipients_exact_example =
    recipients_exact z after_session power_off [] 0x100 none power_off_bytes
      after_session-IsWellFormed power_off_marshals

logoff_final_example :
    lookup client (handle_packet z after_session client (0x30 ∷ [])).clients ≡ none
logoff_final_example =
    logoff_final z after_session client (0x30 ∷ []) [] (record { header = 0x30; payload = [] }) []
      z-HeadersDistinct refl refl

flags_subscribe_example :
    subscribes (handle_packet z after_session client (0x50 ∷ 1 ∷ 1 ∷ 8 ∷ 0 ∷ [])) 0x80000 client
    ≡ not (bit_and (uint32 1 1 8 0) 0x80000 == 0)
flags_subscribe_example =
    flags_subscribe z after_session client (0x50 ∷ 1 ∷ 1 ∷ 8 ∷ 0 ∷ []) 1 1 8 0 0x80000 []
      z-HeadersDistinct after_session-IsWellFormed refl

build_can_device_total_example :
    ((d : CanDevice) × (build_can_device 7 detector [] 10 2 0 ≡ ok d)
      × (d.net_id ≡ 7)
      × (d.kind ≡ detector)
      × (d.name ≡ [])
      × IsBuilt d)
    ⊎ ((e : BuildError) × (build_can_device 7 detector [] 10 2 0 ≡ err e)
        × ((◌≡◌ {A = ℕ} 7 0) ⊎ ((65536 ≤ 7) ⊎ (detector ≡ unset))))
build_can_device_total_example = build_can_device_total 7 detector [] 10 2 0

abbrev after_off : Server
after_off = (handle_lanx z after_session client (0x21 ∷ 0x80 ∷ [])).0

power_settles_example :
    (after_off.track_power ≡ false)
    × (handle_lanx z after_off "10.0.0.3:21105" (0x21 ∷ 0x80 ∷ 0xA1 ∷ [])
        ≡ (after_off, some (track_power_bc_reply z false)))
    × (handle_lanx z after_off "10.0.0.3:21105" (0x21 ∷ 0x24 ∷ 0xA1 ∷ []) ≡ (
      after_off,
      some (record { header = z.header_x; payload = append_lanx_xor (0x62 ∷ 0x22 ∷ 0x02 ∷ []) }),
    ))
power_settles_example = power_settles z after_session client "10.0.0.3:21105" false [] (0xA1 ∷ [])

abbrev yard_detector : CanDevice
yard_detector = record {
  kind = detector;
  net_id = 9;
  name = [];
  module_addr = 11;
  ports = 0x0100 ∷ 0x0000 ∷ [];
  output_port = 0;
  state = 0;
  vcc_mv = 0;
  current_ma = 0;
}

yard_id : uint16 9 0 ≡ yard_detector.net_id
unfolding uint16
yard_id = refl

not_all : yard_detector.net_id ≢ z.can_detector_poll_all
not_all h = omega (arith, h)

poll-notify_example :
    (reports : List Message) × (notify_can_device_detected z after_session yard_detector
      ≡ broadcast_many z
          (register_can_device after_session yard_detector)
          reports
          z.flag_can_detector
          none)
    × (handle_detector_poll z
          (notify_can_device_detected z after_session yard_detector).0
          (0 ∷ 9 ∷ 0 ∷ [])
        ≡ some reports)
    × (length reports ≡ 2)
    × ((i value : ℕ)
        → get_elem? yard_detector.ports i ≡ some value
        → get_elem? reports i ≡ some (port_report z yard_detector i value))
poll-notify_example = poll-notify z after_session yard_detector 9 0 [] refl yard_id not_all

-- ===== src/Sim/Invariant.antt =====
-- Datagrams, control requests and the sessions of the simulator
-- (handlePacket of apps/z21-sim/internal/server/server.go, apps/z21-sim/internal/control/grpc.go).
use elp.Prelude.{
  ℕ, ◌≡◌, refl, sym, subst, Bool, none, some, List, [], ◌∷◌, ◌++◌, arith, Option-cases, inl, inr,
  ◌⊎◌,
}
use elp.Prelude.Result.{Result-cases}
use elp.Prelude.Eq.{nat_comparable, string_comparable}
use elp.Sim.Wire.{Bytes}
use elp.Sim.Platform.{Platform, Message, Endpoint}
use elp.Sim.Device.{CanDevice, detector_reports, booster_system_state_message}
use elp.Sim.Server.{Server, Ref, new, session_for, remove_client}
use elp.Sim.Broadcast.{
  set_track_power, set_track_power_and_notify, broadcast_system_state, broadcast,
  system_state_reply,
}
use elp.Sim.Xpressnet.{handle_lanx}
use elp.Sim.Can.{
  handle_can, notify_can_device_detected, broadcast_can_device_detected, register_can_device,
}
use elp.Sim.Packet.{handle_set_flags, handle_message, handle_messages, reply_to, handle_packet}
use elp.Sim.Control.{
  NotifyRequest, requested_device, rpc_broadcast_system_state, rpc_set_track_power,
  rpc_notify_can_device_detected,
}
use elp.Sim.Sessions.{
  IsWellFormed, new-IsWellFormed, session_for-IsWellFormed, remove_client-IsWellFormed,
  set_flags-IsWellFormed,
}
use elp.Sim.Frames.{
  OnlySends, OnlyPower, OnlyDevices, handle_lanx_frame, handle_can_frame, write_messages_frame,
  broadcast_many_frame, notify_track_power_change_frame,
}

sends-IsWellFormed : (s t : Server) → OnlySends s t → IsWellFormed s → IsWellFormed t
sends-IsWellFormed s t h w = subst IsWellFormed (sym h) w

power-IsWellFormed : (s t : Server) → OnlyPower s t → IsWellFormed s → IsWellFormed t
power-IsWellFormed s t h w = subst IsWellFormed (sym h) w

devices-IsWellFormed : (s t : Server) → OnlyDevices s t → IsWellFormed s → IsWellFormed t
devices-IsWellFormed s t h w = subst IsWellFormed (sym h) w

module _ (z : Platform) where
  handle_set_flags-IsWellFormed :
      (s : Server) (r : Ref) (l : Bytes) → IsWellFormed s → IsWellFormed (handle_set_flags z s r l)
  unfolding handle_set_flags
  handle_set_flags-IsWellFormed s r (b0 ∷ b1 ∷ b2 ∷ b3 ∷ rest) w = set_flags-IsWellFormed s r _ w
  handle_set_flags-IsWellFormed s r _ w = w

  -- The server after one message of a packet, in five ways.
  abbrev pub MessageCases : Server → Endpoint → Ref → Message → Server → Type 0
  MessageCases s remote r msg t =
      (t ≡ s)
      ⊎ ((t ≡ remove_client s remote)
          ⊎ ((t ≡ handle_set_flags z s r msg.payload)
              ⊎ ((t ≡ (handle_lanx z s remote msg.payload).0) ⊎ (t ≡ (handle_can z s msg).0))))

  pub message_cases :
      (s : Server) (remote : Endpoint) (r : Ref) (msg : Message)
      → MessageCases s remote r msg (handle_message z s remote r msg).0
  unfolding handle_message
  message_cases s remote r msg = ground arith

  handle_message-IsWellFormed :
      (s : Server) (remote : Endpoint) (r : Ref) (msg : Message)
      → IsWellFormed s
      → IsWellFormed (handle_message z s remote r msg).0
  handle_message-IsWellFormed s remote r msg w = elim (message_cases s remote r msg) [
    | inl e ↦ rw e w
    | inr (inl e) ↦ rw e (remove_client-IsWellFormed s remote w)
    | inr (inr (inl e)) ↦ rw e (handle_set_flags-IsWellFormed s r msg.payload w)
    | inr (inr (inr (inl e))) ↦
        rw e (power-IsWellFormed s _ (handle_lanx_frame z s remote msg.payload) w)
    | inr (inr (inr (inr e))) ↦ rw e (devices-IsWellFormed s _ (handle_can_frame z s msg) w)
  ]

  handle_messages-IsWellFormed :
      (s : Server) (remote : Endpoint) (r : Ref) (replies l : List Message)
      → IsWellFormed s
      → IsWellFormed (handle_messages z s remote r replies l).0
  unfolding handle_messages
  handle_messages-IsWellFormed s remote r replies [] w = w
  handle_messages-IsWellFormed s remote r replies (msg ∷ rest) w =
      handle_messages-IsWellFormed (handle_message z s remote r msg).0 remote r
        (replies ++ (handle_message z s remote r msg).1) rest
        (handle_message-IsWellFormed s remote r msg w)

  pub reply_to_frame :
      (s : Server) (remote : Endpoint) (l : List Message) → OnlySends s (reply_to z s remote l)
  unfolding reply_to
  reply_to_frame s remote [] = refl
  reply_to_frame s remote (m ∷ l) = write_messages_frame z s remote (m ∷ l)

  -- The server after a packet that was parsed, before the replies are written.
  abbrev pub handled : Server → Endpoint → List Message → Server × List Message
  handled s remote msgs =
      handle_messages z (session_for s remote).0 remote (session_for s remote).1 [] msgs

  pub handle_packet_cases :
      (s : Server) (remote : Endpoint) (l : Bytes)
      → ((z.parse_all l ≡ none) × (handle_packet z s remote l ≡ s))
        ⊎ ((msgs : List Message) × (z.parse_all l ≡ some msgs)
            × (handle_packet z s remote l
                ≡ reply_to z (handled s remote msgs).0 remote (handled s remote msgs).1))
  unfolding handle_packet
  handle_packet_cases s remote l = elim (Option-cases (z.parse_all l)) [
    | inl bad ↦ inl (bad, rw (bad, handle_packet))
    | inr (msgs, good) ↦ inr (msgs, good, rw (good, handle_packet))
  ]

  pub handle_packet-IsWellFormed :
      (s : Server) (remote : Endpoint) (l : Bytes)
      → IsWellFormed s
      → IsWellFormed (handle_packet z s remote l)
  handle_packet-IsWellFormed s remote l w = elim (handle_packet_cases s remote l) [
    | inl (bad, e) ↦ rw e w
    | inr (msgs, good, e) ↦ rw e (
        sends-IsWellFormed (handled s remote msgs).0 _
          (reply_to_frame (handled s remote msgs).0 remote (handled s remote msgs).1)
          (handle_messages-IsWellFormed (session_for s remote).0 remote (session_for s remote).1 []
            msgs (session_for-IsWellFormed s remote w)))
  ]

  set_power_frame : (s : Server) (on : Bool) → OnlyPower s (set_track_power_and_notify z s on).0
  unfolding set_track_power_and_notify set_track_power
  set_power_frame s on =
      ground (arith, notify_track_power_change_frame z (record s { track_power = on }) on none)

  detected_frame :
      (s : Server) (d : CanDevice) → OnlySends s (broadcast_can_device_detected z s d).0
  unfolding broadcast_can_device_detected broadcast
  detected_frame s d = ground (
    arith,
    broadcast_many_frame z s (detector_reports z d) z.flag_can_detector none,
    broadcast_many_frame z s (booster_system_state_message z d ∷ []) z.flag_can_booster none,
  )

  notify-IsWellFormed :
      (s : Server) (req : NotifyRequest)
      → IsWellFormed s
      → IsWellFormed (rpc_notify_can_device_detected z s req).0
  unfolding rpc_notify_can_device_detected notify_can_device_detected register_can_device
  notify-IsWellFormed s req w = elim (Result-cases (requested_device req)) [
    | inl (d, good) ↦
        rw (good, rpc_notify_can_device_detected)
          (sends-IsWellFormed (register_can_device s d) _
            (detected_frame (register_can_device s d) d) w)
    | inr (e, bad) ↦ rw (bad, rpc_notify_can_device_detected) w
  ]

-- What happens to the simulator: a datagram arrives, or a control request.
pub data Event : Type 0 where
  packet : Endpoint → Bytes → Event
  system_state_broadcast : Event
  track_power : Bool → Event
  notify : NotifyRequest → Event

module _ (z : Platform) where
  unfoldable pub step : Server → Event → Server
  step s (packet remote payload) = handle_packet z s remote payload
  step s system_state_broadcast = (rpc_broadcast_system_state z s).0
  step s (track_power on) = (rpc_set_track_power z s on).0
  step s (notify req) = (rpc_notify_can_device_detected z s req).0

  unfoldable pub run : Server → List Event → Server
  unfolding step
  run s [] = s
  run s (e ∷ rest) = run (step s e) rest

  step-IsWellFormed : (s : Server) (e : Event) → IsWellFormed s → IsWellFormed (step s e)
  unfolding step rpc_broadcast_system_state rpc_set_track_power broadcast_system_state broadcast
  step-IsWellFormed s (packet remote payload) w = handle_packet-IsWellFormed z s remote payload w
  step-IsWellFormed s system_state_broadcast w =
      sends-IsWellFormed s _
        (broadcast_many_frame z s (system_state_reply z s ∷ []) z.flag_system_state none) w
  step-IsWellFormed s (track_power on) w = power-IsWellFormed s _ (set_power_frame z s on) w
  step-IsWellFormed s (notify req) w = notify-IsWellFormed z s req w

  run-IsWellFormed :
      (s : Server) (events : List Event) → IsWellFormed s → IsWellFormed (run s events)
  unfolding run
  run-IsWellFormed s [] w = w
  run-IsWellFormed s (e ∷ rest) w = run-IsWellFormed (step s e) rest (step-IsWellFormed s e w)

  -- After any datagrams and control requests on a new simulator, no endpoint stands twice in the
  -- table of clients, each client's session has the client's own address, and the sessions that
  -- are still to be allocated are unused.
  pub sessions-IsWellFormed : (t : ℕ) (events : List Event) → IsWellFormed (run (new t) events)
  sessions-IsWellFormed t events = run-IsWellFormed (new t) events (new-IsWellFormed t)

-- ===== src/Sim/Frames.antt =====
-- What each part of the simulator (apps/z21-sim/internal/server) may change of its state.
use elp.Prelude.{
  ℕ, ◌+◌, ◌≡◌, refl, Bool, true, false, Option, some, List, [], ◌∷◌, arith, if◌then◌else◌,
  Option-cases, inl, inr,
}
use elp.Prelude.Eq.{nat_comparable, string_comparable}
use elp.Sim.Wire.{Bytes}
use elp.Sim.Platform.{Platform, Message, Endpoint}
use elp.Sim.Server.{Server, send_udp, write_messages}
use elp.Sim.Broadcast.{
  send_all, subscriber_addrs, without_except, broadcast_many, broadcast, notify_track_power_change,
  set_track_power, x_status_reply, track_power_bc_reply, system_state_reply,
}
use elp.Sim.Xpressnet.{handle_lanx, handle_track_power}
use elp.Sim.Can.{
  handle_can, handle_set_description, handle_maintenance, handle_booster_set_track_power,
}

-- `t` is `s` with other datagrams written.
abbrev pub OnlySends : Server → Server → Type 0
OnlySends s t = t ≡ record s { sent = t.sent }

OnlySends-trans : (s t u : Server) → OnlySends s t → OnlySends t u → OnlySends s u
OnlySends-trans s t u h k = ground arith

module _ (z : Platform) where
  pub send_udp_frame :
      (s : Server) (remote : Endpoint) (out : Bytes) → OnlySends s (send_udp z s remote out).0
  unfolding send_udp
  send_udp_frame s remote out = ground arith

  pub write_messages_frame :
      (s : Server) (remote : Endpoint) (l : List Message)
      → OnlySends s (write_messages z s remote l)
  unfolding write_messages
  write_messages_frame s remote l = ground arith

  send_all_frame :
      (s : Server) (n : ℕ) (out : Bytes) (l : List Endpoint) → OnlySends s (send_all z s n out l).0
  unfolding send_all
  send_all_frame s n out [] = refl
  send_all_frame s n out (addr ∷ rest) =
      OnlySends-trans s (send_udp z s addr out).0 _ (send_udp_frame s addr out) (
        send_all_frame (send_udp z s addr out).0 (if (send_udp z s addr out).1 then n + 1 else n)
          out rest)

  pub broadcast_many_frame :
      (s : Server) (l : List Message) (flag : ℕ) (except : Option Endpoint)
      → OnlySends s (broadcast_many z s l flag except).0
  unfolding broadcast_many
  broadcast_many_frame s [] flag except = refl
  broadcast_many_frame s (m ∷ l) flag except = elim (Option-cases (z.marshal_all (m ∷ l))) [
    | inl bad ↦ rw (bad, broadcast_many)
    | inr (out, good) ↦
        rw (good, broadcast_many)
          (send_all_frame s 0 out (without_except except (subscriber_addrs s flag)))
  ]

  pub notify_track_power_change_frame :
      (s : Server) (on : Bool) (except : Option Endpoint)
      → OnlySends s (notify_track_power_change z s on except)
  unfolding notify_track_power_change broadcast
  notify_track_power_change_frame s on except =
      let s' : Server =
        (broadcast_many z s (track_power_bc_reply z on ∷ x_status_reply z s ∷ []) z.flag_xpress_net
          except).0 in
      OnlySends-trans s s' _
        (broadcast_many_frame s (track_power_bc_reply z on ∷ x_status_reply z s ∷ [])
          z.flag_xpress_net except)
        (broadcast_many_frame s' (system_state_reply z s' ∷ []) z.flag_system_state except)

-- `t` is `s` with other datagrams written and perhaps another track power.
abbrev pub OnlyPower : Server → Server → Type 0
OnlyPower s t = t ≡ record s { sent = t.sent; track_power = t.track_power }

-- `t` is `s` with other devices.
abbrev pub OnlyDevices : Server → Server → Type 0
OnlyDevices s t = t ≡ record s { can_devices = t.can_devices }

set_track_power_frame : (s : Server) (on : Bool) → OnlyPower s (set_track_power s on).0
unfolding set_track_power
set_track_power_frame s on = ground arith

module _ (z : Platform) where
  pub handle_track_power_frame :
      (s : Server) (remote : Endpoint) (on : Bool)
      → OnlyPower s (handle_track_power z s remote on).0
  unfolding handle_track_power
  handle_track_power_frame s remote on = ground (
    arith,
    set_track_power_frame s on,
    notify_track_power_change_frame z (set_track_power s on).0 on (some remote),
  )

  pub handle_lanx_frame :
      (s : Server) (remote : Endpoint) (l : Bytes) → OnlyPower s (handle_lanx z s remote l).0
  unfolding handle_lanx
  handle_lanx_frame s remote [] = refl
  handle_lanx_frame s remote (b0 ∷ []) = refl
  handle_lanx_frame s remote (b0 ∷ b1 ∷ rest) =
      ground
        (arith, handle_track_power_frame s remote true, handle_track_power_frame s remote false)

  set_description_frame : (s : Server) (l : Bytes) → OnlyDevices s (handle_set_description z s l).0
  unfolding handle_set_description
  set_description_frame s (b0 ∷ b1 ∷ rest) = ground arith
  set_description_frame s _ = refl

  maintenance_frame : (s : Server) (l : Bytes) → OnlyDevices s (handle_maintenance z s l)
  unfolding handle_maintenance
  maintenance_frame s l = ground arith

  booster_frame : (s : Server) (l : Bytes) → OnlyDevices s (handle_booster_set_track_power z s l).0
  unfolding handle_booster_set_track_power
  booster_frame s (b0 ∷ b1 ∷ power ∷ rest) = ground arith
  booster_frame s _ = refl

  pub handle_can_frame : (s : Server) (msg : Message) → OnlyDevices s (handle_can z s msg).0
  unfolding handle_can
  handle_can_frame s msg = ground (
    arith,
    set_description_frame s msg.payload,
    maintenance_frame s msg.payload,
    booster_frame s msg.payload,
  )

-- ===== src/Sim/Delivery.antt =====
-- What a broadcast of the simulator writes and counts, and how track power commands settle
-- (apps/z21-sim/internal/server/broadcast.go and xpressnet.go).
use elp.Prelude.{
  ℕ, ◌+◌, ◌≡◌, refl, ap, ◌∙◌, Bool, true, false, Option, some, List, [], ◌∷◌, ◌++◌, arith,
  if◌then◌else◌, Bool-cases, inl, inr, length,
}
use mathlib.Core.List.{append_assoc, append-nil}
use elp.Prelude.Eq.{nat_comparable}
use elp.Sim.Wire.{Bytes}
use elp.Sim.Platform.{Platform, Message, Endpoint}
use elp.Sim.Server.{Server, Datagram, send_udp}
use elp.Sim.Broadcast.{
  subscriber_addrs, without_except, send_all, broadcast_many, set_track_power, track_power_bc_reply,
  central_state, x_status_reply, append_lanx_xor,
}
use elp.Sim.Xpressnet.{
  handle_lanx, handle_track_power, x_header_get_version, x_command_set_track_power_on,
  x_command_set_track_power_off, x_command_get_status,
}
use elp.Sim.Frames.{notify_track_power_change_frame}

module _ (z : Platform) where
  -- The datagrams with these bytes that reach the socket, one for each endpoint of the list.
  unfoldable pub delivered : Bytes → List Endpoint → List Datagram
  delivered out [] = []
  delivered out (addr ∷ rest) =
      let others = delivered out rest in
      if z.write_succeeds addr out then record { to = addr; bytes = out } ∷ others else others

  send_all-eq :
      (s : Server) (n : ℕ) (out : Bytes) (l : List Endpoint)
      → send_all z s n out l
        ≡ (record s { sent = s.sent ++ delivered out l }, n + length (delivered out l))
  unfolding send_all delivered send_udp
  send_all-eq s n out [] = simp append-nil (ground arith)
  send_all-eq s n out (addr ∷ rest) = elim (Bool-cases (z.write_succeeds addr out)) [
    | inr fails ↦ rw (fails, send_udp) (send_all-eq s n out rest)
    | inl works ↦
        rw (works, send_udp)
          (send_all-eq (record s { sent = s.sent ++ record { to = addr; bytes = out } ∷ [] })
              (n + 1) out rest
            ∙ simp append_assoc (ground arith))
  ]

  -- A broadcast of messages that marshal to `out` changes nothing of the simulator but the datagrams
  -- written: one for each recipient whose write succeeds, in the order of the recipients, and it
  -- returns their number.
  pub broadcast_writes :
      (s : Server) (m : Message) (msgs : List Message) (flag : ℕ) (except : Option Endpoint)
      (out : Bytes)
      → z.marshal_all (m ∷ msgs) ≡ some out
      → broadcast_many z s (m ∷ msgs) flag except ≡ (
        record s {
          sent = s.sent ++ delivered out (without_except except (subscriber_addrs s flag));
        },
        length (delivered out (without_except except (subscriber_addrs s flag))),
      )
  unfolding broadcast_many
  broadcast_writes s m msgs flag except out h =
      rw (h, broadcast_many)
        (send_all-eq s 0 out (without_except except (subscriber_addrs s flag)) ∙ ground arith)

-- The LAN_X command that switches the track power.
abbrev pub power_command : Bool → ℕ
power_command true = x_command_set_track_power_on
power_command false = x_command_set_track_power_off

module _ (z : Platform) where
  handle_lanx-power :
      (s : Server) (remote : Endpoint) (on : Bool) (rest : Bytes)
      → handle_lanx z s remote (x_header_get_version ∷ power_command on ∷ rest)
        ≡ handle_track_power z s remote on
  unfolding handle_lanx
  handle_lanx-power s remote true rest = refl
  handle_lanx-power s remote false rest = refl

  track_power_set :
      (s : Server) (remote : Endpoint) (on : Bool)
      → (handle_track_power z s remote on).0.track_power ≡ on
  unfolding handle_track_power set_track_power
  track_power_set s remote on =
      ground
        (arith, notify_track_power_change_frame z (record s { track_power = on }) on (some remote))

  -- The command again, once the power is as commanded.
  track_power_again :
      (s : Server) (other : Endpoint) (on : Bool)
      → s.track_power ≡ on
      → handle_track_power z s other on ≡ (s, some (track_power_bc_reply z on))
  unfolding handle_track_power set_track_power
  track_power_again s other true h = ground arith
  track_power_again s other false h = ground arith

  status_reply :
      (s : Server) (other : Endpoint) (on : Bool) (l : Bytes)
      → s.track_power ≡ on
      → handle_lanx z s other (x_header_get_version ∷ x_command_get_status ∷ l) ≡ (
        s,
        some (record {
          header = z.header_x;
          payload = append_lanx_xor (0x62 ∷ 0x22 ∷ (if on then 0x00 else 0x02) ∷ []);
        }),
      )
  unfolding handle_lanx x_status_reply central_state
  status_reply s other on l h = rw h

  -- After a track power command from any client, the track power is as commanded; the same
  -- command again, from any client, is acknowledged, changes nothing and writes nothing to the
  -- other clients; and the reply to a LAN_X status request holds 0x00 as the central state if the
  -- power is on and 0x02 if it is off.
  pub power_settles :
      (s : Server) (remote other : Endpoint) (on : Bool) (l l' : Bytes)
      → let s' = (handle_lanx z s remote (x_header_get_version ∷ power_command on ∷ l)).0 in
        (s'.track_power ≡ on)
        × (handle_lanx z s' other (x_header_get_version ∷ power_command on ∷ l')
            ≡ (s', some (track_power_bc_reply z on)))
        × (handle_lanx z s' other (x_header_get_version ∷ x_command_get_status ∷ l') ≡ (
          s',
          some (record {
            header = z.header_x;
            payload = append_lanx_xor (0x62 ∷ 0x22 ∷ (if on then 0x00 else 0x02) ∷ []);
          }),
        ))
  power_settles s remote other on l l' =
      let s' : Server = (handle_lanx z s remote (x_header_get_version ∷ power_command on ∷ l)).0 in
      let set : s'.track_power ≡ on =
        ap (λ (r : Server × Option Message). r.0.track_power) (handle_lanx-power s remote on l)
        ∙ track_power_set s remote on in
      (
        set,
        handle_lanx-power s' other on l' ∙ track_power_again s' other on set,
        status_reply s' other on l' set,
      )

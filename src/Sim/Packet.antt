-- ===== src/Sim/Packet.antt =====
-- handlePacket of apps/z21-sim/internal/server/server.go: one datagram from one endpoint. Debug
-- logs and the tracer are left out.
use elp.Prelude.{ℕ, Bool, ◌||◌, Option, none, some, List, [], ◌∷◌, ◌++◌, if◌then◌else◌}
use elp.Prelude.Eq.{◌==◌, nat_comparable}
use elp.Sim.Wire.{Bytes, put_uint32, uint32}
use elp.Sim.Platform.{Platform, Message, Endpoint}
use elp.Sim.Server.{Server, Ref, session_for, remove_client, flags_of, set_flags, write_messages}
use elp.Sim.Broadcast.{broadcast_flags_reply, system_state_reply}
use elp.Sim.Xpressnet.{handle_lanx}
use elp.Sim.Can.{Reply, handle_can}

abbrev pub default_firmware_version : ℕ
default_firmware_version = 0x00000120

-- `replies = append(replies, reply)` if there is one
abbrev pub one_reply : Option Message → List Message
one_reply none = []
one_reply (some m) = m ∷ []

abbrev pub replies_of : Reply → List Message
replies_of none = []
replies_of (some l) = l

module _ (z : Platform) where
  unfoldable pub hw_info_reply : Message
  unfolding put_uint32
  hw_info_reply = record {
    header = z.header_get_hw_info;
    payload = put_uint32 z.hw_type_z21_new ++ put_uint32 default_firmware_version;
  }

  unfoldable pub serial_reply : Server → Message
  unfolding put_uint32
  serial_reply s = record { header = z.header_get_serial_number; payload = put_uint32 s.serial }

  unfoldable pub code_reply : Message
  code_reply = record { header = z.header_get_code; payload = z.code_no_lock ∷ [] }

  -- LAN_SET_BROADCASTFLAGS: a payload of fewer than four bytes is ignored.
  unfoldable pub handle_set_flags : Server → Ref → Bytes → Server
  unfolding uint32 set_flags
  handle_set_flags s session (b0 ∷ b1 ∷ b2 ∷ b3 ∷ rest) = set_flags s session (uint32 b0 b1 b2 b3)
  handle_set_flags s session _ = s

  abbrev pub is_can : ℕ → Bool
  is_can header =
      header == z.header_can_device_get_description
      || header == z.header_can_device_set_description
      || header == z.header_can_detector
      || header == z.header_can_maintenance
      || header == z.header_can_booster_set_track_power

  -- One round of the loop of `handlePacket`: the replies that it appends.
  unfoldable pub handle_message : Server → Endpoint → Ref → Message → Server × List Message
  unfolding hw_info_reply serial_reply code_reply handle_set_flags remove_client flags_of
      broadcast_flags_reply system_state_reply
  handle_message s remote session msg =
      if msg.header == z.header_get_hw_info
      then (s, hw_info_reply ∷ [])
      else if msg.header == z.header_get_serial_number
      then (s, serial_reply s ∷ [])
      else if msg.header == z.header_get_code
      then (s, code_reply ∷ [])
      else if msg.header == z.header_logoff
      then (remove_client s remote, [])
      else if msg.header == z.header_set_broadcast_flags
      then (handle_set_flags s session msg.payload, [])
      else if msg.header == z.header_get_broadcast_flags
      then (s, broadcast_flags_reply z (flags_of s session) ∷ [])
      else if msg.header == z.header_system_state_get_data
      then (s, system_state_reply z s ∷ [])
      else if msg.header == z.header_x
      then (let (s', reply) = handle_lanx z s remote msg.payload in (s', one_reply reply))
      else if is_can msg.header
      then (let (s', reply) = handle_can z s msg in (s', replies_of reply))
      else (s, [])

  -- The loop, with the replies so far.
  unfoldable pub handle_messages :
      Server → Endpoint → Ref → List Message → List Message → Server × List Message
  handle_messages s remote session replies [] = (s, replies)
  handle_messages s remote session replies (msg ∷ rest) =
      let (s', more) = handle_message s remote session msg in
      handle_messages s' remote session (replies ++ more) rest

  unfoldable pub reply_to : Server → Endpoint → List Message → Server
  unfolding write_messages
  reply_to s remote [] = s
  reply_to s remote (m ∷ replies) = write_messages z s remote (m ∷ replies)

  unfoldable pub handle_packet : Server → Endpoint → Bytes → Server
  unfolding session_for handle_messages reply_to
  handle_packet s remote payload = elim (z.parse_all payload) [
    | none ↦ s
    | some msgs ↦
        let (s', session) = session_for s remote in
        let (s'', replies) = handle_messages s' remote session [] msgs in
        reply_to s'' remote replies
  ]

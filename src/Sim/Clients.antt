-- ===== src/Sim/Clients.antt =====
-- How a client of the simulator subscribes and logs off
-- (handlePacket of apps/z21-sim/internal/server/server.go).
use Prim.Native.Nat.{bit_and}
use elp.Prelude.{
  ℕ, ◌≡◌, ◌≢◌, refl, sym, subst, not, none, some, List, [], ◌∷◌, ◌++◌, arith, Option-cases, inl,
  inr,
}
use elp.Prelude.Eq.{
  ◌==◌, nat_comparable, string_comparable, string_eq_iff, nat_comparable, beq_refl,
}
use elp.Prelude.Assoc.{lookup, lookup-delete, lookup-insert_self}
use elp.Sim.Wire.{Bytes, uint32}
use elp.Sim.Platform.{Platform, Message, Endpoint}
use elp.Sim.Server.{
  Server, Ref, ClientSession, session_for, add_session, set_addr, remove_client, set_flags,
  flags_of,
}
use elp.Sim.Packet.{handle_set_flags, handle_message, handle_messages, reply_to, handle_packet}
use elp.Sim.Sessions.{IsWellFormed}
use elp.Sim.Subscribers.{subscribes}
use elp.Sim.Frames.{handle_lanx_frame, handle_can_frame}
use elp.Sim.Invariant.{message_cases, reply_to_frame, handled, handle_packet_cases}

-- The cases of the `switch` on the header are distinct constants, as a Go compiler demands.
pub record HeadersDistinct (z : Platform) : Type 0 where
  pub logoff_first :
      (z.header_logoff ≢ z.header_get_hw_info)
      × (z.header_logoff ≢ z.header_get_serial_number)
      × (z.header_logoff ≢ z.header_get_code)
  pub flags_first :
      (z.header_set_broadcast_flags ≢ z.header_get_hw_info)
      × (z.header_set_broadcast_flags ≢ z.header_get_serial_number)
      × (z.header_set_broadcast_flags ≢ z.header_get_code)
      × (z.header_set_broadcast_flags ≢ z.header_logoff)

abbrev IsGone : Server → Endpoint → Type 0
IsGone s remote = lookup remote s.clients ≡ none

set_flags_clients : (s : Server) (r : Ref) (n : ℕ) → (set_flags s r n).clients ≡ s.clients
unfolding set_flags
set_flags_clients s r n = ground arith

module _ (z : Platform) where
  handle_set_flags_clients :
      (s : Server) (r : Ref) (l : Bytes) → (handle_set_flags z s r l).clients ≡ s.clients
  unfolding handle_set_flags
  handle_set_flags_clients s r (b0 ∷ b1 ∷ b2 ∷ b3 ∷ rest) =
      set_flags_clients s r (uint32 b0 b1 b2 b3)
  handle_set_flags_clients s r _ = refl

  -- No message of a packet brings a client back.
  handle_message-IsGone :
      (s : Server) (remote : Endpoint) (r : Ref) (msg : Message)
      → IsGone s remote
      → IsGone (handle_message z s remote r msg).0 remote
  unfolding remove_client
  handle_message-IsGone s remote r msg g = elim (message_cases z s remote r msg) [
    | inl e ↦ rw e g
    | inr (inl e) ↦ rw e (rw lookup-delete (rw (beq_refl remote)))
    | inr (inr (inl e)) ↦ rw e (rw handle_set_flags_clients g)
    | inr (inr (inr (inl e))) ↦
        rw e (subst (λ t. IsGone t remote) (sym (handle_lanx_frame z s remote msg.payload)) g)
    | inr (inr (inr (inr e))) ↦
        rw e (subst (λ t. IsGone t remote) (sym (handle_can_frame z s msg)) g)
  ]

  handle_messages-IsGone :
      (s : Server) (remote : Endpoint) (r : Ref) (replies l : List Message)
      → IsGone s remote
      → IsGone (handle_messages z s remote r replies l).0 remote
  unfolding handle_messages
  handle_messages-IsGone s remote r replies [] g = g
  handle_messages-IsGone s remote r replies (msg ∷ rest) g =
      handle_messages-IsGone (handle_message z s remote r msg).0 remote r
        (replies ++ (handle_message z s remote r msg).1) rest
        (handle_message-IsGone s remote r msg g)

  handle_message-logoff :
      (s : Server) (remote : Endpoint) (r : Ref) (msg : Message)
      → HeadersDistinct z
      → msg.header ≡ z.header_logoff
      → IsGone (handle_message z s remote r msg).0 remote
  unfolding handle_message remove_client
  handle_message-logoff s remote r msg d h =
      ground
        (arith, d.logoff_first, lookup-delete remote remote s.clients, string_eq_iff remote remote)

  handle_messages-logoff :
      (s : Server) (remote : Endpoint) (r : Ref) (replies before : List Message) (msg : Message)
      (after : List Message)
      → HeadersDistinct z
      → msg.header ≡ z.header_logoff
      → IsGone (handle_messages z s remote r replies (before ++ msg ∷ after)).0 remote
  unfolding handle_messages
  handle_messages-logoff s remote r replies [] msg after d h =
      handle_messages-IsGone (handle_message z s remote r msg).0 remote r
        (replies ++ (handle_message z s remote r msg).1) after
        (handle_message-logoff s remote r msg d h)
  handle_messages-logoff s remote r replies (m ∷ before) msg after d h =
      handle_messages-logoff (handle_message z s remote r m).0 remote r
        (replies ++ (handle_message z s remote r m).1) before msg after d h

  -- After a packet that holds a LAN_LOGOFF, whatever messages stand before and after it, its sender
  -- is no client.
  pub logoff_final :
      (s : Server) (remote : Endpoint) (l : Bytes) (before : List Message) (msg : Message)
      (after : List Message)
      → HeadersDistinct z
      → msg.header ≡ z.header_logoff
      → z.parse_all l ≡ some (before ++ msg ∷ after)
      → lookup remote (handle_packet z s remote l).clients ≡ none
  logoff_final s remote l before msg after d h p = elim (handle_packet_cases z s remote l) [
    | inl (bad, e) ↦ absurd (ground arith)
    | inr (msgs, good, e) ↦
        let same : before ++ msg ∷ after ≡ msgs = ground arith in
        rw e (
          subst (λ t. IsGone t remote)
            (sym (reply_to_frame z (handled z s remote msgs).0 remote (handled z s remote msgs).1))
            (subst (λ l. IsGone (handled z s remote l).0 remote) same
              (handle_messages-logoff (session_for s remote).0 remote (session_for s remote).1 []
                before msg after d h)))
  ]

-- The session that a packet is handled with is its sender's, and it exists.
session_for_live :
    (s : Server) (remote : Endpoint)
    → IsWellFormed s
    → (lookup remote (session_for s remote).0.clients ≡ some (session_for s remote).1)
      × ((c : ClientSession) × (lookup (session_for s remote).1 (session_for s remote).0.sessions
            ≡ some c))
unfolding session_for add_session set_addr
session_for_live s remote w = elim (Option-cases (lookup remote s.clients)) [
  | inl newcomer ↦ (
    rw (newcomer, session_for) (lookup-insert_self remote s.next_ref s.clients),
    (
      record { addr = some remote; broadcast_flags = 0 },
      rw (newcomer, session_for) (lookup-insert_self s.next_ref _ s.sessions),
    ),
  )
  | inr (r, known) ↦ elim (Option-cases (lookup r s.sessions)) [
    | inl lost ↦ absurd (ground (arith, w.own_addr remote r known))
    | inr (c, there) ↦ (
      rw (known, session_for) (rw (there, set_addr) known),
      (
        record c { addr = some remote },
        rw (known, session_for) (rw (there, set_addr) (lookup-insert_self r _ s.sessions)),
      ),
    )
  ]
]

flags_set :
    (s : Server) (remote : Endpoint) (r : Ref) (c : ClientSession) (n flag : ℕ)
    → lookup remote s.clients ≡ some r
    → lookup r s.sessions ≡ some c
    → subscribes (set_flags s r n) flag remote ≡ not (bit_and n flag == 0)
unfolding subscribes set_flags flags_of
flags_set s remote r c n flag h k =
    ground (arith, lookup-insert_self r (record c { broadcast_flags = n }) s.sessions)

module _ (z : Platform) where
  handle_message-flags :
      (s : Server) (remote : Endpoint) (r : Ref) (b0 b1 b2 b3 : ℕ) (rest : Bytes)
      → HeadersDistinct z
      → handle_message z s remote r
          (record { header = z.header_set_broadcast_flags; payload = b0 ∷ b1 ∷ b2 ∷ b3 ∷ rest })
        ≡ (set_flags s r (uint32 b0 b1 b2 b3), [])
  unfolding handle_message handle_set_flags
  handle_message-flags s remote r b0 b1 b2 b3 rest d = ground (arith, d.flags_first)

  -- A packet that consists of one LAN_SET_BROADCASTFLAGS with at least four bytes of payload, from
  -- an endpoint that is a client or not, leaves its sender subscribed to exactly the flags that
  -- share a bit with the number in those bytes.
  pub flags_subscribe :
      (s : Server) (remote : Endpoint) (l : Bytes) (b0 b1 b2 b3 flag : ℕ) (rest : Bytes)
      → HeadersDistinct z
      → IsWellFormed s
      → z.parse_all l
        ≡ some (
            record { header = z.header_set_broadcast_flags; payload = b0 ∷ b1 ∷ b2 ∷ b3 ∷ rest }
            ∷ [])
      → subscribes (handle_packet z s remote l) flag remote
        ≡ not (bit_and (uint32 b0 b1 b2 b3) flag == 0)
  unfolding handle_packet handle_messages reply_to
  flags_subscribe s remote l b0 b1 b2 b3 flag rest d w p =
      let (client, live) = session_for_live s remote w in
      let (c, there) = live in
      rw (p, handle_packet)
        (rw
          (handle_message-flags (session_for s remote).0 remote (session_for s remote).1 b0 b1 b2 b3
            rest d)
          (flags_set (session_for s remote).0 remote (session_for s remote).1 c (uint32 b0 b1 b2 b3)
            flag client there))

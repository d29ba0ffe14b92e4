-- ===== src/Sim/Broadcast.antt =====
-- apps/z21-sim/internal/server/broadcast.go, systemstate.go and the replies of xpressnet.go that
-- are broadcast.
use Prim.Native.Nat.{bit_and, bit_xor}
use elp.Prelude.{
  ℕ, ◌+◌, ◌-◌, Bool, true, false, not, Option, none, some, List, [], ◌∷◌, ◌++◌, if◌then◌else◌,
}
use elp.Prelude.Eq.{◌==◌, nat_comparable, string_comparable}
use elp.Prelude.Assoc.{Map}
use elp.Sim.Wire.{Bytes, put_uint16, put_uint32}
use elp.Sim.Platform.{Platform, Message, Endpoint}
use elp.Sim.Server.{Server, Ref, send_udp}
use elp.Prelude.Assoc.{lookup}

abbrev pub central_state_track_voltage_off : ℕ
central_state_track_voltage_off = 0x02

abbrev pub default_main_current_ma : ℕ
default_main_current_ma = 100

unfoldable pub central_state : Server → ℕ
central_state s = if s.track_power then 0 else central_state_track_voltage_off

-- Bytes 2, 3, 13 and 14 are never written.
unfoldable pub encode_system_state : Server → Bytes
unfolding put_uint16 central_state
encode_system_state s =
    put_uint16 default_main_current_ma
    ++ (0
        ∷ 0
        ∷ (put_uint16 (default_main_current_ma - 20)
            ++ (put_uint16 42
                ++ (put_uint16 10000 ++ (put_uint16 1000 ++ central_state s ∷ 0 ∷ 0 ∷ 0x31 ∷ [])))))

-- The exclusive or of all bytes, from `x` on.
unfoldable pub xor_from : ℕ → Bytes → ℕ
xor_from x [] = x
xor_from x (b ∷ l) = xor_from (bit_xor x b) l

unfoldable pub append_lanx_xor : Bytes → Bytes
unfolding xor_from
append_lanx_xor l = l ++ xor_from 0 l ∷ []

-- The loop of `subscriberAddrs` over the clients.
unfoldable pub subscribers_among : Server → ℕ → Map Endpoint Ref → List Endpoint
subscribers_among s flag [] = []
subscribers_among s flag ((key, ref) ∷ rest) =
    let others = subscribers_among s flag rest in
    elim (lookup ref s.sessions) [
      | none ↦ others
      | some c ↦
          if not (bit_and c.broadcast_flags flag == 0)
          then elim c.addr [ none ↦ others | some addr ↦ addr ∷ others ]
          else others
    ]

unfoldable pub subscriber_addrs : Server → ℕ → List Endpoint
unfolding subscribers_among
subscriber_addrs s flag = subscribers_among s flag s.clients

-- `except != nil && addr.String() == except.String()`
unfoldable pub is_except : Option Endpoint → Endpoint → Bool
is_except none addr = false
is_except (some e) addr = addr == e

unfoldable pub without_except : Option Endpoint → List Endpoint → List Endpoint
unfolding is_except
without_except except [] = []
without_except except (addr ∷ rest) =
    let others = without_except except rest in
    if is_except except addr then others else addr ∷ others

module _ (z : Platform) where
  unfoldable pub system_state_reply : Server → Message
  unfolding encode_system_state
  system_state_reply s = record {
    header = z.header_system_state_data_changed;
    payload = encode_system_state s;
  }

  unfoldable pub broadcast_flags_reply : ℕ → Message
  unfolding put_uint32
  broadcast_flags_reply flags = record {
    header = z.header_get_broadcast_flags;
    payload = put_uint32 flags;
  }

  unfoldable pub x_status_reply : Server → Message
  unfolding append_lanx_xor central_state
  x_status_reply s = record {
    header = z.header_x;
    payload = append_lanx_xor (0x62 ∷ 0x22 ∷ central_state s ∷ []);
  }

  unfoldable pub track_power_bc_reply : Bool → Message
  unfolding append_lanx_xor
  track_power_bc_reply on = record {
    header = z.header_x;
    payload = append_lanx_xor (0x61 ∷ (if on then 0x01 else 0x00) ∷ []);
  }

  -- The loop that writes to each recipient and counts the writes that succeed.
  unfoldable pub send_all : Server → ℕ → Bytes → List Endpoint → Server × ℕ
  unfolding send_udp
  send_all s count out [] = (s, count)
  send_all s count out (addr ∷ rest) =
      let (s', written) = send_udp z s addr out in
      send_all s' (if written then count + 1 else count) out rest

  unfoldable pub broadcast_many : Server → List Message → ℕ → Option Endpoint → Server × ℕ
  unfolding subscriber_addrs without_except send_all
  broadcast_many s [] flag except = (s, 0)
  broadcast_many s (m ∷ msgs) flag except = elim (z.marshal_all (m ∷ msgs)) [
    | none ↦ (s, 0)
    | some out ↦ send_all s 0 out (without_except except (subscriber_addrs s flag))
  ]

  unfoldable pub broadcast : Server → Message → ℕ → Option Endpoint → Server × ℕ
  unfolding broadcast_many
  broadcast s msg flag except = broadcast_many s (msg ∷ []) flag except

  unfoldable pub broadcast_system_state : Server → Server × ℕ
  unfolding broadcast system_state_reply
  broadcast_system_state s = broadcast s (system_state_reply s) z.flag_system_state none

  unfoldable pub notify_track_power_change : Server → Bool → Option Endpoint → Server
  unfolding broadcast broadcast_many track_power_bc_reply x_status_reply system_state_reply
  notify_track_power_change s on except =
      let s' =
        (broadcast_many s (track_power_bc_reply on ∷ x_status_reply s ∷ []) z.flag_xpress_net
          except).0 in
      (broadcast s' (system_state_reply s') z.flag_system_state except).0

-- The result says whether the power changed.
unfoldable pub set_track_power : Server → Bool → Server × Bool
set_track_power s on =
    if s.track_power
    then (if on then (s, false) else (record s { track_power = on }, true))
    else (if on then (record s { track_power = on }, true) else (s, false))

module _ (z : Platform) where
  unfoldable pub set_track_power_and_notify : Server → Bool → Server × Bool
  unfolding set_track_power notify_track_power_change
  set_track_power_and_notify s on =
      let (s', changed) = set_track_power s on in
      if not changed then (s', false) else (notify_track_power_change z s' on none, true)

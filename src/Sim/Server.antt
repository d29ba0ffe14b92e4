-- ===== src/Sim/Server.antt =====
-- The state of apps/z21-sim/internal/server/server.go: clients, devices, track power, and the
-- datagrams written to the socket. A `*clientSession` is shared between the table of clients and
-- the packet being handled, so sessions live in a store, and the table holds references to them.
use elp.Prelude.{
  ℕ, ◌+◌, ◌*◌, ◌%◌, Bool, true, false, Option, none, some, List, [], ◌∷◌, ◌++◌, if◌then◌else◌,
  length,
}
use elp.Prelude.Eq.{nat_comparable, string_comparable}
use elp.Prelude.Assoc.{Map, lookup, insert, delete}
use elp.Sim.Wire.{Bytes}
use elp.Sim.Platform.{Platform, Message, Endpoint}
use elp.Sim.Device.{CanDevice}

pub record ClientSession : Type 0 where
  pub addr : Option Endpoint
  pub broadcast_flags : ℕ

abbrev pub Ref : Type 0
Ref = ℕ

pub record Datagram : Type 0 where
  pub to : Endpoint
  pub bytes : Bytes

pub record Server : Type 0 where
  pub serial : ℕ
  pub track_power : Bool
  pub clients : Map Endpoint Ref
  pub can_devices : Map ℕ CanDevice
  pub sessions : Map Ref ClientSession
  pub next_ref : Ref
  -- The datagrams written so far, the oldest first.
  pub sent : List Datagram

abbrev pub sim_serial_prefix : ℕ
sim_serial_prefix = 999

-- `now.Unix()` is converted to a `uint32`.
unfoldable pub make_simulator_serial_number : ℕ → ℕ
make_simulator_serial_number unix_seconds =
    let epoch_seconds = unix_seconds % 4294967296 in
    (sim_serial_prefix * 1000000 + epoch_seconds % 1000000) % 4294967296

-- What `New` sets up, once the socket is bound.
unfoldable pub new : ℕ → Server
unfolding make_simulator_serial_number
new unix_seconds = record {
  serial = make_simulator_serial_number unix_seconds;
  track_power = true;
  clients = [];
  can_devices = [];
  sessions = [];
  next_ref = 0;
  sent = [];
}

-- `c := &clientSession{addr: remote}; s.clients[key] = c`
unfoldable pub add_session : Server → Endpoint → Server
add_session s remote = record s {
  clients = insert remote s.next_ref s.clients;
  sessions = insert s.next_ref (record { addr = some remote; broadcast_flags = 0 }) s.sessions;
  next_ref = s.next_ref + 1;
}

-- `c.addr = remote` through the pointer
unfoldable pub set_addr : Server → Ref → Endpoint → Server
set_addr s ref remote = elim (lookup ref s.sessions) [
  | none ↦ s
  | some c ↦ record s { sessions = insert ref (record c { addr = some remote }) s.sessions }
]

unfoldable pub session_for : Server → Endpoint → Server × Ref
unfolding add_session set_addr
session_for s remote = elim (lookup remote s.clients) [
  | some ref ↦ (set_addr s ref remote, ref)
  | none ↦ (add_session s remote, s.next_ref)
]

unfoldable pub client_count : Server → ℕ
client_count s = length s.clients

unfoldable pub remove_client : Server → Endpoint → Server
remove_client s remote = record s { clients = delete remote s.clients }

-- `session.broadcastFlags`, read through the pointer.
unfoldable pub flags_of : Server → Ref → ℕ
flags_of s ref = elim (lookup ref s.sessions) [ none ↦ 0 | some c ↦ c.broadcast_flags ]

-- `session.broadcastFlags = flags`, through the pointer.
unfoldable pub set_flags : Server → Ref → ℕ → Server
set_flags s ref flags = elim (lookup ref s.sessions) [
  | none ↦ s
  | some c ↦ record s { sessions = insert ref (record c { broadcast_flags = flags }) s.sessions }
]

module _ (z : Platform) where
  -- The result says whether the write succeeded.
  unfoldable pub send_udp : Server → Endpoint → Bytes → Server × Bool
  send_udp s remote out =
      if z.write_succeeds remote out
      then (record s { sent = s.sent ++ record { to = remote; bytes = out } ∷ [] }, true)
      else (s, false)

  unfoldable pub write_messages : Server → Endpoint → List Message → Server
  unfolding send_udp
  write_messages s remote msgs = elim (z.marshal_all msgs) [
    | none ↦ s
    | some out ↦ (send_udp s remote out).0
  ]

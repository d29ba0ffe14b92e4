-- ===== src/Sim/Sessions.antt =====
-- The well-formedness of the sessions of the simulator (apps/z21-sim/internal/server/server.go).
use elp.Prelude.{ℕ, ◌≤◌, ◌≡◌, refl, Option, none, some, arith, Option-cases, inl, inr}
use elp.Prelude.Eq.{nat_comparable, string_comparable, string_eq_iff}
use elp.Prelude.Assoc.{
  Map, lookup, insert, lookup-insert, lookup-delete, Distinct, Distinct-insert, Distinct-delete,
}
use elp.Sim.Platform.{Endpoint}
use elp.Sim.Server.{
  Server, ClientSession, Ref, new, add_session, set_addr, session_for, remove_client, set_flags,
}

abbrev pub addr_in : Map Ref ClientSession → Ref → Option Endpoint
addr_in sessions r = elim (lookup r sessions) [ none ↦ none | some c ↦ c.addr ]

-- About the three fields that hold clients and sessions.
pub record AreSessions (clients : Map Endpoint Ref) (sessions : Map Ref ClientSession) (next : Ref)
    : Type 0 where
  pub distinct : Distinct clients
  pub own_addr : (e : Endpoint) (r : Ref) → lookup e clients ≡ some r → addr_in sessions r ≡ some e
  pub unused : (r : Ref) → next ≤ r → lookup r sessions ≡ none

abbrev pub IsWellFormed : Server → Type 0
IsWellFormed s = AreSessions s.clients s.sessions s.next_ref

pub new-IsWellFormed : (t : ℕ) → IsWellFormed (new t)
unfolding new lookup
new-IsWellFormed t = record {
  distinct = tt;
  own_addr = λ e r h. ground arith;
  unused = λ r h. refl;
}

add_session-IsWellFormed :
    (s : Server) (remote : Endpoint) → IsWellFormed s → IsWellFormed (add_session s remote)
unfolding add_session
add_session-IsWellFormed s remote w = record {
  distinct = Distinct-insert remote s.next_ref s.clients w.distinct;
  own_addr = λ e r h. ground (
    arith,
    lookup-insert remote e s.next_ref s.clients,
    lookup-insert s.next_ref r (record { addr = some remote; broadcast_flags = 0 }) s.sessions,
    w.own_addr e r,
    w.unused s.next_ref,
    string_eq_iff remote e,
  );
  unused = λ r h. ground (
    arith,
    w.unused r,
    lookup-insert s.next_ref r (record { addr = some remote; broadcast_flags = 0 }) s.sessions,
  );
}

-- A session written back with the address that it has.
write_back :
    (s : Server) (r : Ref) (c d : ClientSession)
    → IsWellFormed s
    → lookup r s.sessions ≡ some c
    → d.addr ≡ c.addr
    → AreSessions s.clients (insert r d s.sessions) s.next_ref
write_back s r c d w h same = record {
  distinct = w.distinct;
  own_addr = λ e r' h'. ground (arith, lookup-insert r r' d s.sessions, w.own_addr e r');
  unused = λ r' h'. ground (arith, lookup-insert r r' d s.sessions, w.unused r');
}

set_addr-IsWellFormed :
    (s : Server) (remote : Endpoint) (r : Ref)
    → IsWellFormed s
    → lookup remote s.clients ≡ some r
    → IsWellFormed (set_addr s r remote)
unfolding set_addr
set_addr-IsWellFormed s remote r w h = elim (Option-cases (lookup r s.sessions)) [
  | inl lost ↦ rw (lost, set_addr) w
  | inr (c, there) ↦
      rw (there, set_addr)
        (write_back s r c (record c { addr = some remote }) w there
          (ground (arith, w.own_addr remote r)))
]

pub session_for-IsWellFormed :
    (s : Server) (remote : Endpoint) → IsWellFormed s → IsWellFormed (session_for s remote).0
unfolding session_for
session_for-IsWellFormed s remote w = elim (Option-cases (lookup remote s.clients)) [
  | inl newcomer ↦ rw (newcomer, session_for) (add_session-IsWellFormed s remote w)
  | inr (r, known) ↦ rw (known, session_for) (set_addr-IsWellFormed s remote r w known)
]

pub remove_client-IsWellFormed :
    (s : Server) (remote : Endpoint) → IsWellFormed s → IsWellFormed (remove_client s remote)
unfolding remove_client
remove_client-IsWellFormed s remote w = record {
  distinct = Distinct-delete remote s.clients w.distinct;
  own_addr = λ e r h. ground (arith, lookup-delete remote e s.clients, w.own_addr e r);
  unused = w.unused;
}

pub set_flags-IsWellFormed :
    (s : Server) (r : Ref) (flags : ℕ) → IsWellFormed s → IsWellFormed (set_flags s r flags)
unfolding set_flags
set_flags-IsWellFormed s r flags w = elim (Option-cases (lookup r s.sessions)) [
  | inl lost ↦ rw (lost, set_flags) w
  | inr (c, there) ↦
      rw (there, set_flags) (write_back s r c (record c { broadcast_flags = flags }) w there refl)
]

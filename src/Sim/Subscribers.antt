-- ===== src/Sim/Subscribers.antt =====
-- Who gets a broadcast of the simulator (apps/z21-sim/internal/server/broadcast.go).
use Prim.Native.Nat.{bit_and}
use mathlib.Core.List.{Memᴰ}
use elp.Prelude.{
  ℕ, ◌+◌, ◌≡◌, refl, ap, ◌∙◌, Bool, false, not, ◌&&◌, Option, none, some, List, [], ◌∷◌, ◌++◌,
  if◌then◌else◌, Bool-cases, inl, inr, arith,
}
use elp.Prelude.Eq.{◌==◌, nat_comparable, string_comparable, option_comparable, string_eq_iff}
use elp.Sim.Wire.{Bytes}
use elp.Sim.Delivery.{delivered, broadcast_writes}
use elp.Prelude.Assoc.{Map, lookup, Distinct}
use elp.Sim.Platform.{Platform, Message, Endpoint}
use elp.Sim.Server.{Server, Ref, Datagram, flags_of}
use elp.Sim.Broadcast.{
  subscribers_among, subscriber_addrs, is_except, without_except, broadcast_many,
}
use elp.Sim.Sessions.{IsWellFormed, addr_in}

-- The client at `remote` has asked for the broadcasts of `flag`.
unfoldable pub subscribes : Server → ℕ → Endpoint → Bool
subscribes s flag remote = elim (lookup remote s.clients) [
  | none ↦ false
  | some r ↦ not (bit_and (flags_of s r) flag == 0)
]

-- The test of the loop for one entry of the table.
entry_subscribes : Server → ℕ → Map Endpoint Ref → Endpoint → Bool
entry_subscribes s flag m remote = elim (lookup remote m) [
  | none ↦ false
  | some r ↦ not (bit_and (flags_of s r) flag == 0)
]

-- Every session of the table has its client's address.
abbrev OwnAddr : Server → Map Endpoint Ref → Type 0
OwnAddr s m = (e : Endpoint) (r : Ref) → lookup e m ≡ some r → addr_in s.sessions r ≡ some e

OwnAddr-tail :
    (s : Server) (key : Endpoint) (r : Ref) (rest : Map Endpoint Ref)
    → lookup key rest ≡ none
    → OwnAddr s ((key, r) ∷ rest)
    → OwnAddr s rest
unfolding lookup
OwnAddr-tail s key r rest d own = λ e r' h. own e r' (ground (arith, string_eq_iff key e, d, h))

OwnAddr-head :
    (s : Server) (key : Endpoint) (r : Ref) (rest : Map Endpoint Ref)
    → OwnAddr s ((key, r) ∷ rest)
    → addr_in s.sessions r ≡ some key
unfolding lookup
OwnAddr-head s key r rest own = own key r (ground (arith, string_eq_iff key key))

-- How often an endpoint stands in a list.
times : Endpoint → List Endpoint → ℕ
times remote [] = 0
times remote (addr ∷ rest) =
    let others = times remote rest in if addr == remote then others + 1 else others

-- How many of the datagrams go to an endpoint.
unfoldable pub datagrams_to : Endpoint → List Datagram → ℕ
datagrams_to remote [] = 0
datagrams_to remote (d ∷ rest) =
    let others = datagrams_to remote rest in if d.to == remote then others + 1 else others

times-subscribers_among :
    (s : Server) (flag : ℕ) (m : Map Endpoint Ref) (remote : Endpoint)
    → Distinct m
    → OwnAddr s m
    → times remote (subscribers_among s flag m)
      ≡ (if entry_subscribes s flag m remote then 1 else 0)
unfolding times subscribers_among entry_subscribes lookup flags_of
times-subscribers_among s flag [] remote d own = refl
times-subscribers_among s flag ((key, r) ∷ rest) remote d own = ground (
  arith,
  string_eq_iff key remote,
  string_eq_iff remote key,
  OwnAddr-head s key r rest own,
  times-subscribers_among s flag rest remote d.1 (OwnAddr-tail s key r rest d.0 own),
)

times-without_except :
    (except : Option Endpoint) (l : List Endpoint) (remote : Endpoint)
    → times remote (without_except except l) ≡ (if except == some remote then 0 else times remote l)
unfolding times without_except is_except
times-without_except none [] remote = ground arith
times-without_except (some e) [] remote = ground arith
times-without_except none (addr ∷ rest) remote =
    ground (arith, times-without_except none rest remote)
times-without_except (some e) (addr ∷ rest) remote = ground (
  arith,
  string_eq_iff addr e,
  string_eq_iff e remote,
  string_eq_iff addr remote,
  times-without_except (some e) rest remote,
)

module _ (z : Platform) where
  datagrams_to-delivered :
      (out : Bytes) (l : List Endpoint) (remote : Endpoint)
      → datagrams_to remote (delivered z out l)
        ≡ (if z.write_succeeds remote out then times remote l else 0)
  unfolding datagrams_to delivered times
  datagrams_to-delivered out [] remote = ground arith
  datagrams_to-delivered out (addr ∷ rest) remote = elim (Bool-cases (addr == remote)) [
    | inl same ↦
        let e : addr ≡ remote = (string_eq_iff addr remote).0 same in
        rw (e, delivered)
          (ground (arith, string_eq_iff remote remote, datagrams_to-delivered out rest remote))
    | inr other ↦ ground (arith, other, datagrams_to-delivered out rest remote)
  ]

  first_or_later :
      (out : Bytes) (l : List Datagram) (d first : Datagram)
      → first.bytes ≡ out
      → (Memᴰ d l → d.bytes ≡ out)
      → Memᴰ d (first ∷ l)
      → d.bytes ≡ out
  first_or_later out l d first e later (Memᴰ.head same) = ap (λ x. x.bytes) same ∙ e
  first_or_later out l d first e later (Memᴰ.tail m) = later m

  delivered-bytes :
      (out : Bytes) (l : List Endpoint) (d : Datagram) → Memᴰ d (delivered z out l) → d.bytes ≡ out
  unfolding delivered
  delivered-bytes out [] d m = elim m [ ]
  delivered-bytes out (addr ∷ rest) d m = elim (Bool-cases (z.write_succeeds addr out)) [
    | inr fails ↦ delivered-bytes out rest d (rw (fails, delivered) at m)
    | inl works ↦
        first_or_later out (delivered z out rest) d (record { to = addr; bytes = out }) refl
          (λ later. delivered-bytes out rest d later) (rw (works, delivered) at m)
  ]

  -- On a simulator with well-formed sessions, a broadcast of messages that marshal to `out` writes
  -- datagrams that hold `out` and changes nothing else: one to each client that has asked for
  -- `flag`, is not the excepted one, and to which the write succeeds, and none to any other
  -- endpoint.
  pub recipients_exact :
      (s : Server) (m : Message) (msgs : List Message) (flag : ℕ) (except : Option Endpoint)
      (out : Bytes)
      → IsWellFormed s
      → z.marshal_all (m ∷ msgs) ≡ some out
      → (written : List Datagram) × ((broadcast_many z s (m ∷ msgs) flag except).0
          ≡ record s { sent = s.sent ++ written })
        × ((d : Datagram) → Memᴰ d written → d.bytes ≡ out)
        × ((remote : Endpoint)
            → datagrams_to remote written ≡ (
                if subscribes s flag remote
                  && not (except == some remote)
                  && z.write_succeeds remote out
                then 1
                else 0))
  unfolding subscriber_addrs subscribes entry_subscribes
  recipients_exact s m msgs flag except out w marshals =
      let l = without_except except (subscriber_addrs s flag) in
      (
        delivered z out l,
        ap (λ r. r.0) (broadcast_writes z s m msgs flag except out marshals),
        λ d member. delivered-bytes out l d member,
        λ remote. ground (
          arith,
          datagrams_to-delivered out l remote,
          times-without_except except (subscriber_addrs s flag) remote,
          times-subscribers_among s flag s.clients remote w.distinct w.own_addr,
        ),
      )

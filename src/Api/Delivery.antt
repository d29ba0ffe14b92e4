-- ===== src/Api/Delivery.antt =====
-- Laws of the stream hub of apps/api/internal/api/stream.go.
use elp.Prelude.{
  ◌≡◌, refl, String, none, some, List, [], ◌∷◌, if◌then◌else◌, arith, Option-cases, inl, inr,
}
use elp.Prelude.Eq.{◌==◌, nat_comparable, string_comparable}
use elp.Prelude.Assoc.{
  Map, lookup, insert, delete, lookup-insert, lookup-delete, Distinct, Distinct-insert,
  Distinct-delete,
}
use elp.Api.Stream.{
  Ref, Channel, StreamHub, subs_of, subscribe, without_subs, cancel, offer, send, send_all, publish,
  receive, is_subscribed,
}

-- What the users of a hub do: they subscribe, call the function that they got, publish, and receive
-- from a channel.
pub data HubCall (E : Type 0) : Type 0 where
  subscribes : String → HubCall E
  cancels : String → Ref → HubCall E
  publishes : String → E → HubCall E
  receives : Ref → HubCall E

module _ {E : Type 0} where
  -- No channel stands twice among the subscribers of a namespace.
  abbrev pub IsSound : StreamHub E → Type 0
  IsSound h = (namespace : String) → Distinct (subs_of h namespace)

  lookup-send :
      (event : E) (channels : Map Ref (Channel E)) (ch other : Ref)
      → lookup other (send event channels ch) ≡ (
          if ch == other
          then elim (lookup other channels) [ none ↦ none | some c ↦ some (offer event c) ]
          else lookup other channels)
  unfolding send
  lookup-send event channels ch other = elim (Option-cases (lookup ch channels)) [
    | inl gone ↦ ground (arith, gone, nat_comparable.equal_iff ch other)
    | inr (c, there) ↦ ground (
      arith,
      there,
      nat_comparable.equal_iff ch other,
      lookup-insert ch other (offer event c) channels,
    )
  ]

  lookup-send_all :
      (event : E) (channels : Map Ref (Channel E)) (subs : Map Ref (Unit {0})) (ch : Ref)
      → Distinct subs
      → lookup ch (send_all event channels subs) ≡ elim (lookup ch subs) [
        | none ↦ lookup ch channels
        | some u ↦ elim (lookup ch channels) [ none ↦ none | some c ↦ some (offer event c) ]
      ]
  unfolding send_all lookup
  lookup-send_all event channels [] ch d = refl
  lookup-send_all event channels ((first, u) ∷ rest) ch (fresh, d) =
      let later = lookup-send_all event (send event channels first) rest ch d in
      let sent = lookup-send event channels first ch in
      ground (arith, later, sent, fresh, nat_comparable.equal_iff first ch)

  IsSound-subscribe :
      (h : StreamHub E) (namespace : String) → IsSound h → IsSound (subscribe h namespace).0
  unfolding subscribe subs_of
  IsSound-subscribe h namespace sound other = ground (
    arith,
    sound other,
    string_comparable.equal_iff namespace other,
    lookup-insert namespace other (insert h.next_ref tt (subs_of h namespace)) h.subscribers,
    Distinct-insert h.next_ref tt (subs_of h namespace) (sound namespace),
  )

  without_subs-Distinct :
      (h : StreamHub E) (namespace other : String) (subs : Map Ref (Unit {0}))
      → Distinct subs
      → IsSound h
      → Distinct
          (subs_of (record h { subscribers = without_subs h.subscribers namespace subs }) other)
  unfolding without_subs subs_of
  without_subs-Distinct h namespace other [] d sound =
      ground (arith, sound other, lookup-delete namespace other h.subscribers)
  without_subs-Distinct h namespace other (s ∷ subs) d sound =
      ground (arith, d, sound other, lookup-insert namespace other (s ∷ subs) h.subscribers)

  subs_of-eq :
      (h : StreamHub E) (namespace : String) (subs : Map Ref (Unit {0}))
      → lookup namespace h.subscribers ≡ some subs
      → subs ≡ subs_of h namespace
  unfolding subs_of
  subs_of-eq h namespace subs present = rw (present, subs_of) refl

  IsSound-cancel :
      (h : StreamHub E) (namespace : String) (ch : Ref)
      → IsSound h
      → IsSound (cancel h namespace ch)
  unfolding cancel subs_of
  IsSound-cancel h namespace ch sound other = elim (Option-cases (lookup namespace h.subscribers)) [
    | inl absent ↦ rw (absent, cancel) (sound other)
    | inr (subs, present) ↦
        let distinct : Distinct subs = rw (subs_of-eq h namespace subs present) (sound namespace) in
        rw (present, cancel)
          (without_subs-Distinct h namespace other (delete ch subs)
            (Distinct-delete ch subs distinct) sound)
  ]

  unfoldable pub call : StreamHub E → HubCall E → StreamHub E
  call h (subscribes namespace) = (subscribe h namespace).0
  call h (cancels namespace ch) = cancel h namespace ch
  call h (publishes namespace event) = publish h namespace event
  call h (receives ch) = (receive h ch).0

  unfoldable pub calls : StreamHub E → List (HubCall E) → StreamHub E
  unfolding call
  calls h [] = h
  calls h (c ∷ rest) = calls (call h c) rest

  pub IsSound-call : (h : StreamHub E) (c : HubCall E) → IsSound h → IsSound (call h c)
  unfolding call publish receive subs_of
  IsSound-call h (subscribes namespace) sound = IsSound-subscribe h namespace sound
  IsSound-call h (cancels namespace ch) sound = IsSound-cancel h namespace ch sound
  IsSound-call h (publishes namespace event) sound = sound
  IsSound-call h (receives ch) sound = sound

  pub IsSound-calls : (l : List (HubCall E)) (h : StreamHub E) → IsSound h → IsSound (calls h l)
  unfolding calls
  IsSound-calls [] h sound = sound
  IsSound-calls (c ∷ l) h sound = IsSound-calls l (call h c) (IsSound-call h c sound)

  pub IsSound-empty : (h : StreamHub E) → h.subscribers ≡ [] → IsSound h
  unfolding subs_of lookup
  IsSound-empty h none_yet namespace = rw (none_yet, subs_of, lookup) tt

  pub lookup-publish :
      (h : StreamHub E) (namespace : String) (event : E) (ch : Ref)
      → IsSound h
      → lookup ch (publish h namespace event).channels ≡ (
          if is_subscribed h namespace ch
          then elim (lookup ch h.channels) [ none ↦ none | some c ↦ some (offer event c) ]
          else lookup ch h.channels)
  unfolding publish is_subscribed
  lookup-publish h namespace event ch sound =
      let sent = lookup-send_all event h.channels (subs_of h namespace) ch (sound namespace) in
      ground (arith, sent)

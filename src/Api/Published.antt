-- ===== src/Api/Published.antt =====
-- Who gets an event that the stream hub of apps/api/internal/api/stream.go publishes.
use elp.Prelude.{
  ◌≡◌, refl, ◌∙◌, String, Bool, true, false, Option, none, some, List, [], ◌∷◌, ◌++◌, if◌then◌else◌,
  arith, Option-cases, Bool-cases, inl, inr, length, ltb,
}
use elp.Prelude.Eq.{◌==◌, nat_comparable, string_comparable}
use elp.Prelude.Assoc.{Map, lookup, insert, lookup-insert}
use elp.Api.Stream.{
  Ref, Channel, StreamHub, new_stream_hub, subs_of, subscribe, close, cancel, offer, publish,
  take_oldest, receive, is_subscribed,
}
use elp.Api.Delivery.{
  HubCall, subscribes, cancels, publishes, receives, IsSound, call, calls, IsSound-call,
  IsSound-calls, IsSound-empty, lookup-publish,
}
use elp.Api.Followers.{follows, is_subscribed-subscribe, is_subscribed-cancel, is_subscribed-calls}

module _ {E : Type 0} where
  -- A channel that is subscribed exists.
  abbrev HasChannels : StreamHub E → Type 0
  HasChannels h =
      (namespace : String) (ch : Ref)
      → is_subscribed h namespace ch ≡ true
      → (c : Channel E) × (lookup ch h.channels ≡ some c)

  HasChannels-subscribe :
      (h : StreamHub E) (other : String) → HasChannels h → HasChannels (subscribe h other).0
  unfolding subscribe
  HasChannels-subscribe h other has namespace ch s = elim (Bool-cases (h.next_ref == ch)) [
    | inl new_one ↦ (
      record { buffer = []; closed = false },
      ground (
        arith,
        new_one,
        lookup-insert h.next_ref ch (record { buffer = []; closed = false }) h.channels,
      ),
    )
    | inr other_one ↦
        let before : is_subscribed h namespace ch ≡ true =
          ground (arith, is_subscribed-subscribe h other namespace ch, s, other_one) in
        let (c, there) = has namespace ch before in
        (
          c,
          ground (
            arith,
            other_one,
            there,
            lookup-insert h.next_ref ch (record { buffer = []; closed = false }) h.channels,
          ),
        )
  ]

  -- Closing a channel does not remove it.
  lookup-close :
      (channels : Map Ref (Channel E)) (gone ch : Ref) (c : Channel E)
      → lookup ch channels ≡ some c
      → (d : Channel E) × (lookup ch (close channels gone) ≡ some d)
  unfolding close
  lookup-close channels gone ch c there = elim (Option-cases (lookup gone channels)) [
    | inl absent ↦ (c, rw (absent, close) there)
    | inr (d, present) ↦ elim (Bool-cases (gone == ch)) [
      | inl same ↦ (
        record d { closed = true },
        ground (arith, present, same, lookup-insert gone ch (record d { closed = true }) channels),
      )
      | inr other ↦ (
        c,
        ground (
          arith,
          present,
          other,
          there,
          lookup-insert gone ch (record d { closed = true }) channels,
        ),
      )
    ]
  ]

  HasChannels-cancel :
      (h : StreamHub E) (other : String) (gone : Ref)
      → HasChannels h
      → HasChannels (cancel h other gone)
  unfolding cancel
  HasChannels-cancel h other gone has namespace ch s =
      let before : is_subscribed h namespace ch ≡ true =
        ground (arith, is_subscribed-cancel h other namespace gone ch, s) in
      let (c, there) = has namespace ch before in lookup-close h.channels gone ch c there

  HasChannels-publish :
      (h : StreamHub E) (other : String) (event : E)
      → IsSound h
      → HasChannels h
      → HasChannels (publish h other event)
  HasChannels-publish h other event sound has namespace ch s =
      let before : is_subscribed h namespace ch ≡ true =
        unfold publish is_subscribed subs_of in s in
      let (c, there) = has namespace ch before in
      let after = lookup-publish h other event ch sound in
      elim (Bool-cases (is_subscribed h other ch)) [
        | inl sent ↦ (offer event c, ground (arith, after, sent, there))
        | inr kept ↦ (c, ground (arith, after, kept, there))
      ]

  lookup-shortened :
      (channels : Map Ref (Channel E)) (read ch : Ref) (c : Channel E) (buffer : List E) (k : Bool)
      → lookup ch channels ≡ some c
      → (e : Channel E) × (lookup ch
            (elim buffer as (λ x. Map Ref (Channel E) × Option E) [
              | [] ↦ (channels, none)
              | event ∷ rest ↦
                  (insert read (record { buffer = rest; closed = k }) channels, some event)
            ]).0
          ≡ some e)
  lookup-shortened channels read ch c [] k there = (c, there)
  lookup-shortened channels read ch c (event ∷ rest) k there = elim (Bool-cases (read == ch)) [
    | inl same ↦ (
      record { buffer = rest; closed = k },
      ground (arith, same, lookup-insert read ch (record { buffer = rest; closed = k }) channels),
    )
    | inr other ↦ (
      c,
      ground (
        arith,
        other,
        there,
        lookup-insert read ch (record { buffer = rest; closed = k }) channels,
      ),
    )
  ]

  lookup-take_oldest :
      (channels : Map Ref (Channel E)) (read ch : Ref) (c : Channel E)
      → lookup ch channels ≡ some c
      → (d : Channel E) × (lookup ch (take_oldest channels read).0 ≡ some d)
  unfolding take_oldest
  lookup-take_oldest channels read ch c there = elim (Option-cases (lookup read channels)) [
    | inl absent ↦ (c, rw (absent, take_oldest) there)
    | inr (d, present) ↦
        rw (present, take_oldest) (lookup-shortened channels read ch c d.buffer d.closed there)
  ]

  HasChannels-receive :
      (h : StreamHub E) (read : Ref) → HasChannels h → HasChannels (receive h read).0
  HasChannels-receive h read has namespace ch s =
      let before : is_subscribed h namespace ch ≡ true =
        unfold receive is_subscribed subs_of in s in
      let (c, there) = has namespace ch before in
      unfold receive in lookup-take_oldest h.channels read ch c there

  HasChannels-call :
      (h : StreamHub E) (c : HubCall E) → IsSound h → HasChannels h → HasChannels (call h c)
  unfolding call
  HasChannels-call h (subscribes other) sound has namespace ch s =
      HasChannels-subscribe h other has namespace ch s
  HasChannels-call h (cancels other gone) sound has namespace ch s =
      HasChannels-cancel h other gone has namespace ch s
  HasChannels-call h (publishes other event) sound has namespace ch s =
      HasChannels-publish h other event sound has namespace ch s
  HasChannels-call h (receives read) sound has namespace ch s =
      HasChannels-receive h read has namespace ch s

  HasChannels-calls :
      (l : List (HubCall E)) (h : StreamHub E) → IsSound h → HasChannels h → HasChannels (calls h l)
  unfolding calls
  HasChannels-calls [] h sound has = has
  HasChannels-calls (c ∷ l) h sound has =
      HasChannels-calls l (call h c) (IsSound-call h c sound) (HasChannels-call h c sound has)

  new_follows :
      (l : List (HubCall E)) (namespace : String) (ch : Ref)
      → follows namespace ch
          (new_stream_hub {E = E}).next_ref
          (is_subscribed (new_stream_hub {E = E}) namespace ch)
          l
        ≡ follows namespace ch 0 false l
  unfolding new_stream_hub is_subscribed subs_of lookup
  new_follows l namespace ch = refl

  HasChannels-new : HasChannels new_stream_hub
  unfolding is_subscribed new_stream_hub subs_of lookup
  HasChannels-new namespace ch s = ground (arith, s)

  -- After any calls on a new hub, among them reads of the channels, `Publish` puts the event once at the end of each channel that
  -- follows the namespace, unless it holds 32 events, and leaves every other channel as it was. A
  -- channel follows a namespace from the call to subscribe that got it until its cancel is called.
  pub publish_exact :
      (l : List (HubCall E)) (namespace : String) (event : E) (ch : Ref)
      → let h = calls new_stream_hub l in
        (follows namespace ch 0 false l ≡ true
          → (c : Channel E) × (lookup ch h.channels ≡ some c)
            × (lookup ch (publish h namespace event).channels
                ≡ some (
                    if ltb (length c.buffer) 32
                    then record c { buffer = c.buffer ++ event ∷ [] }
                    else c)))
        × (follows namespace ch 0 false l ≡ false
            → lookup ch (publish h namespace event).channels ≡ lookup ch h.channels)
  unfolding offer new_stream_hub
  publish_exact l namespace event ch =
      let h : StreamHub E = calls new_stream_hub l in
      let empty : IsSound (new_stream_hub {E = E}) = IsSound-empty (new_stream_hub {E = E}) refl in
      let after = lookup-publish h namespace event ch (IsSound-calls l new_stream_hub empty) in
      let follow : is_subscribed h namespace ch ≡ follows namespace ch 0 false l =
        is_subscribed-calls l new_stream_hub namespace ch ∙ new_follows l namespace ch in
      (
        λ yes.
            let (c, there) =
              HasChannels-calls l new_stream_hub empty HasChannels-new namespace ch
                (follow ∙ yes) in
            (c, there, ground (arith, after, follow, yes, there)),
        λ no. ground (arith, after, follow, no),
      )

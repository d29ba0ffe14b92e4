-- ===== src/Api/Stream.antt =====
-- The stream hub of apps/api/internal/api/stream.go: device events for the subscribers of a
-- namespace. A channel is a reference into a store, since the hub and its reader share it; each
-- method holds the hub's mutex and is one step.
use elp.Prelude.{
  ℕ, ◌+◌, String, Bool, true, false, Option, none, some, List, [], ◌∷◌, ◌++◌, length, ltb,
  if◌then◌else◌,
}
use elp.Prelude.Eq.{nat_comparable, string_comparable}
use elp.Prelude.Assoc.{Map, lookup, insert, delete}

abbrev pub Ref : Type 0
Ref = ℕ

-- `make(chan DeviceStreamEvent, 32)`
abbrev pub stream_capacity : ℕ
stream_capacity = 32

-- What was sent on a channel and not read yet, the oldest first.
pub record Channel (E : Type 0) : Type 0 where
  pub buffer : List E
  pub closed : Bool

pub record StreamHub (E : Type 0) : Type 0 where
  pub subscribers : Map String (Map Ref (Unit {0}))
  pub channels : Map Ref (Channel E)
  pub next_ref : Ref

-- `if len(subs) == 0 { delete(h.subscribers, namespace) }`
unfoldable pub without_subs :
    Map String (Map Ref (Unit {0})) → String → Map Ref (Unit {0}) → Map String (Map Ref (Unit {0}))
without_subs all namespace [] = delete namespace all
without_subs all namespace (s ∷ subs) = insert namespace (s ∷ subs) all

module _ {E : Type 0} where
  unfoldable pub new_stream_hub : StreamHub E
  new_stream_hub = record { subscribers = []; channels = []; next_ref = 0 }

  -- `h.subscribers[namespace]`, where nil is the empty map.
  unfoldable pub subs_of : StreamHub E → String → Map Ref (Unit {0})
  subs_of h namespace = elim (lookup namespace h.subscribers) [ none ↦ [] | some subs ↦ subs ]

  unfoldable pub subscribe : StreamHub E → String → StreamHub E × Ref
  unfolding subs_of
  subscribe h namespace =
      let ch = h.next_ref in
      (
        record {
          subscribers = insert namespace (insert ch tt (subs_of h namespace)) h.subscribers;
          channels = insert ch (record { buffer = []; closed = false }) h.channels;
          next_ref = ch + 1;
        },
        ch,
      )

  unfoldable pub close : Map Ref (Channel E) → Ref → Map Ref (Channel E)
  close channels ch = elim (lookup ch channels) [
    | none ↦ channels
    | some c ↦ insert ch (record c { closed = true }) channels
  ]

  -- The function that `Subscribe` returns with the channel.
  unfoldable pub cancel : StreamHub E → String → Ref → StreamHub E
  unfolding without_subs close
  cancel h namespace ch = record h {
    subscribers = elim (lookup namespace h.subscribers) [
      | none ↦ h.subscribers
      | some subs ↦ without_subs h.subscribers namespace (delete ch subs)
    ];
    channels = close h.channels ch;
  }

  -- The `select`: a full channel drops the event.
  unfoldable pub offer : E → Channel E → Channel E
  offer event c =
      if ltb (length c.buffer) stream_capacity
      then record c { buffer = c.buffer ++ event ∷ [] }
      else c

  unfoldable pub send : E → Map Ref (Channel E) → Ref → Map Ref (Channel E)
  unfolding offer
  send event channels ch = elim (lookup ch channels) [
    | none ↦ channels
    | some c ↦ insert ch (offer event c) channels
  ]

  -- The loop of `Publish`.
  unfoldable pub send_all : E → Map Ref (Channel E) → Map Ref (Unit {0}) → Map Ref (Channel E)
  unfolding send
  send_all event channels [] = channels
  send_all event channels ((ch, u) ∷ rest) = send_all event (send event channels ch) rest

  unfoldable pub publish : StreamHub E → String → E → StreamHub E
  unfolding subs_of send_all
  publish h namespace event = record h {
    channels = send_all event h.channels (subs_of h namespace);
  }

  -- The oldest event of a channel, if there is one, and the channels without it.
  unfoldable pub take_oldest : Map Ref (Channel E) → Ref → Map Ref (Channel E) × Option E
  take_oldest channels ch = elim (lookup ch channels) [
    | none ↦ (channels, none)
    | some c ↦ elim c.buffer [
      | [] ↦ (channels, none)
      | event ∷ rest ↦ (insert ch (record c { buffer = rest }) channels, some event)
    ]
  ]

  -- `event, ok := <-events`, in the loop of `streamDevices`.
  unfoldable pub receive : StreamHub E → Ref → StreamHub E × Option E
  unfolding take_oldest
  receive h ch =
      (record h { channels = (take_oldest h.channels ch).0 }, (take_oldest h.channels ch).1)

  -- Whether a channel is subscribed to a namespace.
  unfoldable pub is_subscribed : StreamHub E → String → Ref → Bool
  unfolding subs_of
  is_subscribed h namespace ch = elim (lookup ch (subs_of h namespace)) [
    | none ↦ false
    | some u ↦ true
  ]

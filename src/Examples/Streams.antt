-- ===== src/Examples/Streams.antt =====
-- A hub with two subscribers of one namespace and one of another
-- (apps/api/internal/api/stream.go).
use elp.Prelude.{◌≡◌, true, false, ◌++◌, length, ltb, String, List, [], ◌∷◌, some, if◌then◌else◌}
use elp.Prelude.Eq.{nat_comparable}
use elp.Prelude.Assoc.{lookup}
use elp.Api.Stream.{Channel, StreamHub, new_stream_hub, publish}
use elp.Api.Delivery.{HubCall, subscribes, cancels, publishes, receives, calls}
use elp.Api.Followers.{follows}
use elp.Api.Published.{publish_exact}

abbrev hub_calls : List (HubCall String)
hub_calls =
    subscribes "elp"
    ∷ subscribes "elp"
    ∷ subscribes "lab"
    ∷ publishes "elp" "added"
    ∷ receives 1
    ∷ cancels "elp" 0
    ∷ []

abbrev hub : StreamHub String
hub = calls new_stream_hub hub_calls

publish_exact_example :
    (follows "elp" 1 0 false hub_calls ≡ true
      → (c : Channel String) × (lookup 1 hub.channels ≡ some c)
        × (lookup 1 (publish hub "elp" "deleted").channels
            ≡ some (
                if ltb (length c.buffer) 32
                then record c { buffer = c.buffer ++ "deleted" ∷ [] }
                else c)))
    × (follows "elp" 1 0 false hub_calls ≡ false
        → lookup 1 (publish hub "elp" "deleted").channels ≡ lookup 1 hub.channels)
publish_exact_example = publish_exact hub_calls "elp" "deleted" 1

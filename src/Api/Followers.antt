-- ===== src/Api/Followers.antt =====
-- Which channels follow a namespace of the stream hub of apps/api/internal/api/stream.go, told from
-- the calls that were made of the hub.
use elp.Prelude.{
  ◌+◌, ◌≡◌, refl, ap, ◌∙◌, String, Bool, true, false, not, ◌&&◌, ◌||◌, none, some, List, [], ◌∷◌,
  if◌then◌else◌, arith, Option-cases, Bool-cases, inl, inr,
}
use elp.Prelude.Eq.{◌==◌, nat_comparable, string_comparable}
use elp.Prelude.Assoc.{Map, lookup, insert, delete, lookup-insert, lookup-delete}
use elp.Api.Stream.{
  Ref, Channel, StreamHub, subs_of, subscribe, without_subs, close, cancel, publish, receive,
  is_subscribed,
}
use elp.Api.Delivery.{HubCall, subscribes, cancels, publishes, receives, call, calls}

lookup-empty : (ch : Ref) → lookup {V = Unit {0}} ch [] ≡ none
unfolding lookup
lookup-empty ch = refl

module _ {E : Type 0} where
  -- Whether the channel `ch` follows the namespace after the calls: the call to subscribe that got it
  -- was for this namespace, and its cancel was not called since. Each call to subscribe gets the
  -- next number, from `next` on.
  unfoldable pub follows : String → Ref → Ref → Bool → List (HubCall E) → Bool
  follows namespace ch next already [] = already
  follows namespace ch next already (subscribes other ∷ l) =
      follows namespace ch (next + 1) (other == namespace && next == ch || already) l
  follows namespace ch next already (cancels other gone ∷ l) =
      follows namespace ch next (already && not (other == namespace && gone == ch)) l
  follows namespace ch next already (publishes other event ∷ l) =
      follows namespace ch next already l
  follows namespace ch next already (receives read ∷ l) = follows namespace ch next already l

  pub is_subscribed-subscribe :
      (h : StreamHub E) (other namespace : String) (ch : Ref)
      → is_subscribed (subscribe h other).0 namespace ch
        ≡ (other == namespace && h.next_ref == ch || is_subscribed h namespace ch)
  unfolding is_subscribed subscribe subs_of
  is_subscribed-subscribe h other namespace ch = ground (
    arith,
    string_comparable.equal_iff other namespace,
    lookup-insert other namespace (insert h.next_ref tt (subs_of h other)) h.subscribers,
    lookup-insert h.next_ref ch tt (subs_of h other),
  )

  -- The subscribers of a namespace once those of one are set, or dropped as there are none.
  lookup-without_subs :
      (h : StreamHub E) (other namespace : String) (ch : Ref) (subs : Map Ref (Unit {0}))
      → is_subscribed
          (record h { subscribers = without_subs h.subscribers other subs })
          namespace
          ch
        ≡ (if other == namespace
            then elim (lookup ch subs) [ none ↦ false | some u ↦ true ]
            else is_subscribed h namespace ch)
  unfolding is_subscribed subs_of without_subs lookup
  lookup-without_subs h other namespace ch [] =
      ground (arith, lookup-delete other namespace h.subscribers)
  lookup-without_subs h other namespace ch (s ∷ subs) =
      ground (arith, lookup-insert other namespace (s ∷ subs) h.subscribers)

  subs_of-lookup :
      (h : StreamHub E) (namespace : String)
      → subs_of h namespace
        ≡ (elim (lookup namespace h.subscribers) [ none ↦ [] | some subs ↦ subs ])
  unfolding subs_of
  subs_of-lookup h namespace = refl

  is_subscribed-subs :
      (h : StreamHub E) (namespace : String) (ch : Ref) (subs : Map Ref (Unit {0}))
      → subs_of h namespace ≡ subs
      → is_subscribed h namespace ch ≡ (elim (lookup ch subs) [ none ↦ false | some u ↦ true ])
  unfolding is_subscribed
  is_subscribed-subs h namespace ch subs e = rw (e, is_subscribed) refl

  -- The test, for the subscribers that a namespace has.
  is_subscribed-among :
      (h : StreamHub E) (other namespace : String) (ch : Ref)
      → (other == namespace) ≡ true
      → is_subscribed h namespace ch ≡ (elim (lookup other h.subscribers) [
        | none ↦ false
        | some subs ↦ elim (lookup ch subs) [ none ↦ false | some u ↦ true ]
      ])
  is_subscribed-among h other namespace ch same =
      let e : other ≡ namespace = (string_comparable.equal_iff other namespace).0 same in
      rw e (elim (Option-cases (lookup namespace h.subscribers)) [
        | inl absent ↦ rw absent (
            is_subscribed-subs h namespace ch [] (rw absent at (subs_of-lookup h namespace))
            ∙ rw (lookup-empty ch) refl)
        | inr (subs, present) ↦
            rw present
              (is_subscribed-subs h namespace ch subs (rw present at (subs_of-lookup h namespace)))
      ])

  cancel-absent :
      (h : StreamHub E) (other : String) (gone : Ref)
      → lookup other h.subscribers ≡ none
      → cancel h other gone ≡ record h { channels = close h.channels gone }
  unfolding cancel
  cancel-absent h other gone absent = rw (absent, cancel) refl

  cancel-present :
      (h : StreamHub E) (other : String) (gone : Ref) (subs : Map Ref (Unit {0}))
      → lookup other h.subscribers ≡ some subs
      → cancel h other gone ≡ record h {
        subscribers = without_subs h.subscribers other (delete gone subs);
        channels = close h.channels gone;
      }
  unfolding cancel
  cancel-present h other gone subs present = rw (present, cancel) refl

  -- The channels do not matter.
  is_subscribed-channels :
      (h : StreamHub E) (channels : Map Ref (Channel E)) (namespace : String) (ch : Ref)
      → is_subscribed (record h { channels = channels }) namespace ch ≡ is_subscribed h namespace ch
  unfolding is_subscribed subs_of
  is_subscribed-channels h channels namespace ch = refl

  pub is_subscribed-cancel :
      (h : StreamHub E) (other namespace : String) (gone ch : Ref)
      → is_subscribed (cancel h other gone) namespace ch
        ≡ (is_subscribed h namespace ch && not (other == namespace && gone == ch))
  is_subscribed-cancel h other namespace gone ch =
      let among = is_subscribed-among h other namespace ch in
      elim (Option-cases (lookup other h.subscribers)) [
        | inl absent ↦
            ap (λ x. is_subscribed x namespace ch) (cancel-absent h other gone absent)
            ∙ is_subscribed-channels h (close h.channels gone) namespace ch
            ∙ elim (Bool-cases (other == namespace)) [
              | inl same ↦ let at = rw absent at (among same) in ground (arith, same, at)
              | inr different ↦ ground (arith, different)
            ]
        | inr (subs, present) ↦
            let left = lookup-without_subs h other namespace ch (delete gone subs) in
            let gone_at = lookup-delete gone ch subs in
            ap (λ x. is_subscribed x namespace ch) (cancel-present h other gone subs present)
            ∙ is_subscribed-channels
                (record h { subscribers = without_subs h.subscribers other (delete gone subs) })
                (close h.channels gone) namespace ch
            ∙ left
            ∙ elim (Bool-cases (other == namespace)) [
              | inl same ↦ let at = rw present at (among same) in ground (arith, same, at, gone_at)
              | inr different ↦ ground (arith, different)
            ]
      ]

  pub is_subscribed-calls :
      (l : List (HubCall E)) (h : StreamHub E) (namespace : String) (ch : Ref)
      → is_subscribed (calls h l) namespace ch
        ≡ follows namespace ch h.next_ref (is_subscribed h namespace ch) l
  unfolding calls call follows subscribe cancel publish receive is_subscribed
  is_subscribed-calls [] h namespace ch = refl
  is_subscribed-calls (subscribes other ∷ l) h namespace ch =
      is_subscribed-calls l (subscribe h other).0 namespace ch
      ∙ ap (λ b. follows namespace ch (h.next_ref + 1) b l)
          (is_subscribed-subscribe h other namespace ch)
  is_subscribed-calls (cancels other gone ∷ l) h namespace ch =
      is_subscribed-calls l (cancel h other gone) namespace ch
      ∙ ap (λ b. follows namespace ch h.next_ref b l)
          (is_subscribed-cancel h other namespace gone ch)
  is_subscribed-calls (publishes other event ∷ l) h namespace ch =
      is_subscribed-calls l (publish h other event) namespace ch
  is_subscribed-calls (receives read ∷ l) h namespace ch =
      is_subscribed-calls l (receive h read).0 namespace ch

-- ===== src/Api/Merged.antt =====
-- The detectors of a simulation after a request (apps/api/internal/api/simulations.go).
use Prim.Native.Nat.{ℕ, ◌≤◌, ◌<◌}
use elp.Prelude.{
  ◌≡◌, ◌↔◌, ◌∙◌, refl, sym, ap, subst, Bool, true, false, Option, none, some, some_inj, List, [],
  ◌∷◌, ◌++◌, All, if◌then◌else◌, leb, Bool-cases, Option-cases, inl, inr, arith,
}
use elp.Prelude.Eq.{◌==◌, nat_comparable, beq_refl, mem}
use elp.Prelude.Assoc.{Map, Distinct, lookup, insert, lookup-insert, Distinct-insert}
use elp.Simulation.Resource.{SimulatedDetector}
use elp.Api.Simulations.{put_all, net_ids, insert_id, sort_ids, detectors_at, merge_can_detectors}

-- The last detector of the list with this number.
unfoldable pub last_with : ℕ → List SimulatedDetector → Option SimulatedDetector
last_with id [] = none
last_with id (d ∷ rest) = elim (last_with id rest) [
  | some later ↦ some later
  | none ↦ if d.net_id == id then some d else none
]

-- Each number once, from the lowest to the highest.
abbrev pub Ascending : List ℕ → Type 0
Ascending [] = Unit
Ascending (a ∷ l) = All (λ b. a < b) l × Ascending l

unfoldable pub ids : List SimulatedDetector → List ℕ
ids [] = []
ids (d ∷ rest) = d.net_id ∷ ids rest

abbrev or_before : Option SimulatedDetector → Option SimulatedDetector → Option SimulatedDetector
or_before (some d) o = some d
or_before none o = o

or_before_if :
    (later : Option SimulatedDetector) (here : Bool) (d : SimulatedDetector)
    (o : Option SimulatedDetector)
    → or_before later (if here then some d else o)
      ≡ or_before (elim later [ some e ↦ some e | none ↦ if here then some d else none ]) o
or_before_if (some e) here d o = refl
or_before_if none true d o = refl
or_before_if none false d o = refl

or_before-none : (o : Option SimulatedDetector) → or_before o none ≡ o
or_before-none none = refl
or_before-none (some d) = refl

lookup-put_all :
    (id : ℕ) (l : List SimulatedDetector) (m : Map ℕ SimulatedDetector)
    → lookup id (put_all l m) ≡ or_before (last_with id l) (lookup id m)
unfolding put_all last_with
lookup-put_all id [] m = refl
lookup-put_all id (d ∷ rest) m =
    lookup-put_all id rest (insert d.net_id d m)
    ∙ ap (or_before (last_with id rest)) (lookup-insert d.net_id id d m)
    ∙ or_before_if (last_with id rest) (d.net_id == id) d (lookup id m)

Distinct-put_all :
    (l : List SimulatedDetector) (m : Map ℕ SimulatedDetector) → Distinct m → Distinct (put_all l m)
unfolding put_all
Distinct-put_all [] m h = h
Distinct-put_all (d ∷ rest) m h =
    Distinct-put_all rest (insert d.net_id d m) (Distinct-insert d.net_id d m h)

-- Whether a key is there.
mem-net_ids :
    (id : ℕ) (m : Map ℕ SimulatedDetector) → (mem id (net_ids m) ≡ false) ↔ (lookup id m ≡ none)
unfolding net_ids mem lookup
mem-net_ids id [] = (λ _. refl, λ _. refl)
mem-net_ids id ((k, d) ∷ m) = ground (arith, mem-net_ids id m, nat_comparable.equal_iff k id)

mem-insert_id : (x a : ℕ) (l : List ℕ) → mem x (insert_id a l) ≡ mem x (a ∷ l)
unfolding insert_id mem
mem-insert_id x a [] = refl
mem-insert_id x a (b ∷ l) = ground (arith, mem-insert_id x a l)

mem-sort_ids : (x : ℕ) (l : List ℕ) → mem x (sort_ids l) ≡ mem x l
unfolding sort_ids mem
mem-sort_ids x [] = refl
mem-sort_ids x (a ∷ l) = mem-insert_id x a (sort_ids l) ∙ ground (arith, mem-sort_ids x l)

or_before_later :
    (b a o : Option SimulatedDetector)
    → elim (or_before b a) as (λ x. Option SimulatedDetector) [ some e ↦ some e | none ↦ o ]
      ≡ or_before b (elim a as (λ x. Option SimulatedDetector) [ some e ↦ some e | none ↦ o ])
or_before_later (some e) a o = refl
or_before_later none a o = refl

last_with-append :
    (id : ℕ) (a b : List SimulatedDetector)
    → last_with id (a ++ b) ≡ or_before (last_with id b) (last_with id a)
unfolding last_with
last_with-append id [] b = elim (last_with id b) as (λ o. o ≡ or_before o none) [
  | none ↦ refl
  | some d ↦ refl
]
last_with-append id (d ∷ a) b =
    ap
      (λ o. elim o as (λ x. Option SimulatedDetector) [
        | some e ↦ some e
        | none ↦ if d.net_id == id then some d else none
      ])
      (last_with-append id a b)
    ∙ or_before_later (last_with id b) (last_with id a) (if d.net_id == id then some d else none)

found_last :
    (id : ℕ) (existing incoming : List SimulatedDetector)
    → lookup id (put_all incoming (put_all existing [])) ≡ last_with id (existing ++ incoming)
unfolding lookup
found_last id existing incoming =
    lookup-put_all id incoming (put_all existing [])
    ∙ ap (or_before (last_with id incoming))
        (lookup-put_all id existing [] ∙ or_before-none (last_with id existing))
    ∙ sym (last_with-append id existing incoming)

-- The detector that the list gives for a number has that number.
last_with-net_id :
    (id : ℕ) (l : List SimulatedDetector) (d : SimulatedDetector)
    → last_with id l ≡ some d
    → d.net_id ≡ id
unfolding last_with
last_with-net_id id [] d h = ground (arith, h)
last_with-net_id id (c ∷ l) d h = elim (Option-cases (last_with id l)) [
  | inr (e, later) ↦ last_with-net_id id l d (later ∙ rw (later, last_with) at h)
  | inl alone ↦ elim (Bool-cases (c.net_id == id)) [
    | inl here ↦
        ap (λ x. x.net_id) (some_inj (sym (rw (here, last_with) at (rw (alone, last_with) at h))))
        ∙ (nat_comparable.equal_iff c.net_id id).0 here
    | inr other ↦ ground (arith, rw (other, last_with) at (rw (alone, last_with) at h))
  ]
]

All-insert_id :
    (low a : ℕ) (l : List ℕ) → low < a → All (λ b. low < b) l → All (λ b. low < b) (insert_id a l)
unfolding insert_id
All-insert_id low a [] h all = (h, tt)
All-insert_id low a (b ∷ l) h (first, rest) = elim (Bool-cases (leb a b)) [
  | inl le ↦ rw le (h, (first, rest))
  | inr gt ↦ rw gt (first, All-insert_id low a l h rest)
]

above-All : (a b : ℕ) (l : List ℕ) → a ≤ b → All (λ x. b < x) l → All (λ x. a < x) l
above-All a b [] h all = tt
above-All a b (c ∷ l) h (first, rest) = (omega (arith, h, first), above-All a b l h rest)

Ascending-insert_id :
    (a : ℕ) (l : List ℕ) → mem a l ≡ false → Ascending l → Ascending (insert_id a l)
unfolding insert_id mem
Ascending-insert_id a [] new asc = (tt, tt)
Ascending-insert_id a (b ∷ l) new (above, asc) = elim (Bool-cases (leb a b)) [
  | inl le ↦
      rw le ((ground (arith, new, le), above-All a b l (ground (arith, le)) above), (above, asc))
  | inr gt ↦ rw gt (
    All-insert_id b a l (ground (arith, gt)) above,
    Ascending-insert_id a l (ground (arith, new)) asc,
  )
]

Ascending-sort_ids : (m : Map ℕ SimulatedDetector) → Distinct m → Ascending (sort_ids (net_ids m))
unfolding sort_ids net_ids
Ascending-sort_ids [] h = tt
Ascending-sort_ids ((k, d) ∷ m) (once, rest) =
    Ascending-insert_id k (sort_ids (net_ids m))
      (mem-sort_ids k (net_ids m) ∙ (mem-net_ids k m).1 once) (Ascending-sort_ids m rest)

-- Every number of the list has an entry, which carries it.
abbrev Covers : Map ℕ SimulatedDetector → List ℕ → Type 0
Covers m l =
    (x : ℕ) → mem x l ≡ true → (d : SimulatedDetector) × (lookup x m ≡ some d) × (d.net_id ≡ x)

Covers-tail : (m : Map ℕ SimulatedDetector) (a : ℕ) (l : List ℕ) → Covers m (a ∷ l) → Covers m l
unfolding mem
Covers-tail m a l covers x h = covers x (ground (arith, h))

Covers-head :
    (m : Map ℕ SimulatedDetector) (a : ℕ) (l : List ℕ)
    → Covers m (a ∷ l)
    → (d : SimulatedDetector) × (lookup a m ≡ some d) × (d.net_id ≡ a)
unfolding mem
Covers-head m a l covers = covers a (rw (beq_refl a) refl)

ids-detectors_at :
    (m : Map ℕ SimulatedDetector) (l : List ℕ) → Covers m l → ids (detectors_at m l) ≡ l
unfolding ids detectors_at
ids-detectors_at m [] covers = refl
ids-detectors_at m (a ∷ l) covers =
    let (d, there, own) = Covers-head m a l covers in
    let rest = ids-detectors_at m l (Covers-tail m a l covers) in
    rw (there, detectors_at) (rw own (ap (λ x. a ∷ x) rest))

last_with-detectors_at :
    (id : ℕ) (m : Map ℕ SimulatedDetector) (l : List ℕ)
    → Covers m l
    → last_with id (detectors_at m l) ≡ (if mem id l then lookup id m else none)
unfolding last_with detectors_at mem
last_with-detectors_at id m [] covers = refl
last_with-detectors_at id m (a ∷ l) covers =
    let (d, there, own) = Covers-head m a l covers in
    let rest = last_with-detectors_at id m l (Covers-tail m a l covers) in
    elim (Bool-cases (id == a)) [
      | inl same ↦
          let here : lookup id m ≡ some d =
            ap (λ n. lookup n m) ((nat_comparable.equal_iff id a).0 same) ∙ there in
          ground (arith, rest, own, same, here, there, nat_comparable.equal_iff id a)
      | inr other ↦ ground (arith, rest, own, other, there, nat_comparable.equal_iff d.net_id id)
    ]

module _ (existing incoming : List SimulatedDetector) where
  -- The map of the loops, and its keys in order.
  abbrev merged : Map ℕ SimulatedDetector
  merged = put_all incoming (put_all existing [])

  merged-Covers : Covers merged (sort_ids (net_ids merged))
  merged-Covers x h = elim (Option-cases (lookup x merged)) [
    | inr (d, there) ↦ (
      d,
      there,
      last_with-net_id x (existing ++ incoming) d (sym (found_last x existing incoming) ∙ there),
    )
    | inl missing ↦
        let absent : mem x (sort_ids (net_ids merged)) ≡ false =
          mem-sort_ids x (net_ids merged) ∙ (mem-net_ids x merged).1 missing in
        ground (arith, h, absent)
  ]

  sorted_last :
      (id : ℕ)
      → (if mem id (sort_ids (net_ids merged)) then lookup id merged else none)
        ≡ last_with id (existing ++ incoming)
  sorted_last id = elim (Bool-cases (mem id (sort_ids (net_ids merged)))) [
    | inl there ↦ rw there (found_last id existing incoming)
    | inr absent ↦
        let missing = (mem-net_ids id merged).0 (sym (mem-sort_ids id (net_ids merged)) ∙ absent) in
        rw absent (sym missing ∙ found_last id existing incoming)
  ]

  -- A merge of detectors lists each number once, from the lowest to the highest, and gives for a number
  -- the last detector with it in the request, or else the last one that was there before.
  pub merge_exact :
      Ascending (ids (merge_can_detectors existing incoming))
      × ((id : ℕ)
          → last_with id (merge_can_detectors existing incoming)
            ≡ last_with id (existing ++ incoming))
  unfolding merge_can_detectors
  merge_exact =
      let covers = merged-Covers in
      (
        subst Ascending (sym (ids-detectors_at merged (sort_ids (net_ids merged)) covers)) (
            Ascending-sort_ids merged
              (Distinct-put_all incoming (put_all existing []) (Distinct-put_all existing [] tt))),
        λ id. last_with-detectors_at id merged (sort_ids (net_ids merged)) covers ∙ sorted_last id,
      )

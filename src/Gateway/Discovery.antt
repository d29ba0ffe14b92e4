-- ===== src/Gateway/Discovery.antt =====
-- What the discovery of CAN modules finds (apps/z21-gateway/internal/detector/manager.go).
use Prim.Native.Nat.{ℕ}
use mathlib.Core.List.{Memᴰ}
use elp.Prelude.{
  ◌⊎◌, ◌≡◌, ◌≢◌, ◌∙◌, refl, sym, ap, subst, Bool, true, false, not, ◌&&◌, Option, none, some,
  some_inj, List, [], ◌∷◌, inl, inr, if◌then◌else◌, Bool-cases, Option-cases, arith,
}
use elp.Prelude.Result.{ok, err, Result-cases, ok_inj}
use elp.Prelude.Eq.{◌==◌, nat_comparable}
use elp.Prelude.Assoc.{Map, lookup, insert, lookup-insert}
use elp.Gateway.Detected.{Report, DiscoveredDetector, entry_for, with_report, add_report, entries}
use elp.Gateway.Detectors.{ManagerApi, collect_reports, summarize_discovery}

-- The first address that is not zero.
unfoldable pub first_nonzero : List ℕ → ℕ
first_nonzero [] = 0
first_nonzero (a ∷ rest) = let later = first_nonzero rest in if a == 0 then later else a

abbrev Found : Type 0
Found = Map ℕ DiscoveredDetector

abbrev address : Option DiscoveredDetector → Option ℕ
address none = none
address (some d) = some d.addr

abbrev addr_of : ℕ → Found → Option ℕ
addr_of id m = address (lookup id m)

-- What the addresses of further reports make of an address.
abbrev keep : Option ℕ → ℕ → ℕ
keep none a = a
keep (some b) a = if b == 0 then a else b

abbrev absorb : Option ℕ → List ℕ → Option ℕ
absorb o [] = o
absorb o (a ∷ rest) = absorb (some (keep o a)) rest

absorb-some :
    (b : ℕ) (l : List ℕ) → absorb (some b) l ≡ some (if b == 0 then first_nonzero l else b)
unfolding first_nonzero
absorb-some b [] = ground arith
absorb-some b (a ∷ rest) = ground (arith, absorb-some (if b == 0 then a else b) rest)

absorb-none : (a : ℕ) (l : List ℕ) → absorb none (a ∷ l) ≡ some (first_nonzero (a ∷ l))
unfolding first_nonzero
absorb-none a l = absorb-some a l ∙ ground arith

with_report-addr :
    (report : Report) (m : Found)
    → (with_report report (entry_for report.net_id m)).addr
      ≡ keep (addr_of report.net_id m) report.addr
unfolding with_report entry_for
with_report-addr report m = elim (Option-cases (lookup report.net_id m)) [
  | inl missing ↦ rw (missing, entry_for) refl
  | inr (d, there) ↦ rw (there, entry_for) refl
]

absorb-if :
    (here : Bool) (o : Option ℕ) (a : ℕ) (l : List ℕ)
    → absorb (if here then some (keep o a) else o) l ≡ absorb o (if here then a ∷ l else l)
absorb-if true o a l = refl
absorb-if false o a l = refl

addr_of-add_report :
    (id : ℕ) (report : Report) (m : Found)
    → addr_of id (add_report report m)
      ≡ (if report.net_id == id then some (keep (addr_of id m) report.addr) else addr_of id m)
unfolding add_report
addr_of-add_report id report m =
    let entry = with_report report (entry_for report.net_id m) in
    let inserted = lookup-insert report.net_id id entry m in
    let added = with_report-addr report m in
    elim (Bool-cases (report.net_id == id)) [
      | inl same ↦
          let id_same : report.net_id ≡ id =
            ground (arith, nat_comparable.equal_iff report.net_id id, same) in
          rw same (
            ap address (rw same at inserted)
            ∙ ap some (added ∙ ap (λ n. keep (addr_of n m) report.addr) id_same))
      | inr other ↦ rw other (ap address (rw other at inserted))
    ]

-- Each entry stands under its own number, and under no other.
abbrev Keyed : Found → Type 0
Keyed [] = Unit
Keyed ((k, d) ∷ m) = (d.net_id ≡ k) × (lookup k m ≡ none) × Keyed m

Keyed-insert :
    (k : ℕ) (d : DiscoveredDetector) (m : Found) → d.net_id ≡ k → Keyed m → Keyed (insert k d m)
unfolding insert lookup
Keyed-insert k d [] same keyed = (same, refl, tt)
Keyed-insert k d ((j, c) ∷ m) same (own, once, keyed) =
    ground (arith, lookup-insert k j d m, Keyed-insert k d m same keyed)

lookup-Keyed :
    (id : ℕ) (d : DiscoveredDetector) (m : Found) → Keyed m → lookup id m ≡ some d → d.net_id ≡ id
unfolding lookup
lookup-Keyed id d [] keyed h = ground (arith, h)
lookup-Keyed id d ((j, c) ∷ m) (own, once, keyed) h =
    ground (arith, lookup-Keyed id d m keyed, own, h)

lookup-entries :
    (id : ℕ) (d : DiscoveredDetector) (m : Found) → lookup id m ≡ some d → Memᴰ d (entries m)
unfolding lookup entries
lookup-entries id d [] h = ground (arith, h)
lookup-entries id d ((j, c) ∷ m) h = elim (Bool-cases (j == id)) [
  | inl here ↦ Memᴰ.head (ground (arith, here, h))
  | inr later ↦ Memᴰ.tail (lookup-entries id d m (ground (arith, later, h)))
]

entries-lookup :
    (d : DiscoveredDetector) (m : Found) → Keyed m → Memᴰ d (entries m) → lookup d.net_id m ≡ some d
unfolding lookup entries
entries-lookup d [] keyed h = elim h [ ]
entries-lookup d ((j, c) ∷ m) (own, once, keyed) (Memᴰ.head e) =
    let here : (j == d.net_id) ≡ true = ground (arith, ap (λ x. x.net_id) e, own) in
    rw (here, lookup) (ap some (sym e))
entries-lookup d ((j, c) ∷ m) (own, once, keyed) (Memᴰ.tail e) =
    ground (arith, entries-lookup d m keyed e, own, once)

entry_for-net_id :
    (report : Report) (m : Found)
    → Keyed m
    → (with_report report (entry_for report.net_id m)).net_id ≡ report.net_id
unfolding with_report entry_for
entry_for-net_id report m keyed = elim (Option-cases (lookup report.net_id m)) [
  | inl missing ↦ rw (missing, entry_for) refl
  | inr (d, there) ↦ rw (there, entry_for) (lookup-Keyed report.net_id d m keyed there)
]

Keyed-add_report : (report : Report) (m : Found) → Keyed m → Keyed (add_report report m)
unfolding add_report
Keyed-add_report report m keyed =
    Keyed-insert report.net_id (with_report report (entry_for report.net_id m)) m
      (entry_for-net_id report m keyed) keyed

module _ {S E M C : Type 0} (api : ManagerApi S E M C) where
  -- The addresses that a module reports, in their order.
  unfoldable pub addresses : ℕ → List M → List ℕ
  addresses id [] = []
  addresses id (msg ∷ msgs) =
      let rest = addresses id msgs in
      if not (api.is_can_detector msg) then rest else elim (api.parse_can_detector msg) [
        | err e ↦ rest
        | ok report ↦
            if report.net_id == id && not (report.net_id == api.poll_all)
            then report.addr ∷ rest
            else rest
      ]

  -- The first message is skipped, or its report is added.
  collect_reports_round :
      (msg : M) (msgs : List M) (m out : Found)
      → collect_reports api (msg ∷ msgs) m ≡ ok out
      → ((collect_reports api msgs m ≡ ok out)
          × ((id : ℕ) → addresses id (msg ∷ msgs) ≡ addresses id msgs))
        ⊎ ((report : Report) × (collect_reports api msgs (add_report report m) ≡ ok out)
            × ((id : ℕ)
                → addresses id (msg ∷ msgs) ≡ (
                    if report.net_id == id
                    then report.addr ∷ addresses id msgs
                    else addresses id msgs)))
  unfolding collect_reports addresses
  collect_reports_round msg msgs m out h = elim (Bool-cases (api.is_can_detector msg)) [
    | inr other ↦ inl (ground (arith, h, other), λ id. ground (arith, other))
    | inl ours ↦ elim (Result-cases (api.parse_can_detector msg)) [
      | inr (e, bad) ↦ ground (arith, ours, bad, h)
      | inl (report, parsed) ↦ elim (Bool-cases (report.net_id == api.poll_all)) [
        | inl poll ↦
            inl (ground (arith, h, ours, parsed, poll), λ id. ground (arith, ours, parsed, poll))
        | inr single ↦ inr (
          report,
          ground (arith, h, ours, parsed, single),
          λ id. ground (arith, ours, parsed, single),
        )
      ]
    ]
  ]

  collect_reports-addr :
      (id : ℕ) (msgs : List M) (m out : Found)
      → collect_reports api msgs m ≡ ok out
      → addr_of id out ≡ absorb (addr_of id m) (addresses id msgs)
  unfolding collect_reports addresses
  collect_reports-addr id [] m out h = ap (addr_of id) (ok_inj (sym h))
  collect_reports-addr id (msg ∷ msgs) m out h = elim (collect_reports_round msg msgs m out h) [
    | inl (went, same) ↦ rw (same id) (collect_reports-addr id msgs m out went)
    | inr (report, went, more) ↦ rw (more id) (
        rw (collect_reports-addr id msgs (add_report report m) out went) (
          rw (addr_of-add_report id report m)
            (absorb-if (report.net_id == id) (addr_of id m) report.addr (addresses id msgs))))
  ]

  collect_reports-Keyed :
      (msgs : List M) (m out : Found) → Keyed m → collect_reports api msgs m ≡ ok out → Keyed out
  unfolding collect_reports
  collect_reports-Keyed [] m out keyed h = subst Keyed (ok_inj h) keyed
  collect_reports-Keyed (msg ∷ msgs) m out keyed h = elim (collect_reports_round msg msgs m out h) [
    | inl (went, same) ↦ collect_reports-Keyed msgs m out keyed went
    | inr (report, went, more) ↦
        collect_reports-Keyed msgs (add_report report m) out (Keyed-add_report report m keyed) went
  ]

  found_address :
      (id : ℕ) (msgs : List M) (out : Found)
      → collect_reports api msgs [] ≡ ok out
      → addr_of id out ≡ absorb none (addresses id msgs)
  unfolding lookup
  found_address id msgs out h = collect_reports-addr id msgs [] out h

  found_reported :
      (id : ℕ) (l : List ℕ) (d : DiscoveredDetector)
      → address (some d) ≡ absorb none l
      → (l ≢ []) × (d.addr ≡ first_nonzero l)
  found_reported id [] d h = ground (arith, h)
  found_reported id (a ∷ l) d h = (λ e. ground (arith, e), some_inj (h ∙ absorb-none a l))

  reported_found :
      (l : List ℕ) (o : Option DiscoveredDetector)
      → address o ≡ absorb none l
      → l ≢ []
      → (d : DiscoveredDetector) × (o ≡ some d)
  reported_found [] o h some_report = elim (some_report refl) [ ]
  reported_found (a ∷ l) none h some_report = ground (arith, h, absorb-none a l)
  reported_found (a ∷ l) (some d) h some_report = (d, refl)

  -- A discovery that reads every message finds each module that reports and no other, with one entry
  -- for a module: the first address of its reports that is not zero, or zero if there is none. A
  -- report of the module number that stands for all modules counts for nothing.
  pub discovery_exact :
      (msgs : List M) (out : List DiscoveredDetector)
      → summarize_discovery api msgs ≡ ok out
      → ((d : DiscoveredDetector)
          → Memᴰ d out
          → (addresses d.net_id msgs ≢ []) × (d.addr ≡ first_nonzero (addresses d.net_id msgs)))
        × ((id : ℕ)
            → addresses id msgs ≢ []
            → (d : DiscoveredDetector) × Memᴰ d out × (d.net_id ≡ id))
        × ((d e : DiscoveredDetector) → Memᴰ d out → Memᴰ e out → d.net_id ≡ e.net_id → d ≡ e)
  unfolding summarize_discovery
  discovery_exact msgs out h = elim (Result-cases (collect_reports api msgs [])) [
    | inr (e, bad) ↦ ground (arith, h, bad)
    | inl (m, went) ↦
        let same : entries m ≡ out = ok_inj (rw (went, summarize_discovery) at h) in
        let keyed = collect_reports-Keyed msgs [] m tt went in
        let at : (d : DiscoveredDetector) → Memᴰ d out → lookup d.net_id m ≡ some d =
          λ d there. entries-lookup d m keyed (subst (λ l. Memᴰ d l) (sym same) there) in
        (
          λ d there.
              found_reported d.net_id (addresses d.net_id msgs) d
                (ap address (sym (at d there)) ∙ found_address d.net_id msgs m went),
          λ id some_report.
              let (d, found) =
                reported_found (addresses id msgs) (lookup id m) (found_address id msgs m went)
                  some_report in
              (
                d,
                subst (λ l. Memᴰ d l) same (lookup-entries id d m found),
                lookup-Keyed id d m keyed found,
              ),
          λ d e there its same_id.
              some_inj (sym (at d there) ∙ ap (λ n. lookup n m) same_id ∙ at e its),
        )
  ]

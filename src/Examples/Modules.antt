-- ===== src/Examples/Modules.antt =====
-- A module that answers with the address 10, and the gateway that manages it
-- (apps/z21-gateway/internal/detector/manager.go).
use Prim.Native.Nat.{ℕ}
use mathlib.Core.List.{Memᴰ}
use elp.Prelude.{
  ◌≡◌, ◌≢◌, ◌∙◌, sym, ap, subst, if◌then◌else◌, refl, String, true, none, List, [], ◌∷◌,
}
use elp.Prelude.Result.{ok, err}
use elp.Prelude.Eq.{◌==◌, string_comparable, nat_comparable}
use elp.Prelude.Assoc.{lookup, insert}
use elp.Prelude.Int.{pos}
use elp.Operator.Detector.{CanDetector, applied}
use elp.Operator.Phases.{with_phase}
use elp.Operator.Reconcile.{reconcile}
use elp.Operator.Allocate.{pool_status_from_stats}
use elp.Gateway.Detected.{
  Manager, Report, DiscoveredDetector, entries, entry_for, with_report, add_report, after_apply,
}
use elp.Gateway.Detectors.{
  ManagerApi, summarize_discovery, collect_reports, reconcile_one, apply_address,
  poll_module_address, reported_address,
}
use elp.Gateway.Discovery.{addresses, first_nonzero, discovery_exact}
use elp.Gateway.Applied.{StoresPatch, IsHonest, IsLeftAlone, applied-IsHonest}
use elp.Gateway.Flap.{StoresUpdate, phases_flap}
use elp.Examples.Cluster.{single, single-found, not_found, is_not_found, one_address}
use elp.Examples.Devices.{device}
use elp.Examples.Controllers.{
  settled_yard, one_detector, yard_result, yard_address_pool, texts, yard-Reads, yard_has,
  yard_gave,
}

abbrev manager : Manager
manager = record {
  namespace = "elp";
  device_name = "z21";
  z21_host = "z21";
  maint_port = pos 34472;
}

abbrev answer : Report
answer = record { net_id = 7; addr = 10; port = 0 }

-- A message is a report, and no connection carries state.
abbrev gateway : ManagerApi CanDetector String Report (Unit {0})
gateway = record {
  is_not_found = is_not_found;
  detectors = single (λ d. d.name);
  is_can_detector = λ m. true;
  parse_can_detector = λ m. ok m;
  poll_all = 53248;
  get_all_can_detectors = answer;
  get_can_detector = λ n. answer;
  set_module_address = λ n a save. ok (record { net_id = n; addr = a; port = 0 });
  reports_from_messages = λ msgs. ok msgs;
  request_collect = λ m s. (ok (answer ∷ []), s);
  maintenance_port = pos 34472;
  dial = λ addr s. (ok tt, s);
  send = λ c m s. (ok tt, s);
  close = λ c s. s;
  fmt = texts;
  net = one_address;
  failure = λ s. s;
  wrap = λ s e. e;
  bad_address = λ s. s;
}

-- Two reports of the module 7, the first without an address, and one of all modules.
abbrev messages : List Report
messages =
    record { net_id = 7; addr = 0; port = 1 }
    ∷ record { net_id = 53248; addr = 3; port = 1 }
    ∷ answer
    ∷ []

abbrev discovered : List DiscoveredDetector
discovered = record { net_id = 7; addr = 10; ports = (1, tt) ∷ (0, tt) ∷ [] } ∷ []

summary : summarize_discovery gateway messages ≡ ok discovered
unfolding summarize_discovery collect_reports add_report entry_for with_report entries lookup insert
summary = refl

discovery_exact_example :
    ((d : DiscoveredDetector)
      → Memᴰ d discovered
      → (addresses gateway d.net_id messages ≢ [])
        × (d.addr ≡ first_nonzero (addresses gateway d.net_id messages)))
    × ((id : ℕ)
        → addresses gateway id messages ≢ []
        → (d : DiscoveredDetector) × Memᴰ d discovered × (d.net_id ≡ id))
    × ((d e : DiscoveredDetector)
        → Memᴰ d discovered
        → Memᴰ e discovered
        → d.net_id ≡ e.net_id
        → d ≡ e)
discovery_exact_example = discovery_exact gateway messages discovered summary

gateway-StoresPatch : StoresPatch gateway.detectors
gateway-StoresPatch s t namespace name base new stored got same wrote =
    let (named, there) = single-found (λ d. d.name) namespace name s base got in
    let after : new ≡ t = ap (λ r. r.1) wrote in
    let its_name : s.name ≡ t.name =
      ap (λ d. d.name) there ∙ sym (ap (λ d. d.name) same) ∙ ap (λ d. d.name) after in
    subst (λ n. (if name == n then ok t else err not_found) ≡ ok new) its_name
      (rw named (ap ok (sym after)))

-- The detector that wants the address 10 and was last seen without one.
abbrev unapplied : CanDetector
unapplied = record settled_yard {
  status = record (settled_yard.status) { observed_address = none };
}

unapplied-IsLeftAlone : IsLeftAlone gateway unapplied
unapplied-IsLeftAlone = record {
  dials = λ addr s. refl;
  sends = λ c m s. refl;
  collects = λ m s. refl;
  closes = λ c s. refl;
}

applied_now :
    reconcile_one gateway manager unapplied unapplied ≡ (ok tt, after_apply texts 10 10 unapplied)
unfolding reconcile_one apply_address poll_module_address reported_address after_apply
applied_now = refl

applied-IsHonest_example : IsHonest gateway unapplied 10 (after_apply texts 10 10 unapplied)
applied-IsHonest_example =
    applied-IsHonest gateway gateway-StoresPatch manager unapplied 10 unapplied
      (after_apply texts 10 10 unapplied) unapplied-IsLeftAlone refl refl applied_now

operator-StoresUpdate : StoresUpdate one_detector.detectors
operator-StoresUpdate = gateway-StoresPatch

phases_flap_example :
    (reconcile_one gateway manager settled_yard settled_yard
      ≡ (ok tt, with_phase settled_yard applied))
    × (reconcile one_detector texts "elp" "yard" (with_phase settled_yard applied)
        ≡ (ok tt, settled_yard))
    × (one_detector.detectors.get "elp" "yard" settled_yard ≡ ok settled_yard)
unfolding pool_status_from_stats
phases_flap_example =
    phases_flap gateway one_detector manager texts operator-StoresUpdate settled_yard
      (with_phase settled_yard applied) settled_yard device yard_address_pool
      (with_phase settled_yard applied ∷ []) yard_result 10 settled_yard
      (with_phase settled_yard applied) settled_yard refl refl refl (yard-Reads applied)
      (yard_has applied) yard_gave refl refl

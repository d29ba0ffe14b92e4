-- ===== src/Gateway/Detectors.antt =====
-- The gateway's manager of CAN detectors (apps/z21-gateway/internal/detector/manager.go): it keeps a
-- CANDetector for each module that answers, and sets the addresses that the operator gives out. The
-- deadline of a call is left out: a call that runs into it returns an error.
use Prim.Native.String.{◌++◌}
use Prim.Native.Nat.{ℕ}
use elp.Prelude.{String, Bool, true, not, ◌&&◌, none, some, List, [], ◌∷◌, if◌then◌else◌}
use elp.Prelude.Result.{Result, ok, err}
use elp.Prelude.Action.{Action, pure, raise, reading, ◌>>=◌, ◌>>◌}
use elp.Prelude.Eq.{◌==◌, string_comparable, nat_comparable, option_comparable}
use elp.Prelude.Assoc.{Map}
use elp.Prelude.Int.{ℤ, pos, leb_ℤ}
use elp.Canpool.Messages.{Fmt}
use elp.Operator.Detector.{CanDetector, unset, applied, phase_equal}
use elp.Operator.Device.{Net}
use elp.Operator.Cluster.{Resource}
use elp.Gateway.Detected.{
  Report, Manager, DiscoveredDetector, detector_name, add_report, entries, desired_detector,
  merged_detector, with_observed, after_apply,
}

-- What the manager uses of the Z21 library and of the cluster: messages `M`, connections `C`.
pub record ManagerApi (S E M C : Type 0) : Type 0 where
  pub is_not_found : E → Bool
  pub detectors : Resource S E CanDetector
  -- Whether the header is that of LAN_CAN_DETECTOR, and the report in the data.
  pub is_can_detector : M → Bool
  pub parse_can_detector : M → Result E Report
  pub poll_all : ℕ
  pub get_all_can_detectors : M
  pub get_can_detector : ℕ → M
  pub set_module_address : ℕ → ℕ → Bool → Result E M
  pub reports_from_messages : List M → Result E (List Report)
  pub request_collect : M → Action S E (List M)
  pub maintenance_port : ℤ
  pub dial : String → Action S E C
  pub send : C → M → Action S E (Unit {0})
  pub close : C → S → S
  pub fmt : Fmt
  pub net : Net
  -- `fmt.Errorf(…)`, and `fmt.Errorf("…: %w", err)`
  pub failure : String → E
  pub wrap : String → E → E
  -- `fmt.Errorf("parse z21 address %q: %w", …)` on an address that does not split
  pub bad_address : String → E

module _ {S E M C : Type 0} (api : ManagerApi S E M C) where
  unfoldable pub new_manager : String → String → String → ℤ → Result E Manager
  new_manager namespace device_name z21_address maint_port =
      elim (api.net.split_host_port z21_address) [
        | none ↦ err (api.bad_address z21_address)
        | some (host, _) ↦ ok (record {
          namespace = namespace;
          device_name = device_name;
          z21_host = host;
          maint_port = if leb_ℤ maint_port (pos 0) then api.maintenance_port else maint_port;
        })
      ]

  unfoldable pub parse_z21_host : String → Result E String
  parse_z21_host z21_address = elim (api.net.split_host_port z21_address) [
    | none ↦ err (api.bad_address z21_address)
    | some (host, _) ↦ ok host
  ]

  -- The loop of `summarizeDiscovery`.
  unfoldable pub collect_reports :
      List M → Map ℕ DiscoveredDetector → Result E (Map ℕ DiscoveredDetector)
  unfolding add_report
  collect_reports [] by_net_id = ok by_net_id
  collect_reports (msg ∷ msgs) by_net_id =
      let skipped : Result E (Map ℕ DiscoveredDetector) = collect_reports msgs by_net_id in
      if not (api.is_can_detector msg) then skipped else elim (api.parse_can_detector msg) [
        | err e ↦ err e
        | ok report ↦
            let added : Result E (Map ℕ DiscoveredDetector) =
              collect_reports msgs (add_report report by_net_id) in
            if report.net_id == api.poll_all then skipped else added
      ]

  unfoldable pub summarize_discovery : List M → Result E (List DiscoveredDetector)
  unfolding collect_reports entries
  summarize_discovery msgs = elim (collect_reports msgs []) [
    | err e ↦ err e
    | ok by_net_id ↦ ok (entries by_net_id)
  ]

  unfoldable pub observe : DiscoveredDetector → CanDetector → Action S E (Unit {0})
  unfolding with_observed
  observe det current s =
      if current.status.observed_address == some det.addr
        && not (phase_equal current.status.phase unset)
      then (ok tt, s)
      else (do api.detectors.patch_status current (with_observed det.addr current); pure tt) s

  unfoldable pub upsert_discovered : Manager → DiscoveredDetector → Action S E (Unit {0})
  unfolding detector_name desired_detector merged_detector observe
  upsert_discovered m det s =
      elim (api.detectors.get m.namespace (detector_name api.fmt det.net_id) s) [
        | err e ↦
            if not (api.is_not_found e)
            then (err e, s)
            else (do
              current ← api.detectors.create (desired_detector m api.fmt det)
              observe det current)
                s
        | ok found ↦
            (do
              current ← api.detectors.patch found (merged_detector m det found)
              observe det current)
              s
      ]

  unfoldable pub upsert_all : Manager → List DiscoveredDetector → Action S E (Unit {0})
  unfolding upsert_discovered
  upsert_all m [] = pure tt
  upsert_all m (det ∷ rest) = do upsert_discovered m det; upsert_all m rest

  unfoldable pub process_can_detector_messages : Manager → List M → Action S E (Unit {0})
  unfolding summarize_discovery upsert_all
  process_can_detector_messages m msgs = elim (summarize_discovery msgs) [
    | err e ↦ raise e
    | ok discovered ↦ upsert_all m discovered
  ]

  -- `if err != nil { return fmt.Errorf("…: %w", err) }`
  abbrev pub wrapped : {A : Type 0} → String → Result E A × S → Result E A × S
  wrapped text (ok a, s) = (ok a, s)
  wrapped text (err e, s) = (err (api.wrap text e), s)

  unfoldable pub sync_discovery : Manager → Action S E (Unit {0})
  unfolding process_can_detector_messages
  sync_discovery m = do
    msgs ← λ s. wrapped "can discovery" (api.request_collect api.get_all_can_detectors s)
    process_can_detector_messages m msgs

  -- The address of the first report of the module.
  unfoldable pub reported_address : ℕ → List Report → Result E ℕ
  reported_address net_id [] =
      err (api.failure ("no LAN_CAN_DETECTOR reply for netID 0x" ++ api.fmt.upper_hex4 net_id))
  reported_address net_id (report ∷ reports) =
      let later : Result E ℕ = reported_address net_id reports in
      if report.net_id == net_id then ok report.addr else later

  unfoldable pub poll_module_address : ℕ → Action S E ℕ
  unfolding reported_address
  poll_module_address net_id = do
    msgs ← api.request_collect (api.get_can_detector net_id)
    reports ← reading (λ _. api.reports_from_messages msgs)
    reading (λ _. reported_address net_id reports)

  unfoldable pub mark_applied : CanDetector → Action S E (Unit {0})
  mark_applied det s =
      if phase_equal det.status.phase applied
      then (ok tt, s)
      else (do
        api.detectors.patch_status det
            (record det { status = record (det.status) { phase = applied; message = "" } })
        pure tt)
          s

  -- `defer maint.Close()`
  abbrev pub closing : {A : Type 0} → C → Result E A × S → Result E A × S
  closing maint (a, s) = (a, api.close maint s)

  -- What is done over the connection to the maintenance port.
  unfoldable pub apply_address : CanDetector → ℕ → C → Action S E (Unit {0})
  unfolding poll_module_address after_apply
  apply_address det desired maint = do
    msg ← reading (λ _. api.set_module_address det.spec.net_id desired true)
    λ s.
        wrapped
          ("set module address netID=0x"
            ++ (api.fmt.upper_hex4 det.spec.net_id ++ (" addr=" ++ api.fmt.decimal desired)))
          (api.send maint msg s)
    observed ← poll_module_address det.spec.net_id
    api.detectors.patch_status det (after_apply api.fmt observed desired det)
    pure tt

  unfoldable pub reconcile_one : Manager → CanDetector → Action S E (Unit {0})
  unfolding mark_applied apply_address
  reconcile_one m det = elim det.spec.desired_address [
    | none ↦ pure tt
    | some desired ↦ if det.status.observed_address == some desired then mark_applied det else do
      maint ← λ s.
          wrapped "dial maintenance port"
            (api.dial (api.net.join_host_port m.z21_host (api.net.format_int m.maint_port)) s)
      λ s. closing maint (apply_address det desired maint s)
  ]

  -- The loop of `ReconcileAddresses`.
  unfoldable pub reconcile_each : Manager → List CanDetector → Action S E (Unit {0})
  unfolding reconcile_one
  reconcile_each m [] = pure tt
  reconcile_each m (det ∷ rest) =
      let others : Action S E (Unit {0}) = reconcile_each m rest in
      if not (det.spec.device_ref == m.device_name) then others else do reconcile_one m det; others

  unfoldable pub reconcile_addresses : Manager → Action S E (Unit {0})
  unfolding reconcile_each
  reconcile_addresses m = do
    items ← reading (api.detectors.list_in m.namespace)
    reconcile_each m items

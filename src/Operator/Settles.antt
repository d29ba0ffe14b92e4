-- ===== src/Operator/Settles.antt =====
-- Laws of the controller of CAN detectors
-- (operators/z21-device/internal/controller/candetector_controller.go).
use elp.Prelude.{◌≡◌, ◌≢◌, refl, ap, ◌∙◌, String, false, List, Option-cases, inl, inr, arith}
use elp.Prelude.Result.{ok, Result-cases}
use elp.Prelude.Eq.{
  ◌==◌, string_comparable, string_eq_iff, nat_comparable, option_comparable, bool_comparable,
}
use elp.Canpool.Config.{Config}
use elp.Canpool.Pool.{done, new, rebuild}
use elp.Canpool.Preservation.{new-IsConsistent, rebuild-IsConsistent}
use elp.Canpool.Messages.{Fmt}
use elp.Operator.Detector.{CanDetector, CanAddressPool}
use elp.Operator.Device.{Z21Device, can_address_pool_name, can_address_pool_namespace}
use elp.Operator.Allocate.{
  AllocationResult, allocate_detector_address, failed_result, pool_config_from_cr,
  assignments_from_detectors,
}
use elp.Operator.Chosen.{choose_address_total}
use elp.Operator.Reconcile.{
  DetectorApi, reconcile, reconcile_detector, reconcile_in_pool, get_or, save, save_scan,
  allocate_and_save, list_pool_detectors,
}

-- The allocation always returns, whatever the pool's configuration and the detectors.
pub allocation_returns :
    (cfg : Config) (l : List CanDetector) (d : CanDetector)
    → (r : AllocationResult) × (allocate_detector_address cfg l d ≡ done r)
unfolding allocate_detector_address
allocation_returns cfg l d = elim (Result-cases (new cfg)) [
  | inr (e, bad) ↦ (failed_result e, rw (bad, allocate_detector_address) refl)
  | inl (p, made) ↦
      let assignments = assignments_from_detectors l in
      let q = (rebuild p assignments).0 in
      elim (Option-cases (rebuild p assignments).1) [
        | inr (e, bad) ↦ (
          failed_result e,
          rw (made, allocate_detector_address) (rw (bad, allocate_detector_address) refl),
        )
        | inl fine ↦
            let consistent = rebuild-IsConsistent p assignments (new-IsConsistent cfg p made) in
            let (r, chosen, how) = choose_address_total q d consistent in
            (r, rw (made, allocate_detector_address) (rw (fine, allocate_detector_address) chosen))
      ]
]

module _ {S E : Type 0} (api : DetectorApi S E) where
  -- What `Reconcile` reads before it writes.
  pub record Reads (s : S) (namespace name : String) (det : CanDetector) (device : Z21Device)
      (pool : CanAddressPool) (l : List CanDetector) (r : AllocationResult) : Type 0 where
    pub found : api.detectors.get namespace name s ≡ ok det
    pub named : det.spec.device_ref ≢ ""
    pub owned : api.devices.get namespace det.spec.device_ref s ≡ ok device
    pub pooled :
        api.pools.get (can_address_pool_namespace device) (can_address_pool_name device) s ≡ ok pool
    pub listed :
        list_pool_detectors api (can_address_pool_namespace device) (can_address_pool_name device) s
        ≡ ok l
    pub chosen : allocate_detector_address (pool_config_from_cr pool) l det ≡ done r

  allocate_and_save-chosen :
      (f : Fmt) (s : S) (det : CanDetector) (pool : CanAddressPool) (l : List CanDetector)
      (r : AllocationResult)
      → allocate_detector_address (pool_config_from_cr pool) l det ≡ done r
      → allocate_and_save api f det pool l s ≡ save api f pool det r s
  unfolding allocate_and_save save_scan
  allocate_and_save-chosen f s det pool l r h = ap (λ scan. save_scan api f pool det scan s) h

  reconcile_in_pool-listed :
      (f : Fmt) (s : S) (namespace name : String) (det : CanDetector) (device : Z21Device)
      (pool : CanAddressPool) (l : List CanDetector) (r : AllocationResult)
      → Reads s namespace name det device pool l r
      → reconcile_in_pool api f det device s ≡ save api f pool det r s
  unfolding reconcile_in_pool get_or
  reconcile_in_pool-listed f s namespace name det device pool l r reads =
      rw (reads.pooled, reconcile_in_pool, get_or)
        (rw reads.listed (allocate_and_save-chosen f s det pool l r reads.chosen))

  reconcile_detector-owned :
      (f : Fmt) (s : S) (namespace name : String) (det : CanDetector) (device : Z21Device)
      (pool : CanAddressPool) (l : List CanDetector) (r : AllocationResult)
      → Reads s namespace name det device pool l r
      → reconcile_detector api f namespace det s ≡ reconcile_in_pool api f det device s
  unfolding reconcile_detector get_or
  reconcile_detector-owned f s namespace name det device pool l r reads =
      let no_name : (det.spec.device_ref == "") ≡ false =
        ground (arith, reads.named, string_eq_iff det.spec.device_ref "") in
      rw (no_name, reconcile_detector) (rw (reads.owned, get_or) refl)

  pub reconcile-save :
      (f : Fmt) (s : S) (namespace name : String) (det : CanDetector) (device : Z21Device)
      (pool : CanAddressPool) (l : List CanDetector) (r : AllocationResult)
      → Reads s namespace name det device pool l r
      → reconcile api f namespace name s ≡ save api f pool det r s
  unfolding reconcile get_or
  reconcile-save f s namespace name det device pool l r reads =
      rw (reads.found, reconcile, get_or)
        (reconcile_detector-owned f s namespace name det device pool l r reads
          ∙ reconcile_in_pool-listed f s namespace name det device pool l r reads)

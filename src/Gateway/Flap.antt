-- ===== src/Gateway/Flap.antt =====
-- The two writers of a CAN detector's phase: the gateway
-- (apps/z21-gateway/internal/detector/manager.go) and the operator's controller
-- (operators/z21-device/internal/controller/candetector_controller.go).
use Prim.Native.Nat.{ℕ}
use elp.Prelude.{String, ◌≡◌, refl, sym, ap, subst, some, true, false, List}
use elp.Prelude.Result.{ok}
use elp.Prelude.Eq.{◌==◌, beq_refl, nat_comparable, option_comparable}
use elp.Operator.Detector.{CanDetector, CanAddressPool, allocated, applied, phase_equal}
use elp.Operator.Device.{Z21Device}
use elp.Operator.Cluster.{Resource}
use elp.Operator.Allocate.{AllocationResult, pool_status_from_stats}
use elp.Operator.Reconcile.{DetectorApi, reconcile}
use elp.Operator.Settles.{Reads}
use elp.Operator.Phases.{HasAddress, GaveOut, with_phase, applied_reset}
use elp.Canpool.Messages.{Fmt}
use elp.Gateway.Detected.{Manager}
use elp.Gateway.Detectors.{ManagerApi, mark_applied, reconcile_one}

-- What the API server promises of the status of a detector: an update that it accepts of the detector
-- that is stored under a name to the same detector with another status stores that one.
abbrev pub StoresUpdate : {S E : Type 0} → Resource S E CanDetector → Type 0
StoresUpdate {S} detectors =
    (s t : S) (namespace name : String) (base new stored : CanDetector)
    → detectors.get namespace name s ≡ ok base
    → new ≡ record base { status = new.status }
    → detectors.update_status new s ≡ (ok stored, t)
    → detectors.get namespace name t ≡ ok new

with_phase-back :
    (det : CanDetector)
    → det.status.phase ≡ allocated
    → with_phase (with_phase det applied) allocated ≡ det
with_phase-back det phase = ap (λ p. with_phase det p) (sym phase)

module _ {S E M C : Type 0} (gateway : ManagerApi S E M C) (operator : DetectorApi S E) where
  mark_applied-writes :
      (m : Manager) (det stored : CanDetector) (a : ℕ) (s t : S)
      → det.spec.desired_address ≡ some a
      → det.status.observed_address ≡ some a
      → det.status.phase ≡ allocated
      → det.status.message ≡ ""
      → gateway.detectors.patch_status det (with_phase det applied) s ≡ (ok stored, t)
      → reconcile_one gateway m det s ≡ (ok tt, t)
  unfolding reconcile_one mark_applied
  mark_applied-writes m det stored a s t desired seen phase quiet wrote =
      let known : (det.status.observed_address == some a) ≡ true = rw seen (beq_refl (some a)) in
      let cleared : record det { status = record (det.status) { phase = applied; message = "" } }
          ≡ with_phase det applied =
        ap (λ text. record det { status = record (det.status) { phase = applied; message = text } })
          (sym quiet) in
      let other : phase_equal det.status.phase applied ≡ false = rw phase refl in
      rw (desired, reconcile_one)
        (rw (known, reconcile_one)
          (rw (other, mark_applied) (rw (cleared, mark_applied) (rw (wrote, mark_applied) refl))))

  -- A detector whose module has taken its address, and whose phase is Allocated: a pass of the gateway
  -- writes the phase Applied, and the pass of the controller that follows, if the allocation gives
  -- out the same address, the status of the pool is current and the server accepts the update, writes
  -- the detector back as it was. The server stores an update of the status that it accepts of the
  -- detector as it is stored.
  pub phases_flap :
      (m : Manager) (f : Fmt) (stores : StoresUpdate operator.detectors)
      (det stored restored : CanDetector) (device : Z21Device) (pool : CanAddressPool)
      (l : List CanDetector) (r : AllocationResult) (a : ℕ) (s t u : S)
      → det.status.observed_address ≡ some a
      → det.status.phase ≡ allocated
      → gateway.detectors.patch_status det (with_phase det applied) s ≡ (ok stored, t)
      → Reads operator t det.namespace det.name (with_phase det applied) device pool l r
      → HasAddress (with_phase det applied) a
      → GaveOut r a
      → pool.status ≡ pool_status_from_stats r.stats
      → operator.detectors.update_status det t ≡ (ok restored, u)
      → (reconcile_one gateway m det s ≡ (ok tt, t))
        × (reconcile operator f det.namespace det.name t ≡ (ok tt, u))
        × (operator.detectors.get det.namespace det.name u ≡ ok det)
  phases_flap m f stores det stored restored device pool l r a s t u seen phase wrote reads has gave
        current back =
      (
        mark_applied-writes m det stored a s t has.desired seen phase has.quiet wrote,
        applied_reset operator f t u det.namespace det.name (with_phase det applied) restored device
            pool l r a reads has gave current refl
            (subst (λ d. operator.detectors.update_status d t ≡ (ok restored, u))
              (sym (with_phase-back det phase)) back),
        stores t u det.namespace det.name (with_phase det applied) det restored reads.found refl
            back,
      )

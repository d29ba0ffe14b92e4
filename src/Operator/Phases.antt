-- ===== src/Operator/Phases.antt =====
-- Passes of the controller of CAN detectors over a detector that has its address
-- (operators/z21-device/internal/controller/candetector_controller.go).
use elp.Prelude.{ℕ, ◌≡◌, refl, ap, ◌∙◌, String, true, false, not, some, List, arith}
use elp.Prelude.Result.{ok}
use elp.Prelude.Action.{pure, then_do, then_do-same, forget}
use elp.Prelude.Eq.{string_comparable, beq_refl, nat_comparable, option_comparable, bool_comparable}
use elp.Canpool.Config.{Stats}
use elp.Canpool.Messages.{Fmt}
use elp.Operator.Detector.{
  CanDetector, CanDetectorSpec, CanAddressPool, CanAddressPoolStatus, Phase, unset, pending,
  allocated, applied, failed, spec_equal, status_equal, pool_status_equal, phase_equal,
}
use elp.Operator.Device.{Z21Device}
use elp.Operator.Allocate.{AllocationResult, pool_status_from_stats, ensure_device_label}
use elp.Operator.Reconcile.{
  DetectorApi, reconcile, save, record_result, write_if, update_pool_status,
}
use elp.Operator.Settles.{Reads, reconcile-save}

spec_equal_refl : (a : CanDetectorSpec) → spec_equal a a ≡ true
spec_equal_refl a = ground (
  arith,
  beq_refl a.device_ref,
  beq_refl a.net_id,
  beq_refl a.desired_address,
  beq_refl a.adopt_observed,
)

phase_equal_refl : (p : Phase) → phase_equal p p ≡ true
phase_equal_refl unset = refl
phase_equal_refl pending = refl
phase_equal_refl allocated = refl
phase_equal_refl applied = refl
phase_equal_refl failed = refl

pool_status_equal_refl : (a : CanAddressPoolStatus) → pool_status_equal a a ≡ true
pool_status_equal_refl a = ground (
  arith,
  beq_refl a.range_size,
  beq_refl a.reserved,
  beq_refl a.allocated,
  beq_refl a.auto_available,
)

abbrev pub with_phase : CanDetector → Phase → CanDetector
with_phase det p = record det { status = record (det.status) { phase = p } }

with_phase-equal :
    (det : CanDetector) (p : Phase)
    → status_equal det.status (with_phase det p).status ≡ phase_equal det.status.phase p
with_phase-equal det p = ground (
  arith,
  beq_refl det.status.observed_address,
  beq_refl det.status.assigned_address,
  beq_refl det.status.message,
)

-- The detector has the address `a` in its specification and its status, and its label.
pub record HasAddress (det : CanDetector) (a : ℕ) : Type 0 where
  pub labelled : ensure_device_label det ≡ (det, false)
  pub desired : det.spec.desired_address ≡ some a
  pub assigned : det.status.assigned_address ≡ some a
  pub quiet : det.status.message ≡ ""

-- The allocation gave out the address `a`.
pub record GaveOut (r : AllocationResult) (a : ℕ) : Type 0 where
  pub phase : r.phase ≡ allocated
  pub desired : r.desired_address ≡ a
  pub assigned : r.assigned_address ≡ a

record_result-settled :
    (f : Fmt) (pool : CanAddressPool) (det : CanDetector) (r : AllocationResult) (a : ℕ)
    → HasAddress det a
    → GaveOut r a
    → record_result f pool det r ≡ with_phase det allocated
unfolding record_result
record_result-settled f pool det r a has gave = ground (arith, has, gave)

module _ {S E : Type 0} (api : DetectorApi S E) where
  update_pool_status-current :
      (pool : CanAddressPool) (st : Stats) (s : S)
      → pool.status ≡ pool_status_from_stats st
      → update_pool_status api pool st s ≡ (ok tt, s)
  unfolding update_pool_status
  update_pool_status-current pool st s current =
      let same = pool_status_equal_refl (pool_status_from_stats st) in
      rw (current, update_pool_status) (rw (same, update_pool_status) refl)

  -- The one write that is left: the status, if the phase differs.
  save-settled :
      (f : Fmt) (pool : CanAddressPool) (det : CanDetector) (r : AllocationResult) (a : ℕ) (s : S)
      → HasAddress det a
      → GaveOut r a
      → pool.status ≡ pool_status_from_stats r.stats
      → save api f pool det r s
        ≡ then_do
            (write_if api
              (not (phase_equal det.status.phase allocated))
              api.detectors.update_status
              (with_phase det allocated)
              s)
            (λ stored. pure tt)
  unfolding save write_if
  save-settled f pool det r a s has gave current =
      let recorded = record_result-settled f pool det r a has gave in
      let same_spec = spec_equal_refl det.spec in
      let same_status = with_phase-equal det allocated in
      rw (has.labelled, save)
        (rw (recorded, save)
          (rw (same_spec, save)
            (rw (same_status, save)
              (rw (gave.phase, save)
                (then_do-same
                  (write_if api (not (phase_equal det.status.phase allocated))
                    api.detectors.update_status (with_phase det allocated) s)
                  _ _
                  (λ stored s'. ap forget (update_pool_status-current pool r.stats s' current)))))))

  -- A pass over a detector that has its address, when the allocation gives out the same address and
  -- the status of the pool is current, writes nothing if the phase is Allocated.
  pub settled_quiet :
      (f : Fmt) (s : S) (namespace name : String) (det : CanDetector) (device : Z21Device)
      (pool : CanAddressPool) (l : List CanDetector) (r : AllocationResult) (a : ℕ)
      → Reads api s namespace name det device pool l r
      → HasAddress det a
      → GaveOut r a
      → pool.status ≡ pool_status_from_stats r.stats
      → det.status.phase ≡ allocated
      → reconcile api f namespace name s ≡ (ok tt, s)
  unfolding write_if
  settled_quiet f s namespace name det device pool l r a reads has gave current phase =
      reconcile-save api f s namespace name det device pool l r reads
      ∙ save-settled f pool det r a s has gave current
      ∙ rw (phase, write_if) refl

  -- The same pass, if the phase is Applied, as the gateway sets it once the module has taken the
  -- address: it writes the phase Allocated, and that is all.
  pub applied_reset :
      (f : Fmt) (s t : S) (namespace name : String) (det stored : CanDetector) (device : Z21Device)
      (pool : CanAddressPool) (l : List CanDetector) (r : AllocationResult) (a : ℕ)
      → Reads api s namespace name det device pool l r
      → HasAddress det a
      → GaveOut r a
      → pool.status ≡ pool_status_from_stats r.stats
      → det.status.phase ≡ applied
      → api.detectors.update_status (with_phase det allocated) s ≡ (ok stored, t)
      → reconcile api f namespace name s ≡ (ok tt, t)
  unfolding write_if
  applied_reset f s t namespace name det stored device pool l r a reads has gave current phase
        wrote =
      reconcile-save api f s namespace name det device pool l r reads
      ∙ save-settled f pool det r a s has gave current
      ∙ rw (phase, write_if) (rw wrote refl)

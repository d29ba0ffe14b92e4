-- ===== src/Operator/Shared.antt =====
-- The detectors that share a pool, over all devices and namespaces
-- (operators/z21-device/internal/controller/candetector_controller.go).
use elp.Prelude.{◌≡◌, ◌≢◌, String, true, List}
use elp.Prelude.Result.{ok}
use elp.Prelude.Action.{◌>>=◌, ◌>>◌}
use elp.Prelude.Eq.{string_comparable}
use elp.Operator.Detector.{CanDetector}
use elp.Operator.Device.{Z21Device}
use elp.Operator.Reconcile.{DetectorApi, is_in_pool}

module _ {S E : Type 0} (api : DetectorApi S E) where
  -- A detector whose device takes its addresses from the pool.
  pub record Draws (s : S) (namespace name : String) (det : CanDetector) (device : Z21Device)
      : Type 0 where
    pub named : det.spec.device_ref ≢ ""
    pub owned : api.devices.get det.namespace det.spec.device_ref s ≡ ok device
    pub drawn : is_in_pool api namespace name device ≡ true

-- ===== src/Operator/Defaults.antt =====
-- Allocation from the bundled default pool (operators/z21-device/api/v1alpha1/z21device_types.go).
use elp.Prelude.{◌≡◌, refl, List}
use elp.Canpool.Config.{validate, reserved_out_of_range}
use elp.Canpool.Pool.{done, new}
use elp.Operator.Detector.{CanDetector, CanAddressPool}
use elp.Operator.Device.{default_can_address_pool_spec}
use elp.Operator.Allocate.{allocate_detector_address, failed_result, pool_config_from_cr}

-- From a pool with the bundled default specification no detector is ever given an address: its
-- reserved addresses lie before its first address, so that every allocation fails on address 1.
pub default_pool_fails :
    (pool : CanAddressPool) (detectors : List CanDetector) (current : CanDetector)
    → pool.spec ≡ default_can_address_pool_spec
    → allocate_detector_address (pool_config_from_cr pool) detectors current
      ≡ done (failed_result (reserved_out_of_range 1))
unfolding allocate_detector_address pool_config_from_cr new validate
default_pool_fails pool detectors current bundled = rw (bundled, pool_config_from_cr) refl

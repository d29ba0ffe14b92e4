-- ===== src/Examples/Controllers.antt =====
-- Passes over one detector that has its address
-- (operators/z21-device/internal/controller/candetector_controller.go and
-- apps/z21-gateway/internal/detector/manager.go).
use elp.Prelude.{◌≡◌, ◌≢◌, refl, String, none, some, [], ◌∷◌, arith}
use elp.Prelude.Result.{ok}
use elp.Prelude.Action.{◌>>=◌, ◌>>◌}
use elp.Prelude.Eq.{string_comparable, nat_comparable, option_comparable, string_eq_iff}
use elp.Prelude.Assoc.{lookup, insert}
use elp.Canpool.Config.{validate, reserved_set}
use elp.Canpool.Messages.{Fmt}
use elp.Canpool.Pool.{
  done, new, rebuild, address_of, allocate, stats, count_from, is_auto_allocatable, first_free,
  is_free, assign, rebuild_from, check_assignment,
}
use elp.Operator.Detector.{
  CanDetector, CanAddressPool, Phase, allocated, owner_key, label_device_name,
}
use elp.Operator.Device.{can_address_pool_name, can_address_pool_namespace}
use elp.Operator.Allocate.{
  AllocationResult, assigned_address, allocate_detector_address, pool_config_from_cr,
  assignments_from_detectors, pool_status_from_stats, ensure_device_label,
}
use elp.Operator.Reconcile.{DetectorApi, reconcile, list_pool_detectors, pool_detectors, is_in_pool}
use elp.Operator.Settles.{Reads, allocation_returns}
use elp.Operator.Phases.{HasAddress, GaveOut, with_phase, settled_quiet}
use elp.Examples.Cluster.{fixed, single, is_not_found}
use elp.Examples.Devices.{device}
use elp.Examples.Detectors.{yard, main}

abbrev pub settled_yard : CanDetector
settled_yard = record {
  namespace = "elp";
  name = "yard";
  labels = (label_device_name, "z21") ∷ [];
  spec = record {
    device_ref = "z21";
    net_id = 7;
    desired_address = some 10;
    adopt_observed = none;
  };
  status = record {
    observed_address = some 10;
    assigned_address = some 10;
    phase = allocated;
    message = "";
  };
}

abbrev pub yard_result : AllocationResult
yard_result = record {
  desired_address = 10;
  assigned_address = 10;
  phase = allocated;
  message = none;
  stats = record { range_size = 3; reserved = 1; allocated = 1; auto_available = 1 };
}

abbrev pub yard_address_pool : CanAddressPool
yard_address_pool = record {
  namespace = "elp";
  name = "default";
  spec = record { start = 10; end = 12; reserved = 11 ∷ [] };
  status = record { range_size = 3; reserved = 1; allocated = 1; auto_available = 1 };
}

abbrev pub one_detector : DetectorApi CanDetector String
one_detector = record {
  is_not_found = is_not_found;
  detectors = single (λ d. d.name);
  devices = fixed (some device);
  pools = fixed (some yard_address_pool);
}

abbrev pub texts : Fmt
texts = record { decimal = λ n. "10"; quote = λ s. s; hex4 = λ n. "0007"; upper_hex4 = λ n. "0007" }

z21_named : ◌≢◌ {A = String} "z21" ""
z21_named h = ground (arith, string_eq_iff "z21" "")

pub yard-Reads :
    (p : Phase)
    → Reads one_detector
        (with_phase settled_yard p)
        "elp"
        "yard"
        (with_phase settled_yard p)
        device
        yard_address_pool
        (with_phase settled_yard p ∷ [])
        yard_result
unfolding list_pool_detectors pool_detectors is_in_pool can_address_pool_name
    can_address_pool_namespace allocate_detector_address new validate lookup rebuild rebuild_from
    check_assignment pool_config_from_cr owner_key address_of assign insert allocate first_free
    is_free stats count_from reserved_set is_auto_allocatable assigned_address
    assignments_from_detectors
yard-Reads p = record {
  found = refl;
  named = z21_named;
  owned = refl;
  pooled = refl;
  listed = refl;
  chosen = refl;
}

pub yard_has : (p : Phase) → HasAddress (with_phase settled_yard p) 10
unfolding ensure_device_label lookup
yard_has p = record { labelled = refl; desired = refl; assigned = refl; quiet = refl }

pub yard_gave : GaveOut yard_result 10
yard_gave = record { phase = refl; desired = refl; assigned = refl }

settled_quiet_example :
    reconcile one_detector texts "elp" "yard" settled_yard ≡ (ok tt, settled_yard)
unfolding pool_status_from_stats
settled_quiet_example =
    settled_quiet one_detector texts settled_yard "elp" "yard" settled_yard device yard_address_pool
      (settled_yard ∷ []) yard_result 10 (yard-Reads allocated) (yard_has allocated) yard_gave refl
      refl

allocation_returns_example :
    (r : AllocationResult) × (allocate_detector_address
        (pool_config_from_cr yard_address_pool)
        (settled_yard ∷ [])
        settled_yard
      ≡ done r)
allocation_returns_example =
    allocation_returns (pool_config_from_cr yard_address_pool) (settled_yard ∷ []) settled_yard

-- Two detectors of one device, of which `yard` has the address 10.
abbrev two_detectors : DetectorApi CanDetector String
two_detectors = record one_detector {
  detectors = record (fixed (some main)) { list = λ s. ok (yard ∷ main ∷ []) };
}

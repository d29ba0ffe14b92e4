-- ===== src/Examples/Detectors.antt =====
-- Two detectors of which one has an address
-- (operators/z21-device/internal/controller/candetector_allocate.go).
use mathlib.Core.List.{Memᴰ}
use elp.Prelude.{ℕ, ◌≤◌, ◌≡◌, ◌≢◌, ◌⊎◌, refl, String, Option, none, some, [], ◌∷◌, arith}
use elp.Prelude.Eq.{string_comparable, string_eq_iff}
use elp.Prelude.Assoc.{lookup, insert}
use elp.Canpool.Config.{reserved_out_of_range, validate, reserved_set}
use elp.Canpool.Pool.{
  done, new, rebuild, address_of, allocate, stats, count_from, is_auto_allocatable, first_free,
  is_free, assign, rebuild_from, check_assignment,
}
use elp.Operator.Detector.{CanDetector, CanAddressPool, unset, allocated, owner_key}
use elp.Operator.Allocate.{
  AllocationResult, assigned_address, choose_address, allocate_detector_address, failed_result,
  pool_config_from_cr, assignments_from_detectors,
}
use elp.Operator.Exclusive.{Gives}
use elp.Operator.Chosen.{ChosenNew, choose_address_total}
use elp.Operator.Rebuilt.{allocation_exclusive, allocation_stable}
use elp.Operator.Device.{default_can_address_pool_spec}
use elp.Operator.Defaults.{default_pool_fails}
use elp.Examples.Pools.{yard_config, yard_pool, yard_pool-IsConsistent}

abbrev detector_named : String → Option ℕ → CanDetector
detector_named name assigned = record {
  namespace = "elp";
  name = name;
  labels = [];
  spec = record { device_ref = "z21"; net_id = 7; desired_address = none; adopt_observed = none };
  status = record {
    observed_address = none;
    assigned_address = assigned;
    phase = unset;
    message = "";
  };
}

abbrev pub yard : CanDetector
yard = detector_named "yard" (some 10)

abbrev pub main : CanDetector
main = detector_named "main" none

abbrev pub result_of : ℕ → ℕ → ℕ → AllocationResult
result_of address count free = record {
  desired_address = address;
  assigned_address = address;
  phase = allocated;
  message = none;
  stats = record { range_size = 3; reserved = 1; allocated = count; auto_available = free };
}

pub main_result :
    allocate_detector_address yard_config (yard ∷ main ∷ []) main ≡ done (result_of 12 2 0)
unfolding allocate_detector_address new validate lookup rebuild rebuild_from check_assignment
    owner_key address_of assign insert allocate first_free is_free stats count_from reserved_set
    is_auto_allocatable assigned_address assignments_from_detectors
main_result = refl

yard_result :
    allocate_detector_address yard_config (yard ∷ main ∷ []) yard ≡ done (result_of 10 1 1)
unfolding allocate_detector_address new validate lookup rebuild rebuild_from check_assignment
    owner_key address_of assign insert allocate first_free is_free stats count_from reserved_set
    is_auto_allocatable assigned_address assignments_from_detectors
yard_result = refl

pub yard_address : assigned_address yard ≡ some 10
unfolding assigned_address
yard_address = refl

pub other_owner : owner_key yard ≢ owner_key main
unfolding owner_key
other_owner h = ground (arith, string_eq_iff (owner_key yard) (owner_key main))

allocation_exclusive_example :
    (yard_config.start ≤ 12) × (12 ≤ yard_config.end) × (◌≢◌ {A = ℕ} 10 12)
allocation_exclusive_example =
    allocation_exclusive yard_config (yard ∷ main ∷ []) main yard (result_of 12 2 0) 10 main_result
      refl (Memᴰ.head refl) yard_address other_owner

allocation_stable_example : (result_of 10 1 1).assigned_address ≡ 10
allocation_stable_example =
    allocation_stable yard_config (yard ∷ main ∷ []) yard (result_of 10 1 1) 10 yard_result refl
      (Memᴰ.head refl) yard_address

choose_address_total_example :
    (r : AllocationResult) × (choose_address yard_pool main ≡ done r)
    × (((a : ℕ) × (lookup (owner_key main) yard_pool.addr_by_owner ≡ some a) × Gives r a)
        ⊎ ((lookup (owner_key main) yard_pool.addr_by_owner ≡ none) × ChosenNew yard_pool main r))
choose_address_total_example = choose_address_total yard_pool main yard_pool-IsConsistent

abbrev default_pool : CanAddressPool
default_pool = record {
  namespace = "elp";
  name = "default";
  spec = default_can_address_pool_spec;
  status = record { range_size = 0; reserved = 0; allocated = 0; auto_available = 0 };
}

default_pool_fails_example :
    allocate_detector_address (pool_config_from_cr default_pool) [] main
    ≡ done (failed_result (reserved_out_of_range 1))
default_pool_fails_example = default_pool_fails default_pool [] main refl

-- ===== src/Operator/Detector.antt =====
-- The custom resources CANDetector and CANAddressPool
-- (operators/z21-device/api/v1alpha1/candetector_types.go, canaddresspool_types.go).
use Prim.Native.String.{◌++◌}
use elp.Prelude.{ℕ, String, Bool, true, false, ◌&&◌, Option, none, some, List}
use elp.Prelude.Eq.{◌==◌, nat_comparable, string_comparable, bool_comparable, option_comparable}
use elp.Prelude.Assoc.{Map}

-- `unset` is the empty string.
pub data Phase : Type 0 where
  unset pending allocated applied failed : Phase

pub record CanDetectorSpec : Type 0 where
  pub device_ref : String
  pub net_id : ℕ
  pub desired_address : Option ℕ
  pub adopt_observed : Option Bool

pub record CanDetectorStatus : Type 0 where
  pub observed_address : Option ℕ
  pub assigned_address : Option ℕ
  pub phase : Phase
  pub message : String

pub record CanDetector : Type 0 where
  pub namespace : String
  pub name : String
  pub labels : Map String String
  pub spec : CanDetectorSpec
  pub status : CanDetectorStatus

pub record CanAddressPoolSpec : Type 0 where
  pub start : ℕ
  pub end : ℕ
  pub reserved : List ℕ

pub record CanAddressPoolStatus : Type 0 where
  pub range_size : ℕ
  pub reserved : ℕ
  pub allocated : ℕ
  pub auto_available : ℕ

pub record CanAddressPool : Type 0 where
  pub namespace : String
  pub name : String
  pub spec : CanAddressPoolSpec
  pub status : CanAddressPoolStatus

-- PoolConfig: the bounds and a copy of the reserved addresses.
unfoldable pub pool_config : CanAddressPool → ℕ × ℕ × List ℕ
pool_config p = (p.spec.start, p.spec.end, p.spec.reserved)

abbrev pub label_device_name : String
label_device_name = "z21.trains.io/device"

unfoldable pub adopt_observed_enabled : CanDetector → Bool
adopt_observed_enabled d = elim d.spec.adopt_observed [ none ↦ true | some b ↦ b ]

unfoldable pub owner_key : CanDetector → String
owner_key d = d.namespace ++ ("/" ++ d.name)

abbrev pub phase_equal : Phase → Phase → Bool
phase_equal unset unset = true
phase_equal pending pending = true
phase_equal allocated allocated = true
phase_equal applied applied = true
phase_equal failed failed = true
phase_equal _ _ = false

-- equality.Semantic.DeepEqual on the parts of these resources.
abbrev pub spec_equal : CanDetectorSpec → CanDetectorSpec → Bool
spec_equal a b =
    a.device_ref == b.device_ref
    && a.net_id == b.net_id
    && a.desired_address == b.desired_address
    && a.adopt_observed == b.adopt_observed

abbrev pub status_equal : CanDetectorStatus → CanDetectorStatus → Bool
status_equal a b =
    a.observed_address == b.observed_address
    && a.assigned_address == b.assigned_address
    && phase_equal a.phase b.phase
    && a.message == b.message

abbrev pub pool_status_equal : CanAddressPoolStatus → CanAddressPoolStatus → Bool
pool_status_equal a b =
    a.range_size == b.range_size
    && a.reserved == b.reserved
    && a.allocated == b.allocated
    && a.auto_available == b.auto_available

-- ===== src/Gateway/Detected.antt =====
-- The CAN modules that answer a discovery, and the CANDetector resources that are made of them
-- (apps/z21-gateway/internal/detector/manager.go).
use Prim.Native.String.{◌++◌}
use Prim.Native.Nat.{ℕ}
use elp.Prelude.{String, true, Option, none, some, List, [], ◌∷◌, if◌then◌else◌}
use elp.Prelude.Eq.{◌==◌, string_comparable, nat_comparable, option_comparable}
use elp.Prelude.Assoc.{Map, lookup, insert}
use elp.Prelude.Int.{ℤ}
use elp.Canpool.Messages.{Fmt}
use elp.Operator.Detector.{
  CanDetector, unset, pending, allocated, applied, phase_equal, label_device_name,
}

-- `protocol.CANDetectorReport`, of github.com/trains-io/z21.go.
pub record Report : Type 0 where
  pub net_id : ℕ
  pub addr : ℕ
  pub port : ℕ

pub record Manager : Type 0 where
  pub namespace : String
  pub device_name : String
  pub z21_host : String
  pub maint_port : ℤ

pub record DiscoveredDetector : Type 0 where
  pub net_id : ℕ
  pub addr : ℕ
  pub ports : Map ℕ (Unit {0})

unfoldable pub detector_name : Fmt → ℕ → String
detector_name f net_id = "detector-" ++ f.hex4 net_id

-- `strings.HasPrefix` with the rest, and `strconv.ParseUint(…, 16, 16)`, are parameters.
unfoldable pub normalize_detector_name :
    (String → String → Option String) → (String → Option ℕ) → String → Option ℕ
normalize_detector_name without_prefix parse_hex16 name = elim (without_prefix "detector-" name) [
  | none ↦ none
  | some rest ↦ parse_hex16 rest
]

-- The entry of a module, a new one if there is none.
unfoldable pub entry_for : ℕ → Map ℕ DiscoveredDetector → DiscoveredDetector
entry_for net_id by_net_id = elim (lookup net_id by_net_id) [
  | none ↦ record { net_id = net_id; addr = 0; ports = [] }
  | some entry ↦ entry
]

-- The first address that is not zero stays.
unfoldable pub with_report : Report → DiscoveredDetector → DiscoveredDetector
with_report report entry = record entry {
  addr = if entry.addr == 0 then report.addr else entry.addr;
  ports = insert report.port tt entry.ports;
}

unfoldable pub add_report : Report → Map ℕ DiscoveredDetector → Map ℕ DiscoveredDetector
unfolding entry_for with_report
add_report report by_net_id =
    insert report.net_id (with_report report (entry_for report.net_id by_net_id)) by_net_id

-- The values of a map: the code runs over them in no fixed order.
unfoldable pub entries : Map ℕ DiscoveredDetector → List DiscoveredDetector
entries [] = []
entries ((k, d) ∷ rest) = d ∷ entries rest

-- The detector that `upsertDiscovered` wants to be there.
unfoldable pub desired_detector : Manager → Fmt → DiscoveredDetector → CanDetector
unfolding detector_name
desired_detector m f det = record {
  namespace = m.namespace;
  name = detector_name f det.net_id;
  labels = (label_device_name, m.device_name) ∷ [];
  spec = record {
    device_ref = m.device_name;
    net_id = det.net_id;
    desired_address = none;
    adopt_observed = some true;
  };
  status = record { observed_address = none; assigned_address = none; phase = unset; message = "" };
}

-- What it makes of a detector that is there.
unfoldable pub merged_detector : Manager → DiscoveredDetector → CanDetector → CanDetector
merged_detector m det current = record current {
  labels = (label_device_name, m.device_name) ∷ [];
  spec = record (current.spec) {
    net_id = det.net_id;
    device_ref = if current.spec.device_ref == "" then m.device_name else current.spec.device_ref;
    adopt_observed = elim current.spec.adopt_observed [ none ↦ some true | some b ↦ some b ];
  };
}

-- The status with the address that the module reports.
unfoldable pub with_observed : ℕ → CanDetector → CanDetector
with_observed addr det = record det {
  status = record (det.status) {
    observed_address = some addr;
    phase = if phase_equal det.status.phase unset then pending else det.status.phase;
  };
}

-- The status after an address was set: `observed` is what the module then reports.
unfoldable pub after_apply : Fmt → ℕ → ℕ → CanDetector → CanDetector
after_apply f observed desired det =
    let done = observed == desired in
    record det {
      status = record (det.status) {
        observed_address = some observed;
        phase = if done then applied else allocated;
        message =
            if done
            then ""
            else "module still reports address " ++ (f.decimal observed ++ " after apply");
      };
    }

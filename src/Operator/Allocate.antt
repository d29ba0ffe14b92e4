-- ===== src/Operator/Allocate.antt =====
-- The allocation of one detector's address
-- (operators/z21-device/internal/controller/candetector_allocate.go).
use elp.Prelude.{ℕ, String, Bool, true, false, Option, none, some, List, [], ◌∷◌, if◌then◌else◌}
use elp.Prelude.Result.{ok, err}
use elp.Prelude.Eq.{◌==◌, string_comparable}
use elp.Prelude.Assoc.{lookup, insert}
use elp.Canpool.Config.{Config, Err, Stats}
use elp.Canpool.Pool.{
  Pool, Assignment, Scan, out_of_fuel, done, new, rebuild, address_of, is_available, claim,
  allocate, stats,
}
use elp.Operator.Detector.{
  CanDetector, CanAddressPool, CanAddressPoolStatus, Phase, allocated, failed,
  adopt_observed_enabled, owner_key, pool_config, label_device_name,
}

-- The message of a result is the text of an error, or empty.
pub record AllocationResult : Type 0 where
  pub desired_address : ℕ
  pub assigned_address : ℕ
  pub phase : Phase
  pub message : Option Err
  pub stats : Stats

abbrev pub no_stats : Stats
no_stats = record { range_size = 0; reserved = 0; allocated = 0; auto_available = 0 }

abbrev pub failed_result : Err → AllocationResult
failed_result e = record {
  desired_address = 0;
  assigned_address = 0;
  phase = failed;
  message = some e;
  stats = no_stats;
}

unfoldable pub success_result : Pool → ℕ → Scan AllocationResult
success_result pool addr = elim (stats pool) [
  | out_of_fuel ↦ out_of_fuel
  | done st ↦ done (record {
    desired_address = addr;
    assigned_address = addr;
    phase = allocated;
    message = none;
    stats = st;
  })
]

unfoldable pub assigned_address : CanDetector → Option ℕ
assigned_address det = elim det.status.assigned_address [
  | some a ↦ some a
  | none ↦ det.spec.desired_address
]

unfoldable pub assignments_from_detectors : List CanDetector → List Assignment
unfolding assigned_address
assignments_from_detectors [] = []
assignments_from_detectors (det ∷ rest) =
    let others = assignments_from_detectors rest in
    elim (assigned_address det) [
      | none ↦ others
      | some addr ↦
          record { owner = owner_key det; address = addr; net_id = det.spec.net_id } ∷ others
    ]

-- The last step: any free address.
unfoldable pub allocate_any : Pool → String → Scan AllocationResult
unfolding success_result
allocate_any pool owner = elim (allocate pool owner) [
  | out_of_fuel ↦ out_of_fuel
  | done (pool', ok addr) ↦ success_result pool' addr
  | done (pool', err e) ↦ done (failed_result e)
]

-- The address that the detector reports, if it may be adopted.
unfoldable pub adoptable : Pool → CanDetector → Option ℕ
unfolding adopt_observed_enabled
adoptable pool current =
    if adopt_observed_enabled current
    then elim current.status.observed_address [
      | none ↦ none
      | some observed ↦ if is_available pool observed then some observed else none
    ]
    else none

unfoldable pub adopt : Pool → String → ℕ → Scan AllocationResult
unfolding success_result
adopt pool owner observed =
    let (pool', claimed) = claim pool owner observed in
    elim claimed [ ok _ ↦ success_result pool' observed | err e ↦ done (failed_result e) ]

-- What is done once the pool holds the assignments that there are.
unfoldable pub choose_address : Pool → CanDetector → Scan AllocationResult
unfolding adoptable adopt allocate_any success_result
choose_address pool current = elim (address_of pool (owner_key current)) [
  | some addr ↦ success_result pool addr
  | none ↦ elim (adoptable pool current) [
    | some observed ↦ adopt pool (owner_key current) observed
    | none ↦ allocate_any pool (owner_key current)
  ]
]

unfoldable pub allocate_detector_address :
    Config → List CanDetector → CanDetector → Scan AllocationResult
unfolding assignments_from_detectors choose_address
allocate_detector_address cfg detectors current = elim (new cfg) [
  | err e ↦ done (failed_result e)
  | ok pool ↦
      let (pool', bad) = rebuild pool (assignments_from_detectors detectors) in
      elim bad [ some e ↦ done (failed_result e) | none ↦ choose_address pool' current ]
]

unfoldable pub pool_config_from_cr : CanAddressPool → Config
unfolding pool_config
pool_config_from_cr pool =
    let (start, end, reserved) = pool_config pool in
    record { start = start; end = end; reserved = reserved }

unfoldable pub pool_status_from_stats : Stats → CanAddressPoolStatus
pool_status_from_stats st = record {
  range_size = st.range_size;
  reserved = st.reserved;
  allocated = st.allocated;
  auto_available = st.auto_available;
}

-- The result says whether the label was changed.
unfoldable pub ensure_device_label : CanDetector → CanDetector × Bool
ensure_device_label det =
    let want = det.spec.device_ref in
    let labelled = record det { labels = insert label_device_name want det.labels } in
    elim (lookup label_device_name det.labels) [
      | none ↦ if want == "" then (det, false) else (labelled, true)
      | some l ↦ if l == want then (det, false) else (labelled, true)
    ]

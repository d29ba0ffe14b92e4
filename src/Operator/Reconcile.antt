-- ===== src/Operator/Reconcile.antt =====
-- The controller that gives CAN detectors their addresses
-- (operators/z21-device/internal/controller/candetector_controller.go). Logs are left out.
use Prim.Native.String.{◌++◌}
use elp.Prelude.{
  String, Bool, true, false, not, ◌&&◌, ◌||◌, none, some, List, [], ◌∷◌, ◌++◌ as ◌+++◌,
  if◌then◌else◌,
}
use elp.Prelude.Result.{Result, ok, err}
use elp.Prelude.Action.{Action, pure, reading, ◌>>=◌, ◌>>◌, logged, when}
use elp.Prelude.Eq.{◌==◌, string_comparable}
use elp.Canpool.Config.{Stats}
use elp.Canpool.Pool.{Scan, out_of_fuel, done}
use elp.Canpool.Messages.{Fmt, message}
use elp.Operator.Detector.{
  CanDetector, CanAddressPool, Phase, allocated, failed, spec_equal, status_equal,
  pool_status_equal,
}
use elp.Operator.Device.{Z21Device, can_address_pool_name, can_address_pool_namespace}
use elp.Operator.Allocate.{
  AllocationResult, allocate_detector_address, pool_config_from_cr, pool_status_from_stats,
  ensure_device_label,
}
use elp.Operator.Cluster.{Resource}

-- What the controller sees of the cluster.
pub record DetectorApi (S E : Type 0) : Type 0 where
  pub is_not_found : E → Bool
  pub detectors : Resource S E CanDetector
  pub devices : Resource S E Z21Device
  pub pools : Resource S E CanAddressPool

abbrev pub is_allocated : Phase → Bool
is_allocated allocated = true
is_allocated _ = false

-- The detector with the result of the allocation.
unfoldable pub record_result : Fmt → CanAddressPool → CanDetector → AllocationResult → CanDetector
unfolding pool_config_from_cr
record_result f pool det r =
    if is_allocated r.phase
    then record det {
      spec = record (det.spec) { desired_address = some r.desired_address };
      status = record (det.status) {
        assigned_address = some r.assigned_address;
        phase = r.phase;
        message = "";
      };
    }
    else record det {
      status = record (det.status) {
        phase = r.phase;
        message = elim r.message [ none ↦ "" | some e ↦ message f (pool_config_from_cr pool) e ];
      };
    }

-- The detectors of one device.
unfoldable pub of_device : String → List CanDetector → List CanDetector
of_device device_name [] = []
of_device device_name (det ∷ rest) =
    let others = of_device device_name rest in
    if det.spec.device_ref == device_name then det ∷ others else others

abbrev Requests : Type 0
Requests = List (String × String)

-- A request for each detector: its namespace and its name.
unfoldable pub requests_for : String → List CanDetector → Requests
requests_for namespace [] = []
requests_for namespace (det ∷ rest) = (namespace, det.name) ∷ requests_for namespace rest

module _ {S E : Type 0} (api : DetectorApi S E) where
  -- `if err := r.Get(…)`, with one continuation if the object is not found and one if it is.
  unfoldable pub get_or {ℓ} :
      {A : Type 0} {B : Type ℓ}
      → (S → Result E A)
      → Action S E B
      → (A → Action S E B)
      → Action S E B
  get_or get missing found s = elim (get s) [
    | ok a ↦ found a s
    | err e ↦ if api.is_not_found e then missing s else (err e, s)
  ]

  unfoldable pub patch_failed : CanDetector → String → Action S E (Unit {0})
  patch_failed det text =
      let status = record (det.status) { phase = failed; message = text } in
      when (not (status_equal det.status status))
        (do api.detectors.update_status (record det { status = status }); pure tt)

  unfoldable pub list_device_detectors : String → String → S → Result E (List CanDetector)
  unfolding of_device
  list_device_detectors namespace device_name s = elim (api.detectors.list_in namespace s) [
    | err e ↦ err e
    | ok items ↦ ok (of_device device_name items)
  ]

  -- Whether a device takes its addresses from the pool.
  unfoldable pub is_in_pool : String → String → Z21Device → Bool
  unfolding can_address_pool_name can_address_pool_namespace
  is_in_pool namespace name device =
      can_address_pool_namespace device == namespace && can_address_pool_name device == name

  -- The loop of `listPoolDetectors`.
  unfoldable pub pool_detectors :
      String → String → List CanDetector → S → Result E (List CanDetector)
  unfolding is_in_pool
  pool_detectors namespace name [] s = ok []
  pool_detectors namespace name (det ∷ rest) s =
      let others : Result E (List CanDetector) = pool_detectors namespace name rest s in
      if det.spec.device_ref == ""
      then others
      else elim (api.devices.get det.namespace det.spec.device_ref s) [
        | err e ↦ if api.is_not_found e then others else err e
        | ok device ↦
            if is_in_pool namespace name device
            then elim others [ err e ↦ err e | ok out ↦ ok (det ∷ out) ]
            else others
      ]

  unfoldable pub list_pool_detectors : String → String → S → Result E (List CanDetector)
  unfolding pool_detectors
  list_pool_detectors namespace name s = elim (api.detectors.list s) [
    | err e ↦ err e
    | ok items ↦ pool_detectors namespace name items s
  ]

  unfoldable pub update_pool_status : CanAddressPool → Stats → Action S E (Unit {0})
  unfolding pool_status_from_stats
  update_pool_status pool st =
      let want = pool_status_from_stats st in
      when (not (pool_status_equal pool.status want))
        (do api.pools.update_status (record pool { status = want }); pure tt)

  -- `if changed { err := write(…) }`: the object goes on as the server answered it.
  unfoldable pub write_if :
      Bool → (CanDetector → Action S E CanDetector) → CanDetector → Action S E CanDetector
  write_if changed write det s = if changed then write det s else (ok det, s)

  -- What `Reconcile` does once the address is chosen.
  unfoldable pub save :
      Fmt → CanAddressPool → CanDetector → AllocationResult → Action S E (Unit {0})
  unfolding ensure_device_label record_result write_if update_pool_status
  save f pool orig r =
      let (labelled, label_changed) = ensure_device_label orig in
      let det = record_result f pool labelled r in
      let spec_changed = not (spec_equal orig.spec det.spec) || label_changed in
      let status_changed = not (status_equal orig.status det.status) in
      do
        written ← write_if spec_changed api.detectors.update det
        write_if status_changed api.detectors.update_status written
        when (is_allocated r.phase) (logged (update_pool_status pool r.stats))

  -- The scan over the pool that does not end is no result of the code.
  unfoldable pub save_scan :
      Fmt → CanAddressPool → CanDetector → Scan AllocationResult → Action S E (Unit {0})
  unfolding save
  save_scan f pool det out_of_fuel = pure tt
  save_scan f pool det (done r) = save f pool det r

  unfoldable pub allocate_and_save :
      Fmt → CanDetector → CanAddressPool → List CanDetector → Action S E (Unit {0})
  unfolding save_scan allocate_detector_address pool_config_from_cr
  allocate_and_save f det pool detectors =
      save_scan f pool det (allocate_detector_address (pool_config_from_cr pool) detectors det)

  -- From the device on.
  unfoldable pub reconcile_in_pool : Fmt → CanDetector → Z21Device → Action S E (Unit {0})
  unfolding get_or patch_failed list_pool_detectors allocate_and_save can_address_pool_namespace
      can_address_pool_name
  reconcile_in_pool f det device =
      let pool_namespace = can_address_pool_namespace device in
      let pool_name = can_address_pool_name device in
      let missing = patch_failed det (
        "CANAddressPool "
        ++ (f.quote pool_name ++ (" not found in namespace " ++ f.quote pool_namespace))) in
      get_or (api.pools.get pool_namespace pool_name) missing (λ pool.
        reading (list_pool_detectors pool_namespace pool_name) >>= allocate_and_save f det pool)

  -- From the detector on; `namespace` is that of the request.
  unfoldable pub reconcile_detector : Fmt → String → CanDetector → Action S E (Unit {0})
  unfolding get_or patch_failed reconcile_in_pool
  reconcile_detector f namespace det s =
      let device_name = det.spec.device_ref in
      if device_name == ""
      then patch_failed det "spec.deviceRef.name is required" s
      else get_or (api.devices.get namespace device_name)
          (patch_failed det ("Z21Device " ++ (f.quote device_name ++ " not found")))
          (reconcile_in_pool f det) s

  unfoldable pub reconcile : Fmt → String → String → Action S E (Unit {0})
  unfolding get_or reconcile_detector
  reconcile f namespace name =
      get_or (api.detectors.get namespace name) (pure tt) (reconcile_detector f namespace)

  -- The requests that a changed device or pool puts in the queue: none if the list fails.
  unfoldable pub enqueue_detectors_for_device : String → String → S → Requests
  unfolding list_device_detectors requests_for
  enqueue_detectors_for_device namespace device_name s =
      elim (list_device_detectors namespace device_name s) [
        | err e ↦ []
        | ok detectors ↦ requests_for namespace detectors
      ]

  -- The loop of `mapPoolToDetectors`.
  unfoldable pub enqueue_for_devices : String → String → List Z21Device → S → Requests
  unfolding is_in_pool enqueue_detectors_for_device
  enqueue_for_devices namespace name [] s = []
  enqueue_for_devices namespace name (device ∷ rest) s =
      let others = enqueue_for_devices namespace name rest s in
      if is_in_pool namespace name device
      then enqueue_detectors_for_device device.namespace device.name s +++ others
      else others

  unfoldable pub map_pool_to_detectors : CanAddressPool → S → Requests
  unfolding enqueue_for_devices
  map_pool_to_detectors pool s = elim (api.devices.list s) [
    | err e ↦ []
    | ok devices ↦ enqueue_for_devices pool.namespace pool.name devices s
  ]

-- ===== src/Api/Handlers.antt =====
-- The requests on devices, as the server answers them (apps/api/internal/api/devices.go). A body that
-- is no JSON of the request is none; writeJSON and writeError give a status and a body.
use Prim.Native.Nat.{ℕ}
use elp.Prelude.{String, Bool, false, not, ◌&&◌, Option, none, some, List, [], ◌∷◌, if◌then◌else◌}
use elp.Prelude.Result.{Result, ok, err}
use elp.Prelude.Action.{Action}
use elp.Prelude.Eq.{◌==◌, string_comparable}
use elp.Prelude.Int.{pos}
use elp.Operator.Cluster.{Resource}
use elp.Operator.Device.{Z21Device, Z21DeviceSpec, Net}
use elp.Api.Types.{Device, device_from_cr}
use elp.Api.Requests.{
  DeviceCreate, DeviceUpdate, RequestError, is_some, validate_device_create, spec_from_create,
  apply_update,
}

-- What a request is refused with: an error of the request, of the cluster, or of the message bus.
pub data Problem (E : Type 0) : Type 0 where
  no_json : Problem E
  names_differ : Problem E
  bad_request : RequestError → Problem E
  from_cluster : E → Problem E
  not_published : E → Problem E

pub data Body (E : Type 0) : Type 0 where
  no_content : Body E
  device_body : Device → Body E
  devices_body : List Device → Body E
  error_body : Problem E → Body E

pub record Response (E : Type 0) : Type 0 where
  pub status : ℕ
  pub body : Body E

-- What the handlers call: the cluster, and the message bus that reaches a device's gateway.
pub record HandlerApi (S E : Type 0) : Type 0 where
  pub is_not_found : E → Bool
  pub is_already_exists : E → Bool
  pub devices : Resource S E Z21Device
  pub publish_set_broadcast_flags : Z21Device → Action S E (Unit {0})
  pub net : Net

-- A resource that is new: only its names and its specification are set.
unfoldable pub new_device : String → String → Z21DeviceSpec → Z21Device
new_device namespace name spec = record {
  namespace = namespace;
  name = name;
  generation = pos 0;
  finalizers = [];
  is_deleting = false;
  annotations = [];
  spec = spec;
  status = record {
    phase = "";
    conditions = [];
    last_successful_health_check = none;
    health_check_failures = pos 0;
    gateway_deployment = "";
    simulator_deployment = "";
    simulator_service = "";
    last_seen = none;
    serial_number = "";
    firmware_version = "";
    hardware_type = "";
    xbus_version = "";
    xbus_firmware_version = "";
    lock_code = none;
    observed_generation = pos 0;
  };
}

-- The name in the URL and the name in the body: none if they differ.
unfoldable pub request_name : String → String → Option String
request_name url_name name =
    if name == ""
    then some url_name
    else if not (url_name == "") && not (name == url_name)
    then none
    else some name

-- The routes on devices, but for the stream and the simulation.
pub data Request : Type 0 where
  lists : String → Request
  creates : String → String → Option DeviceCreate → Request
  gets : String → String → Request
  patches : String → String → Option DeviceUpdate → Request
  deletes : String → String → Request

module _ {S E : Type 0} (api : HandlerApi S E) where
  abbrev pub Handler : Type 0
  Handler = S → Response E × S

  abbrev pub write_error : ℕ → Problem E → Handler
  write_error code p s = (record { status = code; body = error_body p }, s)

  abbrev pub write_device : ℕ → Z21Device → Handler
  write_device code d s =
      (record { status = code; body = device_body (device_from_cr api.net d) }, s)

  -- `if err != nil { … }` after a call: what follows an error and what follows a value.
  abbrev pub or_else :
      {A : Type 0} → Result E A × S → (E → Handler) → (A → Handler) → Response E × S
  or_else (ok a, s) failed k = k a s
  or_else (err e, s) failed k = failed e s

  -- `if err != nil { writeError(w, http.StatusBadRequest, err); return }`
  abbrev pub checked : {A : Type 0} → Result RequestError A → (A → Handler) → Handler
  checked (ok a) k = k a
  checked (err e) k = write_error 400 (bad_request e)

  unfoldable pub views : List Z21Device → List Device
  unfolding device_from_cr
  views [] = []
  views (d ∷ rest) = device_from_cr api.net d ∷ views rest

  unfoldable pub list_devices : String → Handler
  unfolding views
  list_devices namespace s =
      or_else (api.devices.list_in namespace s, s) (λ e. write_error 500 (from_cluster e))
        (λ items t. (record { status = 200; body = devices_body (views items) }, t))

  -- `fetchDevice`, and what the handler does with the device.
  unfoldable pub with_device : String → String → (Z21Device → Handler) → Handler
  with_device namespace name k s =
      or_else (api.devices.get namespace name s, s)
        (λ e. write_error (if api.is_not_found e then 404 else 500) (from_cluster e)) k

  unfoldable pub create_device : String → String → Option DeviceCreate → Handler
  unfolding request_name validate_device_create spec_from_create new_device
  create_device namespace url_name none = write_error 400 no_json
  create_device namespace url_name (some body) = elim (request_name url_name body.name) [
    | none ↦ write_error 400 names_differ
    | some name ↦
        let req = record body { name = name } in
        elim (validate_device_create req) [
          | some e ↦ write_error 400 (bad_request e)
          | none ↦ checked (spec_from_create api.net req) (λ spec s.
              or_else (api.devices.create (new_device namespace name spec) s)
                (λ e. write_error (if api.is_already_exists e then 409 else 500) (from_cluster e))
                (λ device. write_device 201 device))
        ]
  ]

  unfoldable pub get_device : String → String → Handler
  unfolding with_device
  get_device namespace name = with_device namespace name (λ device. write_device 200 device)

  -- The device with the changed specification, written and published.
  unfoldable pub write_patch : Bool → Z21Device → Z21Device → Handler
  write_patch flags_changed base device s =
      or_else (api.devices.patch base device s) (λ e. write_error 500 (from_cluster e))
        (λ written t.
          if flags_changed
          then or_else (api.publish_set_broadcast_flags written t)
              (λ e. write_error 502 (not_published e)) (λ _. write_device 200 written)
          else write_device 200 written t)

  unfoldable pub patch_device : String → String → Option DeviceUpdate → Handler
  unfolding with_device apply_update write_patch
  patch_device namespace name body = with_device namespace name (λ device. elim body [
    | none ↦ write_error 400 no_json
    | some req ↦
        checked (apply_update api.net device.spec req)
          (λ spec. write_patch (is_some req.broadcast_flags) device (record device { spec = spec }))
  ])

  unfoldable pub delete_device : String → String → Handler
  unfolding with_device
  delete_device namespace name = with_device namespace name (λ device s.
      or_else (api.devices.delete device.namespace device.name s)
        (λ e. write_error 500 (from_cluster e))
        (λ _ t. (record { status = 204; body = no_content }, t)))

  unfoldable pub serve : Request → Handler
  unfolding list_devices create_device get_device patch_device delete_device
  serve (lists namespace) = list_devices namespace
  serve (creates namespace name body) = create_device namespace name body
  serve (gets namespace name) = get_device namespace name
  serve (patches namespace name body) = patch_device namespace name body
  serve (deletes namespace name) = delete_device namespace name

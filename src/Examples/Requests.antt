-- ===== src/Examples/Requests.antt =====
-- Requests on devices, at a cluster that holds at most one (apps/api/internal/api/devices.go).
use elp.Prelude.{◌≡◌, refl, ap, subst, String, Option, none, some, if◌then◌else◌, arith}
use elp.Prelude.Result.{Result, ok, err}
use elp.Prelude.Eq.{◌==◌, string_comparable, beq_refl}
use elp.Operator.Device.{Z21Device}
use elp.Api.Requests.{validate_device_create, spec_from_create}
use elp.Api.Handlers.{HandlerApi, Request, creates, serve, create_device, new_device, request_name}
use elp.Api.Refused.{RefusesCleanly, StoresCreated, ReadsBack, refused_unchanged, created_readable}
use elp.Examples.Cluster.{fixed, is_not_found, one_address, not_found}
use elp.Examples.Devices.{device, request}

abbrev found : String → Option Z21Device → Result String Z21Device
found name none = err not_found
found name (some d) = if name == d.name then ok d else err not_found

abbrev created : Z21Device → Option Z21Device → Result String Z21Device × Option Z21Device
created d none = (ok d, some d)
created d (some e) = (err "already exists", some e)

abbrev api : HandlerApi (Option Z21Device) String
api = record {
  is_not_found = is_not_found;
  is_already_exists = λ e. e == "already exists";
  devices = record (fixed none) { get = λ namespace name s. found name s; create = created };
  publish_set_broadcast_flags = λ d s. (ok tt, s);
  net = one_address;
}

api-RefusesCleanly : RefusesCleanly api
api-RefusesCleanly d e none failed = ground (arith, failed)
api-RefusesCleanly d e (some old) failed = refl

api-StoresCreated : StoresCreated api
api-StoresCreated d stored none t made =
    subst (λ u. found d.name u ≡ ok stored) (ap (λ r. r.1) made)
      (rw (beq_refl d.name) (ap (λ r. r.0) made))
api-StoresCreated d stored (some old) t made = ground (arith, made)

-- A request whose body names another device than the URL.
abbrev mismatch : Request
mismatch = creates "elp" "museum" (some request)

refused_unchanged_example : (serve api mismatch (some device)).1 ≡ some device
unfolding serve create_device request_name
refused_unchanged_example =
    refused_unchanged api api-RefusesCleanly mismatch (some device) (ground arith) (ground arith)

created_readable_example :
    (name : String) × (request_name "" request.name ≡ some name)
    × ReadsBack api "elp" name (create_device api "elp" "" (some request) none)
unfolding create_device request_name spec_from_create validate_device_create new_device
created_readable_example = created_readable api api-StoresCreated "elp" "" request none refl

-- ===== src/Operator/Lifecycle.antt =====
-- The passes of the controller over a device, from its creation to its deletion
-- (operators/z21-device/internal/controller/z21device_controller.go). Logs are left out.
use elp.Prelude.{String, false, not, Option, none, some, List, [], ◌∷◌, if◌then◌else◌}
use elp.Prelude.Result.{Result, ok, err}
use elp.Prelude.Action.{Action, pure, reading, ◌>>=◌, ◌>>◌}
use elp.Prelude.Eq.{◌==◌, string_comparable}
use elp.Operator.Device.{
  Z21Device, backend_simulator, device_finalizer_name, phase_failed, phase_stopping,
}
use elp.Operator.Workload.{Deployment, RuntimeConfig}
use elp.Operator.Status.{StatusInput, compute_phase, update_status}
use elp.Operator.Controller.{
  DeviceApi, Settings, load_runtime_config, reconcile_simulator_service,
  reconcile_simulator_deployment, delete_simulator, delete_gateway,
  reconcile_gateway_service_account, reconcile_gateway_rbac, reconcile_gateway_deployment,
}

-- What `reconcileSimulator` returns: the results beside the error are read in both cases.
pub record Simulated (E : Type 0) : Type 0 where
  pub deploy : Option Deployment
  pub service : String
  pub failure : Option E

-- A status that reports only a phase.
abbrev pub only_phase : String → StatusInput
only_phase p = record {
  gateway_deploy = none;
  simulator_deploy = none;
  simulator_svc = "";
  phase = p;
}

-- A request for each device: its namespace and its name.
unfoldable pub device_requests : List Z21Device → List (String × String)
device_requests [] = []
device_requests (d ∷ rest) = (d.namespace, d.name) ∷ device_requests rest

module _ {S E : Type 0} (api : DeviceApi S E) (r : Settings) where
  abbrev pub simulated : String → Result E Deployment × S → Simulated E × S
  simulated service (ok d, s) = (record { deploy = some d; service = service; failure = none }, s)
  simulated service (err e, s) = (record { deploy = none; service = service; failure = some e }, s)

  abbrev pub unless_failed :
      {A : Type 0} → Result E A × S → (A → S → Simulated E × S) → Simulated E × S
  unless_failed (ok a, s) k = k a s
  unless_failed (err e, s) k = (record { deploy = none; service = ""; failure = some e }, s)

  unfoldable pub reconcile_simulator : Z21Device → RuntimeConfig → S → Simulated E × S
  unfolding delete_simulator reconcile_simulator_service reconcile_simulator_deployment
  reconcile_simulator device config s =
      if not (device.spec.backend.backend_type == backend_simulator)
      then unless_failed (delete_simulator api r device s)
          (λ _ t. (record { deploy = none; service = ""; failure = none }, t))
      else unless_failed (reconcile_simulator_service api r device s)
          (λ service t. simulated service (reconcile_simulator_deployment api r device config t))

  -- `if err != nil { return r.updateStatus(…) }`: the error itself is logged and not returned.
  abbrev pub or_report :
      {A : Type 0}
      → Z21Device
      → StatusInput
      → Result E A × S
      → (A → Action S E (Unit {0}))
      → Result E (Unit {0}) × S
  or_report device input (ok a, s) k = k a s
  or_report device input (err e, s) k = update_status api.set_condition api.devices device input s

  unfoldable pub reconcile_gateway :
      Z21Device → String → RuntimeConfig → Simulated E × S → Result E (Unit {0}) × S
  unfolding update_status reconcile_gateway_deployment compute_phase
  reconcile_gateway device sa_name config (sim, s) =
      let input : Option Deployment → String → StatusInput = λ gateway p. record {
        gateway_deploy = gateway;
        simulator_deploy = sim.deploy;
        simulator_svc = sim.service;
        phase = p;
      } in
      elim sim.failure [
        | some e ↦ update_status api.set_condition api.devices device (input none phase_failed) s
        | none ↦
            or_report device (input none phase_failed)
              (reconcile_gateway_deployment api r device sa_name config s)
              (λ gateway.
                update_status api.set_condition api.devices device
                  (input (some gateway) (compute_phase (some gateway) sim.deploy false)))
      ]

  -- What follows for a device that has the finalizer and is not being deleted.
  unfoldable pub reconcile_workloads : Z21Device → Action S E (Unit {0})
  unfolding reconcile_gateway_service_account reconcile_gateway_rbac reconcile_simulator
      reconcile_gateway load_runtime_config update_status
  reconcile_workloads device s =
      let config = load_runtime_config api r s in
      or_report device (only_phase phase_failed) (reconcile_gateway_service_account api r device s)
        (λ sa_name t.
          or_report device (only_phase phase_failed) (reconcile_gateway_rbac api r device sa_name t)
            (λ _ u. reconcile_gateway device sa_name config (reconcile_simulator device config u)))

  unfoldable pub reconcile_delete : Z21Device → Action S E (Unit {0})
  unfolding update_status delete_gateway delete_simulator
  reconcile_delete device = do
    update_status api.set_condition api.devices device (only_phase phase_stopping)
    delete_gateway api r device
    delete_simulator api r device
    latest ← reading (api.devices.get device.namespace device.name)
    api.devices.update (api.remove_finalizer latest device_finalizer_name)
    pure tt

  unfoldable pub reconcile_device : Z21Device → Action S E (Unit {0})
  unfolding reconcile_delete reconcile_workloads
  reconcile_device device s =
      if not (api.contains_finalizer device device_finalizer_name)
      then (do api.devices.update (api.add_finalizer device device_finalizer_name); pure tt) s
      else if device.is_deleting
      then reconcile_delete device s
      else reconcile_workloads device s

  unfoldable pub reconcile : String → String → Action S E (Unit {0})
  unfolding reconcile_device
  reconcile namespace name s = elim (api.devices.get namespace name s) [
    | err e ↦ (if api.is_not_found e then ok tt else err e, s)
    | ok device ↦ reconcile_device device s
  ]

  -- The requests that a changed ConfigMap puts in the queue: none if the list fails.
  unfoldable pub map_elp_config_to_devices : S → List (String × String)
  unfolding device_requests
  map_elp_config_to_devices s = elim (api.devices.list s) [
    | err e ↦ []
    | ok devices ↦ device_requests devices
  ]

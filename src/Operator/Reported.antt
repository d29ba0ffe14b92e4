-- ===== src/Operator/Reported.antt =====
-- What a pass of the controller reports of a device
-- (operators/z21-device/internal/controller/z21device_controller.go).
use elp.Prelude.{◌≡◌, String, true, Option, none, some}
use elp.Prelude.Result.{Result}
use elp.Prelude.Action.{Action}
use elp.Prelude.Eq.{◌==◌, string_comparable}
use elp.Operator.Device.{Z21Device, backend_simulator, simulator_service_name, phase_running}
use elp.Operator.Workload.{Deployment}
use elp.Operator.Status.{StatusInput, update_status}
use elp.Operator.Running.{HasReady, HasFailed}
use elp.Operator.Controller.{DeviceApi, Settings}
use elp.Operator.Lifecycle.{Simulated}

-- The report is of workloads that are all up.
pub record IsUp (device : Z21Device) (input : StatusInput) : Type 0 where
  pub gateway_ready : HasReady input.gateway_deploy
  pub gateway_sound : ¬ HasFailed input.gateway_deploy
  -- The simulator, where the device's backend is one.
  pub simulator_sound :
      (device.spec.backend.backend_type == backend_simulator) ≡ true
      → ¬ HasFailed input.simulator_deploy
  pub simulator_ready :
      (device.spec.backend.backend_type == backend_simulator) ≡ true
      → HasReady input.simulator_deploy
  pub simulator_named :
      (device.spec.backend.backend_type == backend_simulator) ≡ true
      → input.simulator_svc ≡ simulator_service_name device.name

module _ {S E : Type 0} (api : DeviceApi S E) (r : Settings) (device : Z21Device) where
  -- The pass ends with this report.
  abbrev pub Reports : Result E (Unit {0}) × S → Type 0
  Reports x =
      (input : StatusInput) × (u : S) × (x
        ≡ update_status api.set_condition api.devices device input u)
      × (input.phase ≡ phase_running → IsUp device input)

  -- What a simulator that did not fail tells of a device with one.
  abbrev HasSimulator : Simulated E → Type 0
  HasSimulator sim =
      sim.failure ≡ none
      → ((d : Deployment) × (sim.deploy ≡ some d))
        × (sim.service ≡ simulator_service_name device.name)

  -- The report of a pass that reaches its end.
  abbrev report : Simulated E → Option Deployment → String → StatusInput
  report sim gateway p = record {
    gateway_deploy = gateway;
    simulator_deploy = sim.deploy;
    simulator_svc = sim.service;
    phase = p;
  }

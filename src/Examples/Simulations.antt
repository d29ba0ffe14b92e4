-- ===== src/Examples/Simulations.antt =====
-- A simulation of one detector, and requests that change it
-- (operators/z21-sim-controller, apps/api/internal/api/simulations.go).
use Prim.Native.Nat.{ℕ, ◌+◌}
use elp.Prelude.{◌≡◌, String, none, some, [], ◌∷◌, ◌++◌}
use elp.Prelude.Result.{ok}
use elp.Prelude.Action.{Action}
use elp.Prelude.Int.{pos}
use elp.Operator.Device.{Z21Device, backend_simulator}
use elp.Sim.Control.{NotifyRequest}
use elp.Simulation.Resource.{SimulatedDetector, Simulation}
use elp.Simulation.Controller.{SimulationApi}
use elp.Api.Simulations.{merge_can_detectors}
use elp.Api.Merged.{Ascending, ids, last_with, merge_exact}
use elp.Sim.Server.{Server, new}
use elp.Sim.Control.{rpc_notify_can_device_detected}
use elp.Simulation.Controller.{detector_request}
use elp.Examples.Simulator.{z}
use elp.Examples.Cluster.{fixed, is_not_found, one_address}
use elp.Examples.Devices.{device}
use elp.Examples.Controllers.{texts}

abbrev detector : ℕ → ℕ → SimulatedDetector
detector net_id address = record {
  net_id = net_id;
  name = [];
  module_address = address;
  port_count = 0;
}

abbrev simulation : Simulation
simulation = record {
  namespace = "elp";
  name = "yard";
  generation = pos 1;
  spec = record { device_ref = "yard"; can_detectors = detector 7 0 ∷ []; can_boosters = [] };
  status = record {
    phase = "";
    message = "";
    observed_generation = pos 0;
    applied_can_devices = pos 0;
  };
}

abbrev simulated_device : Z21Device
simulated_device = record device {
  spec = record (device.spec) {
    backend = record { backend_type = backend_simulator; hardware = none; simulator = none };
  };
}

-- The simulator counts the devices that it is told of.
abbrev count_devices : String → NotifyRequest → Action ℕ String (Unit {0})
count_devices addr req s = (ok tt, s + 1)

abbrev api : SimulationApi ℕ String
api = record {
  is_not_found = is_not_found;
  simulations = fixed (some simulation);
  devices = fixed (some simulated_device);
  client_for = some count_devices;
  fmt = texts;
  net = one_address;
  error_text = λ e. e;
  wrap = λ text e. e;
}

merge_exact_example :
    Ascending (ids (merge_can_detectors (detector 9 1 ∷ detector 7 1 ∷ []) (detector 9 4 ∷ [])))
    × ((id : ℕ)
        → last_with id (merge_can_detectors (detector 9 1 ∷ detector 7 1 ∷ []) (detector 9 4 ∷ []))
          ≡ last_with id ((detector 9 1 ∷ detector 7 1 ∷ []) ++ (detector 9 4 ∷ [])))
merge_exact_example = merge_exact (detector 9 1 ∷ detector 7 1 ∷ []) (detector 9 4 ∷ [])

-- The request for a detector, made of a simulator that has no devices.
abbrev wanted : NotifyRequest
wanted = detector_request (detector 7 0)

abbrev before : Server
before = new 0

abbrev registered : Server
registered = (rpc_notify_can_device_detected z before wanted).0

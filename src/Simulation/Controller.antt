-- ===== src/Simulation/Controller.antt =====
-- The controller that plays a simulation to the simulator of its device
-- (operators/z21-sim-controller/internal/controller/simulation_controller.go). Logs are left out.
use Prim.Native.String.{◌++◌}
use Prim.Native.Nat.{ℕ}
use elp.Prelude.{String, Bool, not, ◌&&◌, Option, none, some, List, [], ◌∷◌, if◌then◌else◌}
use elp.Prelude.Result.{Result, ok, err}
use elp.Prelude.Action.{Action, pure, when, ◌>>◌}
use elp.Prelude.Eq.{◌==◌, string_comparable, nat_comparable}
use elp.Prelude.Int.{ℤ, pos, beq_ℤ, increment}
use elp.Canpool.Messages.{Fmt}
use elp.Operator.Cluster.{Resource}
use elp.Operator.Device.{
  Z21Device, Net, backend_simulator, default_workload_namespace, simulator_grpc_address,
}
use elp.Sim.Control.{NotifyRequest, proto_detector, proto_booster}
use elp.Simulation.Resource.{
  SimulatedDetector, SimulatedBooster, Simulation, SimulationStatus, simulation_applied,
  simulation_failed,
}

-- What the controller calls: the cluster, and the client of a simulator's control service.
pub record SimulationApi (S E : Type 0) : Type 0 where
  pub is_not_found : E → Bool
  pub simulations : Resource S E Simulation
  pub devices : Resource S E Z21Device
  -- `SimClients.ClientFor(addr).NotifyCANDeviceDetected`; none if `SimClients` is nil.
  pub client_for : Option (String → NotifyRequest → Action S E (Unit {0}))
  pub fmt : Fmt
  pub net : Net
  -- `err.Error()`, and `fmt.Errorf("…: %w", err)`
  pub error_text : E → String
  pub wrap : String → E → E

-- `if x == 0 { x = fallback }`
unfoldable pub default_to : ℕ → ℕ → ℕ
default_to fallback x = if x == 0 then fallback else x

unfoldable pub detector_request : SimulatedDetector → NotifyRequest
unfolding default_to
detector_request d = record {
  net_id = d.net_id;
  kind = proto_detector;
  name = d.name;
  module_addr = default_to 1 d.module_address;
  port_count = default_to 8 d.port_count;
  output_port = 0;
}

unfoldable pub booster_request : SimulatedBooster → NotifyRequest
unfolding default_to
booster_request b = record {
  net_id = b.net_id;
  kind = proto_booster;
  name = b.name;
  module_addr = 0;
  port_count = 0;
  output_port = default_to 1 b.output_port;
}

unfoldable pub status_equal : SimulationStatus → SimulationStatus → Bool
status_equal a b =
    a.phase == b.phase
    && a.message == b.message
    && beq_ℤ a.observed_generation b.observed_generation
    && beq_ℤ a.applied_can_devices b.applied_can_devices

unfoldable pub workload_namespace : String → String
workload_namespace configured = if configured == "" then default_workload_namespace else configured

-- A count beside the error of a call.
abbrev pub Counted : Type 0 → Type 0
Counted E = ℤ × Option E

module _ {S E : Type 0} (api : SimulationApi S E) where
  -- A round of either loop: on an error the count so far is returned.
  abbrev pub counted : String → ℤ → Result E (Unit {0}) × S → (S → Counted E × S) → Counted E × S
  counted text applied (ok u, s) k = k s
  counted text applied (err e, s) k = ((applied, some (api.wrap text e)), s)

  module _ (notify : NotifyRequest → Action S E (Unit {0})) where
    unfoldable pub apply_boosters : List SimulatedBooster → ℤ → S → Counted E × S
    unfolding booster_request increment
    apply_boosters [] applied s = ((applied, none), s)
    apply_boosters (b ∷ rest) applied s =
        counted ("register CAN booster netID=0x" ++ api.fmt.upper_hex4 b.net_id) applied
          (notify (booster_request b) s) (apply_boosters rest (increment applied))

    unfoldable pub apply_detectors :
        List SimulatedBooster → List SimulatedDetector → ℤ → S → Counted E × S
    unfolding detector_request apply_boosters increment
    apply_detectors boosters [] applied s = apply_boosters boosters applied s
    apply_detectors boosters (d ∷ rest) applied s =
        counted ("register CAN detector netID=0x" ++ api.fmt.upper_hex4 d.net_id) applied
          (notify (detector_request d) s) (apply_detectors boosters rest (increment applied))

    unfoldable pub apply_can_devices : Simulation → S → Counted E × S
    unfolding apply_detectors
    apply_can_devices simulation s =
        apply_detectors simulation.spec.can_boosters simulation.spec.can_detectors (pos 0) s

  unfoldable pub patch_status : Simulation → String → String → ℤ → Action S E (Unit {0})
  unfolding status_equal
  patch_status simulation phase message applied =
      let status : SimulationStatus = record {
        phase = phase;
        message = message;
        observed_generation = simulation.generation;
        applied_can_devices = applied;
      } in
      when (not (status_equal simulation.status status))
        (do api.simulations.update_status (record simulation { status = status }); pure tt)

  -- What is reported once the devices were registered, or one of them was not.
  unfoldable pub report : Simulation → Counted E × S → Result E (Unit {0}) × S
  unfolding patch_status
  report simulation ((applied, none), s) = patch_status simulation simulation_applied "" applied s
  report simulation ((applied, some e), s) =
      patch_status simulation simulation_failed (api.error_text e) applied s

  -- From the device on; `configured` is the reconciler's workload namespace, empty if it is not set.
  unfoldable pub reconcile_on_device : String → Simulation → Z21Device → Action S E (Unit {0})
  unfolding patch_status report apply_can_devices workload_namespace simulator_grpc_address
  reconcile_on_device configured simulation device s =
      if not (device.spec.backend.backend_type == backend_simulator)
      then patch_status simulation simulation_failed
          ("Z21Device "
            ++ (api.fmt.quote device.name
                ++ (" backend is "
                    ++ (api.fmt.quote device.spec.backend.backend_type
                        ++ (", expected " ++ api.fmt.quote backend_simulator)))))
          (pos 0) s
      else elim api.client_for [
        | none ↦
            patch_status simulation simulation_failed "simulator gRPC client pool is not configured"
              (pos 0) s
        | some client_for ↦
            let addr = simulator_grpc_address api.net (workload_namespace configured) device.name in
            report simulation (apply_can_devices (client_for addr) simulation s)
      ]

  unfoldable pub reconcile_simulation : String → Simulation → Action S E (Unit {0})
  unfolding patch_status reconcile_on_device
  reconcile_simulation configured simulation s =
      if simulation.spec.device_ref == ""
      then patch_status simulation simulation_failed "spec.deviceRef.name is required" (pos 0) s
      else elim (api.devices.get simulation.namespace simulation.spec.device_ref s) [
        | ok device ↦ reconcile_on_device configured simulation device s
        | err e ↦
            if api.is_not_found e
            then patch_status simulation simulation_failed
                ("Z21Device "
                  ++ (api.fmt.quote simulation.spec.device_ref
                      ++ (" not found in namespace " ++ api.fmt.quote simulation.namespace)))
                (pos 0) s
            else (err e, s)
      ]

  unfoldable pub reconcile : String → String → String → Action S E (Unit {0})
  unfolding reconcile_simulation
  reconcile configured namespace name s = elim (api.simulations.get namespace name s) [
    | ok simulation ↦ reconcile_simulation configured simulation s
    | err e ↦ (if api.is_not_found e then ok tt else err e, s)
  ]
